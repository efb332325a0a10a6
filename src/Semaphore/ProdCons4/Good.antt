-- ===== src/Semaphore/ProdCons4/Good.antt =====
-- The threads' own counts, and what holds of every reachable state of prodcons4.c.
use unpvol.Base.{
  ℕ, ◌+◌, ◌<◌, ◌≡◌, refl, arith, Bool, true, false, ltb, if◌then◌else◌, update, total, total-update,
  total-zero, some, ℕ_discrete, ==_refl, ==_ne, ◌∙◌,
}
use unpvol.Semaphore.ProdCons4.Defs.{
  Pc, p_wait_empty, p_wait_mutex, p_test, p_store, p_nput, p_nputval, p_post_mutex, p_post_stored,
  p_count, p_exit_stored, p_exit_empty, p_exit_mutex, p_returned, c_wait_stored, Shared, Local,
  produce, consume, Thread, System, after, produces, consumes, main, Reach, start, later,
}
use unpvol.Semaphore.ProdCons4.Counts.{
  tally, update-Moved, thread-Within, inside-le-in_mutex, stored-le-putting, p_uncounted,
  c_uncounted, in_mutex, has_empty, owes_empty, owes_stored, has_stored, putting, stored, put,
  getting, got, leaving, left, c_ended,
}
use unpvol.Semaphore.ProdCons4.Invariant.{IsSound, produce-IsSound, consume-IsSound}
use unpvol.Semaphore.ProdCons4.Items.{HoldsItems, produce-HoldsItems, consume-HoldsItems}

abbrev pub is_producer : Pc → Bool
is_producer p_wait_empty = true
is_producer p_wait_mutex = true
is_producer p_test = true
is_producer p_store = true
is_producer p_nput = true
is_producer p_nputval = true
is_producer p_post_mutex = true
is_producer p_post_stored = true
is_producer p_count = true
is_producer p_exit_stored = true
is_producer p_exit_empty = true
is_producer p_exit_mutex = true
is_producer p_returned = true
is_producer _ = false

-- A thread's count as a producer's, and as a consumer's.
abbrev pub put_by : Thread → ℕ
put_by t = if is_producer t.at then t.count else 0

abbrev pub got_by : Thread → ℕ
got_by t = if is_producer t.at then 0 else t.count

pub record IsCounted (m : Shared) (n : ℕ) (f : ℕ → Thread) : Type 0 where
  pub puts : total put_by n f + (tally n f).n_p_uncounted ≡ m.nput
  pub gets : total got_by n f + (tally n f).n_c_uncounted ≡ m.nget

abbrev moved_on : Local → Thread → Thread
moved_on l t = record { at = l.pc; count = t.count + l.counted }

module _ (nitems : ℕ) (m : Shared) {l : Local} where
  produce-puts :
      (p : Pc) (c : ℕ)
      → produce nitems m p ≡ some l
      → put_by (moved_on l (record { at = p; count = c })) + p_uncounted l.pc + m.nput
        ≡ put_by (record { at = p; count = c }) + p_uncounted p + l.mem.nput
  unfolding produce
  produce-puts p_wait_empty c e = ground arith
  produce-puts _ c e = ground arith

  produce-gets :
      (p : Pc) (c : ℕ)
      → produce nitems m p ≡ some l
      → got_by (moved_on l (record { at = p; count = c })) + c_uncounted l.pc + m.nget
        ≡ got_by (record { at = p; count = c }) + c_uncounted p + l.mem.nget
  unfolding produce
  produce-gets p_wait_empty c e = ground arith
  produce-gets _ c e = ground arith

  consume-puts :
      (p : Pc) (c : ℕ)
      → consume nitems m p ≡ some l
      → put_by (moved_on l (record { at = p; count = c })) + p_uncounted l.pc + m.nput
        ≡ put_by (record { at = p; count = c }) + p_uncounted p + l.mem.nput
  unfolding consume
  consume-puts p_wait_empty c e = ground arith
  consume-puts _ c e = ground arith

  consume-gets :
      (p : Pc) (c : ℕ)
      → consume nitems m p ≡ some l
      → got_by (moved_on l (record { at = p; count = c })) + c_uncounted l.pc + m.nget
        ≡ got_by (record { at = p; count = c }) + c_uncounted p + l.mem.nget
  unfolding consume
  consume-gets p_wait_empty c e = ground arith
  consume-gets _ c e = ground arith

  produce-role : (p : Pc) → produce nitems m p ≡ some l → is_producer l.pc ≡ is_producer p
  unfolding produce
  produce-role p_wait_empty e = ground arith
  produce-role _ e = ground arith

  consume-role : (p : Pc) → consume nitems m p ≡ some l → is_producer l.pc ≡ is_producer p
  unfolding consume
  consume-role p_wait_empty e = ground arith
  consume-role _ e = ground arith

-- A step leaves the roles as they are.
update-role :
    (f : ℕ → Thread) (i j : ℕ) (u : Thread) (b : Bool)
    → is_producer u.at ≡ is_producer (f i).at
    → is_producer (f j).at ≡ b
    → is_producer (update f i u j).at ≡ b
update-role f i j u b e h = elim (ℕ_discrete i j) [
  | yes q ↦ rw (q, ==_refl j) (e ∙ rw q h)
  | no q ↦ rw (==_ne i j q) h
]

-- All that is known of a reachable state.
pub record IsGood (nitems nproducers nconsumers : ℕ) (s : System) : Type 0 where
  pub sound : IsSound nitems s.mem (tally (nproducers + nconsumers) s.threads)
  pub holds : HoldsItems s.mem (tally (nproducers + nconsumers) s.threads)
  pub counted : IsCounted s.mem (nproducers + nconsumers) s.threads
  pub roles : (i : ℕ) → is_producer (s.threads i).at ≡ ltb i nproducers

module _ {nitems np nc : ℕ} {s : System} (g : IsGood nitems np nc s) (i : ℕ) (l : Local)
    (lt : i < np + nc) where
  abbrev n : ℕ
  n = np + nc

  abbrev u : Thread
  u = moved_on l (s.threads i)

  produces-IsGood :
      produce nitems s.mem (s.threads i).at ≡ some l → IsGood nitems np nc (after s i l)
  produces-IsGood e = record {
    sound = sound;
    holds =
        produce-HoldsItems g.sound (stored-le-putting n s.threads) (stored-le-putting n _) sound
          g.holds (s.threads i).at e (update-Moved n s.threads i u lt)
          (thread-Within n s.threads i lt);
    counted = record {
      puts = omega (
        arith,
        g.counted.puts,
        total-update put_by n s.threads i u lt,
        (update-Moved n s.threads i u lt).m_p_uncounted,
        produce-puts nitems s.mem (s.threads i).at (s.threads i).count e,
      );
      gets = omega (
        arith,
        g.counted.gets,
        total-update got_by n s.threads i u lt,
        (update-Moved n s.threads i u lt).m_c_uncounted,
        produce-gets nitems s.mem (s.threads i).at (s.threads i).count e,
      );
    };
    roles = λ j.
        update-role s.threads i j u _ (produce-role nitems s.mem (s.threads i).at e) (g.roles j);
  }
    where
      sound : IsSound nitems l.mem (tally n (update s.threads i u))
      sound =
          produce-IsSound g.sound (inside-le-in_mutex n _) (s.threads i).at e
            (update-Moved n s.threads i u lt)

  consumes-IsGood :
      consume nitems s.mem (s.threads i).at ≡ some l → IsGood nitems np nc (after s i l)
  consumes-IsGood e = record {
    sound = sound;
    holds =
        consume-HoldsItems g.sound (stored-le-putting n s.threads) (stored-le-putting n _) sound
          g.holds (s.threads i).at e (update-Moved n s.threads i u lt)
          (thread-Within n s.threads i lt);
    counted = record {
      puts = omega (
        arith,
        g.counted.puts,
        total-update put_by n s.threads i u lt,
        (update-Moved n s.threads i u lt).m_p_uncounted,
        consume-puts nitems s.mem (s.threads i).at (s.threads i).count e,
      );
      gets = omega (
        arith,
        g.counted.gets,
        total-update got_by n s.threads i u lt,
        (update-Moved n s.threads i u lt).m_c_uncounted,
        consume-gets nitems s.mem (s.threads i).at (s.threads i).count e,
      );
    };
    roles = λ j.
        update-role s.threads i j u _ (consume-role nitems s.mem (s.threads i).at e) (g.roles j);
  }
    where
      sound : IsSound nitems l.mem (tally n (update s.threads i u))
      sound =
          consume-IsSound g.sound (inside-le-in_mutex n _) (s.threads i).at e
            (update-Moved n s.threads i u lt)

main-zero :
    (w : Pc → ℕ) (np nc : ℕ)
    → w p_wait_empty ≡ 0
    → w c_wait_stored ≡ 0
    → total (λ t. w t.at) (np + nc) (main np nc).threads ≡ 0
main-zero w np nc hp hc =
    total-zero (λ t. w t.at) (np + nc) (main np nc).threads (λ j lt. ground arith)

main-IsGood : (nitems np nc : ℕ) → IsGood nitems np nc (main np nc)
unfolding tally
main-IsGood nitems np nc = record {
  sound = ground (
    arith,
    main-zero in_mutex np nc refl refl,
    main-zero has_empty np nc refl refl,
    main-zero owes_empty np nc refl refl,
    main-zero owes_stored np nc refl refl,
    main-zero has_stored np nc refl refl,
    main-zero putting np nc refl refl,
    main-zero put np nc refl refl,
    main-zero getting np nc refl refl,
    main-zero got np nc refl refl,
    main-zero leaving np nc refl refl,
    main-zero left np nc refl refl,
    main-zero c_ended np nc refl refl,
  );
  holds = record {
    window = λ j lo hi. absurd (omega arith);
    pending = λ h. absurd (omega (arith, main-zero stored np nc refl refl));
    no_errors = refl;
  };
  counted = record {
    puts = omega (
      arith,
      main-zero p_uncounted np nc refl refl,
      total-zero put_by (np + nc) (main np nc).threads (λ j lt. ground arith),
    );
    gets = omega (
      arith,
      main-zero c_uncounted np nc refl refl,
      total-zero got_by (np + nc) (main np nc).threads (λ j lt. ground arith),
    );
  };
  roles = λ i. ground arith;
}

pub Reach-IsGood : {nitems np nc : ℕ} {s : System} → Reach nitems np nc s → IsGood nitems np nc s
Reach-IsGood {nitems} {np} {nc} start = main-IsGood nitems np nc
Reach-IsGood (later r (produces i lt e)) = produces-IsGood (Reach-IsGood r) i _ lt e
Reach-IsGood (later r (consumes i lt e)) = consumes-IsGood (Reach-IsGood r) i _ lt e
