-- ===== src/Semaphore/ProdCons3/Good.antt =====
-- What holds of every reachable state of prodcons3.c over semaphores, and the producers' own counts.
use unpvol.Base.{
  ℕ, ◌+◌, ◌<◌, ◌≡◌, refl, arith, update, total, total-update, total-const, some, ◌∙◌, sym,
}
use unpvol.Semaphore.ProdCons3.Defs.{
  Put, p_wait_empty, Get, c_head, Shared, Produced, Consumer, Consumed, Thread, produce, consume,
  moved_on, System, produces, consumes, main, Reach, start, later,
}
use unpvol.Semaphore.ProdCons3.Counts.{
  tally, Moved, update-Moved, thread-Within, inside-le-in_mutex, stored-le-putting, in_mutex,
  has_empty, owes_stored, putting, stored, valuing, uncounted, ended,
}
use unpvol.Semaphore.ProdCons3.Invariant.{
  IsSound, produce-IsSound, consume-IsSound, HoldsItems, produce-HoldsItems, consume-HoldsItems,
}

-- A producer's step adds to the counts and the uncounted what it adds to `nput`.
produce-counts :
    (nitems : ℕ) (m : Shared) {l : Produced} (p : Put)
    → produce nitems m p ≡ some l
    → l.counted + uncounted l.at + m.nput ≡ uncounted p + l.mem.nput
unfolding produce
produce-counts nitems m p_wait_empty e = ground arith
produce-counts nitems m _ e = ground arith

consume-nput :
    (nitems : ℕ) (m : Shared) (c : Consumer) {l : Consumed} (g : Get)
    → consume nitems m c g ≡ some l
    → l.mem.nput ≡ m.nput
unfolding consume
consume-nput nitems m c c_head e = ground arith
consume-nput nitems m c _ e = ground arith

abbrev pub count_of : Thread → ℕ
count_of t = t.count

pub record IsGood (nitems n : ℕ) (s : System) : Type 0 where
  pub sound : IsSound nitems s.mem (tally n s.threads) s.c
  pub holds : HoldsItems s.mem (tally n s.threads) s.c
  pub counts : total count_of n s.threads + (tally n s.threads).n_uncounted ≡ s.mem.nput

main-zero : (w : Put → ℕ) (n : ℕ) → w p_wait_empty ≡ 0 → total (λ t. w t.at) n main.threads ≡ 0
main-zero w n h = total-const (λ t. w t.at) n _ h

main-IsGood : (nitems n : ℕ) → IsGood nitems n main
unfolding tally
main-IsGood nitems n = record {
  sound = ground (
    arith,
    main-zero in_mutex n refl,
    main-zero has_empty n refl,
    main-zero owes_stored n refl,
    main-zero putting n refl,
    main-zero valuing n refl,
    main-zero ended n refl,
  );
  holds = record {
    window = λ j lo hi. absurd (omega arith);
    pending = λ h. absurd (omega (arith, main-zero stored n refl));
    no_errors = refl;
  };
  counts = omega (arith, main-zero uncounted n refl, total-const count_of n (main.threads 0) refl);
}

produces-IsGood :
    {nitems n : ℕ} {s : System} (i : ℕ) {l : Produced}
    → i < n
    → produce nitems s.mem (s.threads i).at ≡ some l
    → IsGood nitems n s
    → IsGood nitems n
        (record s { mem = l.mem; threads = update s.threads i (moved_on l (s.threads i)) })
produces-IsGood {nitems} {n} {s} i {l} lt e g = record {
  sound = sound;
  holds =
      produce-HoldsItems g.sound g.holds (stored-le-putting n s.threads) (stored-le-putting n f)
        (inside-le-in_mutex n f) sound (s.threads i).at e moved (thread-Within n s.threads i lt);
  counts = omega (
    arith,
    g.counts,
    total-update count_of n s.threads i (moved_on l (s.threads i)) lt,
    moved.m_uncounted,
    produce-counts nitems s.mem (s.threads i).at e,
  );
}
  where
    f : ℕ → Thread
    f = update s.threads i (moved_on l (s.threads i))

    moved : Moved (tally n s.threads) (tally n f) (s.threads i).at l.at
    moved = update-Moved n s.threads i (moved_on l (s.threads i)) lt

    sound : IsSound nitems l.mem (tally n f) s.c
    sound = produce-IsSound g.sound (inside-le-in_mutex n f) (s.threads i).at e moved

pub Reach-IsGood : {nitems n : ℕ} {s : System} → Reach nitems n s → IsGood nitems n s
Reach-IsGood {nitems} {n} start = main-IsGood nitems n
Reach-IsGood (later r (produces i lt e)) = produces-IsGood i lt e (Reach-IsGood r)
Reach-IsGood {nitems} {n} (later {s} r (consumes e)) =
    let g = Reach-IsGood r in
    record {
      sound = consume-IsSound g.sound s.c.at refl e;
      holds = consume-HoldsItems g.sound g.holds s.c.at refl e;
      counts = g.counts ∙ sym (consume-nput nitems s.mem s.c s.c.at e);
    }
