-- ===== src/Mutex/ProdCons2/Good.antt =====
-- What holds of every reachable state of prodcons2.c, and the producers' own counts.
use unpvol.Base.{
  ℕ, ◌+◌, ◌<◌, ◌≡◌, refl, arith, update, total, total-update, total-zero, le-total, ap, inl, inr,
  ◌⊎◌, total-const, some, none, ◌∙◌, sym,
}
use unpvol.Mutex.ProdCons2.Defs.{
  Put, p_lock, Get, c_head, Shared, Produced, Consumer, Consumed, Thread, produce, consume,
  moved_on, System, produces, consumes, joins, p_returned, c_unborn, c_head, Get, main, Reach,
  start, later,
}
use unpvol.Mutex.ProdCons2.Counts.{
  tally, Moved, Tally, ended, update-Moved, inside-le-in_mutex, stored-le-putting, in_mutex,
  putting, stored, valuing, uncounted, ended,
}
use unpvol.Mutex.ProdCons2.Invariant.{
  IsSound, produce-IsSound, consume-IsSound, HoldsItems, produce-HoldsItems, consume-HoldsItems,
}

-- A producer's step adds to the counts and the uncounted what it adds to `nput`.
produce-counts :
    (nitems : ℕ) (m : Shared) {l : Produced} (p : Put)
    → produce nitems m p ≡ some l
    → l.counted + uncounted l.at + m.nput ≡ uncounted p + l.mem.nput
unfolding produce
produce-counts nitems m p_lock e = ground arith
produce-counts nitems m _ e = ground arith

consume-nput :
    (nitems : ℕ) (m : Shared) (c : Consumer) {l : Consumed} (g : Get)
    → consume nitems m c g ≡ some l
    → l.mem.nput ≡ m.nput
unfolding consume
consume-nput nitems m c c_head e = ground arith
consume-nput nitems m c _ e = ground arith

abbrev pub count_of : Thread → ℕ
count_of t = t.count

-- All producers have returned.
abbrev pub AllReturned : ℕ → (ℕ → Thread) → Type 0
AllReturned n f = (i : ℕ) → i < n → (f i).at ≡ p_returned

pub record IsGood (nitems n : ℕ) (s : System) : Type 0 where
  pub sound : IsSound nitems s.mem (tally n s.threads) s.c
  pub holds : HoldsItems s.mem (tally n s.threads) s.c
  pub counts : total count_of n s.threads + (tally n s.threads).n_uncounted ≡ s.mem.nput
  pub joined : (s.c.at ≡ c_unborn) ⊎ AllReturned n s.threads

main-zero : (w : Put → ℕ) (n : ℕ) → w p_lock ≡ 0 → total (λ t. w t.at) n main.threads ≡ 0
main-zero w n h = total-const (λ t. w t.at) n _ h

main-IsGood : (nitems n : ℕ) → IsGood nitems n main
unfolding tally
main-IsGood nitems n = record {
  sound = ground (
    arith,
    main-zero in_mutex n refl,
    main-zero putting n refl,
    main-zero valuing n refl,
    main-zero ended n refl,
  );
  holds = record {
    window = λ j hi. absurd (omega arith);
    pending = λ h. absurd (omega (arith, main-zero stored n refl));
    no_errors = refl;
  };
  counts = omega (arith, main-zero uncounted n refl, total-const count_of n (main.threads 0) refl);
  joined = inl refl;
}

none_returned : {A : Type 0} {a : A} → some a ≡ none → ⊥
none_returned e = absurd (ground arith)

produces-IsGood :
    {nitems n : ℕ} {s : System} (i : ℕ) {l : Produced}
    → i < n
    → produce nitems s.mem (s.threads i).at ≡ some l
    → IsGood nitems n s
    → IsGood nitems n
        (record s { mem = l.mem; threads = update s.threads i (moved_on l (s.threads i)) })
unfolding produce
produces-IsGood {nitems} {n} {s} i {l} lt e g = record {
  joined = elim g.joined [ inl q ↦ inl q | inr all ↦ absurd (still all) ];
  sound = sound;
  holds =
      produce-HoldsItems g.sound g.holds (stored-le-putting n s.threads) (stored-le-putting n f)
        (inside-le-in_mutex n f) sound (s.threads i).at e moved;
  counts = omega (
    arith,
    g.counts,
    total-update count_of n s.threads i (moved_on l (s.threads i)) lt,
    moved.m_uncounted,
    produce-counts nitems s.mem (s.threads i).at e,
  );
}
  where
    -- A producer that takes a step had not returned.
    still : AllReturned n s.threads → ⊥
    still all = none_returned (sym e ∙ ap (produce nitems s.mem) (all i lt))

    f : ℕ → Thread
    f = update s.threads i (moved_on l (s.threads i))

    moved : Moved (tally n s.threads) (tally n f) (s.threads i).at l.at
    moved = update-Moved n s.threads i (moved_on l (s.threads i)) lt

    sound : IsSound nitems l.mem (tally n f) s.c
    sound = produce-IsSound g.sound (inside-le-in_mutex n f) (s.threads i).at e moved

pub all_returned :
    (w : Put → ℕ) (n : ℕ) (f : ℕ → Thread)
    → w p_returned ≡ 0
    → AllReturned n f
    → total (λ t. w t.at) n f ≡ 0
all_returned w n f z h = total-zero (λ t. w t.at) n f (λ j lt. rw (h j lt) z)

one_ended : (n : ℕ) (f : ℕ → Thread) → 0 < n → AllReturned n f → 0 < (tally n f).n_ended
unfolding tally
one_ended n f hn h = omega (arith, ap ended (h 0 hn), le-total (λ t. ended t.at) n f 0 hn)

joins-IsSound :
    {nitems : ℕ} {m : Shared} {t : Tally} {c : Consumer}
    → IsSound nitems m t c
    → c.at ≡ c_unborn
    → 0 < t.n_ended
    → IsSound nitems m t (record { i = c.i; at = c_head; errors = c.errors })
joins-IsSound v q h = ground (arith, v)

consume-unborn :
    (nitems : ℕ) (m : Shared) (c : Consumer) {l : Consumed} (g : Get)
    → consume nitems m c g ≡ some l
    → g ≡ c_unborn
    → ⊥
unfolding consume
consume-unborn nitems m c c_unborn e q = absurd (ground arith)
consume-unborn nitems m c _ e q = absurd (ground arith)

pub Reach-IsGood : {nitems n : ℕ} {s : System} → 0 < n → Reach nitems n s → IsGood nitems n s
Reach-IsGood {nitems} {n} hn start = main-IsGood nitems n
Reach-IsGood hn (later r (produces i lt e)) = produces-IsGood i lt e (Reach-IsGood hn r)
Reach-IsGood {nitems} {n} hn (later {s} r (consumes e)) =
    let g = Reach-IsGood hn r in
    record {
      sound = consume-IsSound g.sound s.c.at refl e;
      holds = consume-HoldsItems g.sound g.holds s.c.at refl e;
      counts = g.counts ∙ sym (consume-nput nitems s.mem s.c s.c.at e);
      joined = elim g.joined [
        | inl q ↦ absurd (consume-unborn nitems s.mem s.c s.c.at e q)
        | inr all ↦ inr all
      ];
    }
Reach-IsGood {nitems} {n} hn (later {s} r (joins q all)) =
    let g = Reach-IsGood hn r in
    record {
      sound = joins-IsSound g.sound q (one_ended n s.threads hn all);
      holds = record {
        window = g.holds.window;
        pending = g.holds.pending;
        no_errors = g.holds.no_errors;
      };
      counts = g.counts;
      joined = inr all;
    }
