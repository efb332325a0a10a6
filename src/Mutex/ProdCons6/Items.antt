-- ===== src/Mutex/ProdCons6/Items.antt =====
-- Every item below `nput` stands in its place, so the consumer reads no wrong value; and the
-- producers' own counts.
use unpvol.Base.{
  ℕ, ◌+◌, ◌<◌, ◌≤◌, ◌≡◌, refl, arith, update, total, total-update, total-const, some, dec_lt, ◌∙◌,
  sym,
}
use unpvol.Mutex.ProdCons6.Defs.{
  Put, p_lock_put, p_store, p_nput, Get, c_head, c_check, Shared, Produced, Consumer, Consumed,
  Thread, produce, consume, wake, moved_on, System, produces, consumes, spurious, main, Reach,
  start, later,
}
use unpvol.Mutex.ProdCons6.Counts.{
  Tally, tally, Moved, update-Moved, inside-le-in_put, stored-le-putting, signalled-le-in_ready,
  in_put, in_ready, putting, stored, valuing, unready, signalled, uncounted, ended,
}
use unpvol.Mutex.ProdCons6.Invariant.{IsSound, produce-IsSound, consume-IsSound, spurious-IsSound}

pub record HoldsItems (m : Shared) (t : Tally) (c : Consumer) : Type 0 where
  pub window : (j : ℕ) → j < m.nput → m.buff j ≡ j
  pub pending : 0 < t.n_stored → m.buff m.nput ≡ m.nput
  pub no_errors : c.errors ≡ 0

module _ {nitems : ℕ} {m : Shared} {a : Tally} {c : Consumer} (v : IsSound nitems m a c)
    (h : HoldsItems m a c) where
  module _ {b : Tally} {l : Produced} (sa : a.n_stored ≤ a.n_putting)
      (sb : b.n_stored ≤ b.n_putting) (ib : b.n_putting + b.n_valuing ≤ b.n_in_put) {d : Consumer}
      (vb : IsSound nitems l.mem b d) where
    produce-window :
        (p : Put)
        → produce nitems m p ≡ some l
        → Moved a b p l.at
        → (j : ℕ) → j < l.mem.nput
        → l.mem.buff j ≡ j
    unfolding produce
    produce-window p_store e k j hi = ground (arith, h.window j)
    produce-window p_nput e k j hi = elim (dec_lt j m.nput) [
      | yes q ↦ ground (arith, h.window j)
      | no q ↦ let x : j ≡ m.nput = ground arith in ground (arith, h.pending)
    ]
    produce-window _ e k j hi = ground (arith, h.window j)

    produce-pending :
        (p : Put)
        → produce nitems m p ≡ some l
        → Moved a b p l.at
        → 0 < b.n_stored
        → l.mem.buff l.mem.nput ≡ l.mem.nput
    unfolding produce
    produce-pending p_store e k s = ground arith
    produce-pending _ e k s = ground (arith, h.pending)

  consume-window :
      {l : Consumed} (g : Get)
      → consume nitems m c g ≡ some l
      → (j : ℕ) → j < l.mem.nput
      → l.mem.buff j ≡ j
  unfolding consume
  consume-window c_head e j hi = ground (arith, h.window j)
  consume-window _ e j hi = ground (arith, h.window j)

  consume-pending :
      {l : Consumed} (g : Get)
      → consume nitems m c g ≡ some l
      → 0 < a.n_stored
      → l.mem.buff l.mem.nput ≡ l.mem.nput
  unfolding consume
  consume-pending c_head e s = ground (arith, h.pending)
  consume-pending _ e s = ground (arith, h.pending)

  consume-errors :
      {l : Consumed} (g : Get) → c.at ≡ g → consume nitems m c g ≡ some l → l.thread.errors ≡ 0
  unfolding consume
  consume-errors c_check q e = ground (arith, h.no_errors, h.window c.i)
  consume-errors _ q e = ground (arith, h.no_errors)

-- A producer's step adds to the counts and the uncounted what it adds to `nput`.
produce-counts :
    (nitems : ℕ) (m : Shared) {l : Produced} (p : Put)
    → produce nitems m p ≡ some l
    → l.counted + uncounted l.at + m.nput ≡ uncounted p + l.mem.nput
unfolding produce
produce-counts nitems m p_lock_put e = ground arith
produce-counts nitems m _ e = ground arith

consume-nput :
    (nitems : ℕ) (m : Shared) (c : Consumer) {l : Consumed} (g : Get)
    → consume nitems m c g ≡ some l
    → l.mem.nput ≡ m.nput
unfolding consume
consume-nput nitems m c c_head e = ground arith
consume-nput nitems m c _ e = ground arith

abbrev pub count_of : Thread → ℕ
count_of t = t.count

pub record IsGood (nitems n : ℕ) (s : System) : Type 0 where
  pub sound : IsSound nitems s.mem (tally n s.threads) s.c
  pub holds : HoldsItems s.mem (tally n s.threads) s.c
  pub counts : total count_of n s.threads + (tally n s.threads).n_uncounted ≡ s.mem.nput

main-zero : (w : Put → ℕ) (n : ℕ) → w p_lock_put ≡ 0 → total (λ t. w t.at) n main.threads ≡ 0
main-zero w n h = total-const (λ t. w t.at) n _ h

main-IsGood : (nitems n : ℕ) → IsGood nitems n main
unfolding tally
main-IsGood nitems n = record {
  sound = ground (
    arith,
    main-zero in_put n refl,
    main-zero in_ready n refl,
    main-zero putting n refl,
    main-zero valuing n refl,
    main-zero unready n refl,
    main-zero signalled n refl,
    main-zero ended n refl,
  );
  holds = record {
    window = λ j hi. absurd (omega arith);
    pending = λ h. absurd (omega (arith, main-zero stored n refl));
    no_errors = refl;
  };
  counts = omega (arith, main-zero uncounted n refl, total-const count_of n (main.threads 0) refl);
}

produces-IsGood :
    {nitems n : ℕ} {s : System} (i : ℕ) {l : Produced}
    → i < n
    → produce nitems s.mem (s.threads i).at ≡ some l
    → IsGood nitems n s
    → IsGood nitems n (record {
      mem = l.mem;
      threads = update s.threads i (moved_on l (s.threads i));
      c = record { i = s.c.i; at = wake l.signals s.c.at; errors = s.c.errors };
    })
produces-IsGood {nitems} {n} {s} i {l} lt e g = record {
  sound = sound;
  holds = record {
    window =
        produce-window g.sound g.holds (stored-le-putting n s.threads) (stored-le-putting n f)
          (inside-le-in_put n f) sound (s.threads i).at e moved;
    pending =
        produce-pending g.sound g.holds (stored-le-putting n s.threads) (stored-le-putting n f)
          (inside-le-in_put n f) sound (s.threads i).at e moved;
    no_errors = g.holds.no_errors;
  };
  counts = omega (
    arith,
    g.counts,
    total-update count_of n s.threads i (moved_on l (s.threads i)) lt,
    moved.m_uncounted,
    produce-counts nitems s.mem (s.threads i).at e,
  );
}
  where
    f : ℕ → Thread
    f = update s.threads i (moved_on l (s.threads i))

    moved : Moved (tally n s.threads) (tally n f) (s.threads i).at l.at
    moved = update-Moved n s.threads i (moved_on l (s.threads i)) lt

    sound :
        IsSound nitems l.mem
          (tally n f)
          (record { i = s.c.i; at = wake l.signals s.c.at; errors = s.c.errors })
    sound =
        produce-IsSound g.sound (signalled-le-in_ready n f) (inside-le-in_put n f) (s.threads i).at
          s.c.at refl e moved

pub Reach-IsGood : {nitems n : ℕ} {s : System} → Reach nitems n s → IsGood nitems n s
Reach-IsGood {nitems} {n} start = main-IsGood nitems n
Reach-IsGood (later r (produces i lt e)) = produces-IsGood i lt e (Reach-IsGood r)
Reach-IsGood {nitems} {n} (later {s} r (consumes e)) =
    let g = Reach-IsGood r in
    record {
      sound = consume-IsSound g.sound s.c.at (signalled-le-in_ready n s.threads) refl e;
      holds = record {
        window = consume-window g.sound g.holds s.c.at e;
        pending = consume-pending g.sound g.holds s.c.at e;
        no_errors = consume-errors g.sound g.holds s.c.at refl e;
      };
      counts = g.counts ∙ sym (consume-nput nitems s.mem s.c s.c.at e);
    }
Reach-IsGood (later r (spurious q)) =
    let g = Reach-IsGood r in
    record {
      sound = spurious-IsSound g.sound q;
      holds = record {
        window = g.holds.window;
        pending = g.holds.pending;
        no_errors = g.holds.no_errors;
      };
      counts = g.counts;
    }
