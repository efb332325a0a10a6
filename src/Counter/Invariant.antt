-- ===== src/Counter/Invariant.antt =====
-- What the lock protects in the loop of Counter/Loop: no round is lost or counted twice.
use unpvol.Base.{
  ℕ, zero, suc, ◌+◌, ◌-◌, ◌*◌, dec_lt, ◌<◌, ◌≤◌, ◌≡◌, ◌≢◌, ◌⊎◌, inl, inr, refl, arith, update,
  total, total-update, total-const, le-total_two, some, List, [], ◌∷◌, ℕ_discrete, ==_refl, ==_ne,
}
use unpvol.Counter.Loop.{
  Cell, Pc, at_head, at_acquire, at_load, at_store, at_release, at_return, Thread, Shared, Stepped,
  round, System, rounds, opens, first, Reach, start, later,
}

abbrev pub in_lock : Pc → ℕ
in_lock at_load = 1
in_lock at_store = 1
in_lock at_release = 1
in_lock _ = 0

abbrev counted : Pc → ℕ
counted at_release = 1
counted _ = 0

-- The rounds of a thread that show in the number.
abbrev pub done : Thread → ℕ
done t = t.i + counted t.at

abbrev pub in_round : Pc → ℕ
in_round at_head = 0
in_round at_return = 0
in_round _ = 1

abbrev AtEnd : ℕ → ℕ → Pc → Type 0
AtEnd nloop i at_return = nloop ≤ i
AtEnd nloop i _ = Unit

-- The `k` numbers from `base` on, the last first.
abbrev pub above : (base k : ℕ) → List ℕ
above base zero = []
above base (suc k) = (base + k) ∷ above base k

pub above-suc : (base k : ℕ) → above base (k + 1) ≡ (base + k) ∷ above base k
above-suc base k = ground arith

pub record IsThread (C : Cell) (nloop : ℕ) (m : Shared C) (t : Thread) : Type 0 where
  pub read : t.at ≡ at_store → t.reg ≡ C.load m.contents
  pub at_most : t.i + in_round t.at ≤ nloop
  pub end : AtEnd nloop t.i t.at

pub record IsGood (C : Cell) (base nloop n : ℕ) (s : System C) : Type 0 where
  pub exclusive : s.mem.lock + s.mem.gate + total (λ t. in_lock t.at) n s.threads ≡ 1
  pub number : C.load s.mem.contents ≡ base + total done n s.threads
  pub numbers : s.mem.found ≡ above base (total done n s.threads)
  pub each : (j : ℕ) → j < n → IsThread C nloop s.mem (s.threads j)

module _ (C : Cell) {nloop : ℕ} (m : Shared C) (t : Thread) (own : IsThread C nloop m t) where
  round-lock :
      {l : Stepped C} (p : Pc)
      → t.at ≡ p
      → round C nloop m t p ≡ some l
      → (l.mem.lock + in_lock l.thread.at ≡ m.lock + in_lock t.at) × (l.mem.gate ≡ m.gate)
  unfolding round
  round-lock at_head q e = ground arith
  round-lock at_acquire q e = elim (dec_lt 0 m.lock) [
    | yes h ↦ ground (arith, C.acquire_free (m.lock - 1))
    | no h ↦ let z : m.lock ≡ 0 = omega arith in ground (arith, C.acquire_held)
  ]
  round-lock at_release q e = ground (arith, C.releases m.lock)
  round-lock _ q e = ground arith

  round-number :
      {l : Stepped C} (p : Pc)
      → t.at ≡ p
      → round C nloop m t p ≡ some l
      → C.load m.contents + done l.thread ≤ C.top + done t
      → C.load l.mem.contents + done t ≡ C.load m.contents + done l.thread
  unfolding round
  round-number at_head q e fits = ground arith
  round-number at_store q e fits =
      let k : t.reg + 1 ≤ C.top = ground (arith, own.read q) in
      ground (arith, own.read q, C.load-store (t.reg + 1) m.contents k)
  round-number _ q e fits = ground arith

  round-numbers :
      {l : Stepped C} (base : ℕ) (p : Pc) (k k' : ℕ)
      → t.at ≡ p
      → round C nloop m t p ≡ some l
      → C.load m.contents ≡ base + k
      → k' + done t ≡ k + done l.thread
      → m.found ≡ above base k
      → l.mem.found ≡ above base k'
  unfolding round
  round-numbers base at_store k k' q e b c f =
      let x : k' ≡ k + 1 = ground arith in ground (arith, own.read q, above-suc base k)
  round-numbers base at_head k k' q e b c f = let x : k' ≡ k = ground arith in ground arith
  round-numbers base _ k k' q e b c f = let x : k' ≡ k = ground arith in ground arith

  round-IsThread :
      {l : Stepped C} (p : Pc)
      → t.at ≡ p
      → round C nloop m t p ≡ some l
      → IsThread C nloop l.mem l.thread
  unfolding round
  round-IsThread at_head q e = ground (arith, own)
  round-IsThread _ q e = ground (arith, own)

  -- Another thread that has read cannot see the number change, since this one has not the lock.
  round-other :
      {l : Stepped C} (p : Pc) (u : Thread)
      → t.at ≡ p
      → round C nloop m t p ≡ some l
      → (u.at ≡ at_store → in_lock t.at ≡ 0)
      → IsThread C nloop m u
      → IsThread C nloop l.mem u
  unfolding round
  round-other at_head u q e out v = record {
    read = ground (arith, v);
    at_most = v.at_most;
    end = v.end;
  }
  round-other _ u q e out v = record { read = ground (arith, v); at_most = v.at_most; end = v.end }

done_at_most :
    {C : Cell} {nloop : ℕ} {m : Shared C} (t : Thread) → IsThread C nloop m t → done t ≤ nloop
done_at_most t v = elim (Pc-cases t.at) [
  | inl q ↦ ground (arith, v)
  | inr q ↦ omega (arith, q, v.at_most)
]
  where
    Pc-cases : (p : Pc) → (p ≡ at_release) ⊎ (counted p ≡ 0)
    Pc-cases at_release = inl refl
    Pc-cases at_head = inr refl
    Pc-cases at_acquire = inr refl
    Pc-cases at_load = inr refl
    Pc-cases at_store = inr refl
    Pc-cases at_return = inr refl

total-at_most :
    {A : Type 0} (w : A → ℕ) (k n : ℕ) (f : ℕ → A)
    → ((j : ℕ) → j < n → w (f j) ≤ k)
    → total w n f ≤ n * k
unfolding total
total-at_most w k zero f h = omega arith
total-at_most w k (suc n) f h =
    grind (arith, h n (omega arith), total-at_most w k n f (λ j lt. h j (omega arith)))

module _ (C : Cell) {base nloop n : ℕ} {s : System C} (fits : base + n * nloop ≤ C.top)
    (g : IsGood C base nloop n s) where
  alone :
      (i j : ℕ) → i < n → j < n → i ≢ j → (s.threads j).at ≡ at_store → in_lock (s.threads i).at ≡ 0
  alone i j li lj ne q =
      ground (arith, g.exclusive, le-total_two (λ t. in_lock t.at) n s.threads i j li lj ne)

  rounds-IsGood :
      (i : ℕ) {l : Stepped C}
      → i < n
      → round C nloop s.mem (s.threads i) (s.threads i).at ≡ some l
      → IsGood C base nloop n (record { mem = l.mem; threads = update s.threads i l.thread })
  rounds-IsGood i {l} lt e = record {
    exclusive = omega (
      arith,
      g.exclusive,
      (round-lock C s.mem t own t.at refl e).0,
      (round-lock C s.mem t own t.at refl e).1,
      total-update (λ t. in_lock t.at) n s.threads i l.thread lt,
    );
    number = omega (
      arith,
      g.number,
      round-number C s.mem t own t.at refl e (
          omega (
            arith,
            fits,
            g.number,
            total-update done n s.threads i l.thread lt,
            total-at_most done nloop n (update s.threads i l.thread) done_small,
          )),
      total-update done n s.threads i l.thread lt,
    );
    numbers =
        round-numbers C s.mem t own base t.at (total done n s.threads) _ refl e g.number
          (total-update done n s.threads i l.thread lt) g.numbers;
    each = each;
  }
    where
      t : Thread
      t = s.threads i

      own : IsThread C nloop s.mem t
      own = g.each i lt

      each : (j : ℕ) → j < n → IsThread C nloop l.mem (update s.threads i l.thread j)
      each j lj = elim (ℕ_discrete i j) [
        | yes q ↦ rw (q, ==_refl j) (round-IsThread C s.mem t own t.at refl e)
        | no ne ↦
            rw (==_ne i j ne) (
              round-other C s.mem t own t.at (s.threads j) refl e (alone i j lt lj ne)
                (g.each j lj))
      ]

      done_small : (j : ℕ) → j < n → done (update s.threads i l.thread j) ≤ nloop
      done_small j lj = done_at_most (update s.threads i l.thread j) (each j lj)

pub Reach-IsGood :
    (C : Cell) {nloop n lock gate : ℕ} {c : C.Contents} {s : System C}
    → lock + gate ≡ 1
    → C.load c + n * nloop ≤ C.top
    → Reach C nloop n lock gate c s
    → IsGood C (C.load c) nloop n s
Reach-IsGood C {nloop} {n} {c = c} h fits start = record {
  exclusive = omega (arith, h, total-const (λ t. in_lock t.at) n ((first C 0 0 c).threads 0) refl);
  number = omega (arith, total-const done n ((first C 0 0 c).threads 0) refl);
  numbers = rw (total-const done n ((first C 0 0 c).threads 0) refl) refl;
  each = λ j lj. ground arith;
}
Reach-IsGood C h fits (later r (rounds i lt e)) =
    rounds-IsGood C fits (Reach-IsGood C h fits r) i lt e
Reach-IsGood C h fits (later {s} r (opens q)) =
    let g = Reach-IsGood C h fits r in
    record {
      exclusive = omega (arith, g.exclusive, q, C.releases s.mem.lock);
      number = g.number;
      numbers = g.numbers;
      each = λ j lj. record {
        read = (g.each j lj).read;
        at_most = (g.each j lj).at_most;
        end = (g.each j lj).end;
      };
    }
