-- ===== src/Counter/Result.antt =====
-- What the loop of Counter/Loop comes to, and that it never stands still.
use unpvol.Base.{
  ℕ, zero, suc, ◌+◌, ◌*◌, ◌<◌, ◌≤◌, ◌≡◌, ◌⊎◌, inl, inr, refl, arith, total, total-pos, total_mono,
  le-total, some, dec_lt, ◌∙◌, ap,
}
use unpvol.Counter.Loop.{
  Cell, Pc, at_head, at_acquire, at_load, at_store, at_release, at_return, Thread, Shared, Stepped,
  round, System, Step, rounds, opens, Reach,
}
use unpvol.Counter.Invariant.{in_lock, done, above, IsThread, Reach-IsGood}

total-all :
    {A : Type 0} (w : A → ℕ) (k n : ℕ) (f : ℕ → A)
    → ((j : ℕ) → j < n → w (f j) ≡ k)
    → total w n f ≡ n * k
unfolding total
total-all w k zero f h = omega arith
total-all w k (suc n) f h =
    grind (arith, h n (omega arith), total-all w k n f (λ j lt. h j (omega arith)))

done_all :
    {C : Cell} {nloop : ℕ} {m : Shared C} (t : Thread)
    → IsThread C nloop m t
    → t.at ≡ at_return
    → done t ≡ nloop
done_all t v q = ground (arith, v)

-- All threads have returned.
abbrev pub HaveReturned : (C : Cell) → ℕ → System C → Type 0
HaveReturned C n s = (i : ℕ) → i < n → (s.threads i).at ≡ at_return

module _ (C : Cell) {nloop n lock gate : ℕ} {c : C.Contents} {s : System C} (h : lock + gate ≡ 1)
    (fits : C.load c + n * nloop ≤ C.top) (r : Reach C nloop n lock gate c s) where
  -- Each of the rounds has counted once and found a number of its own.
  pub rounds_add_up :
      HaveReturned C n s
      → (C.load s.mem.contents ≡ C.load c + n * nloop)
        × (s.mem.found ≡ above (C.load c) (n * nloop))
  rounds_add_up all = (
    (Reach-IsGood C h fits r).number ∙ ap (λ k. C.load c + k) sum,
    (Reach-IsGood C h fits r).numbers ∙ ap (above (C.load c)) sum,
  )
    where
      sum : total done n s.threads ≡ n * nloop
      sum =
          total-all done nloop n s.threads
            (λ j lt. done_all (s.threads j) ((Reach-IsGood C h fits r).each j lt) (all j lt))

abbrev moves : Pc → ℕ
moves at_acquire = 0
moves at_return = 0
moves _ = 1

abbrev wants_lock : Pc → ℕ
wants_lock at_acquire = 1
wants_lock _ = 0

abbrev Goes : (C : Cell) → ℕ → Shared C → Thread → Pc → Type 0
Goes C nloop m t p = (l : Stepped C) × (round C nloop m t p ≡ some l)

module _ (C : Cell) (nloop : ℕ) (m : Shared C) (t : Thread) where
  moves-Goes : (p : Pc) → 0 < moves p → Goes C nloop m t p
  unfolding round
  moves-Goes at_head h = (_, refl)
  moves-Goes at_load h = (_, refl)
  moves-Goes at_store h = (_, refl)
  moves-Goes at_release h = (_, refl)
  moves-Goes _ h = absurd (omega arith)

  wants_lock-Goes : (p : Pc) → 0 < wants_lock p → m.lock ≡ 1 → Goes C nloop m t p
  unfolding round
  wants_lock-Goes at_acquire h k = (
    record { mem = record m { lock = 0 }; thread = record t { at = at_load } },
    ground (arith, k, C.acquire_free 0),
  )
  wants_lock-Goes _ h k = absurd (omega arith)

returned_of_quiet : (p : Pc) → moves p ≡ 0 → wants_lock p ≡ 0 → p ≡ at_return
returned_of_quiet p a b = grind arith

module _ (C : Cell) {nloop n lock gate : ℕ} {c : C.Contents} {s : System C} (h : lock + gate ≡ 1)
    (fits : C.load c + n * nloop ≤ C.top) (r : Reach C nloop n lock gate c s) where
  go :
      (w : Pc → ℕ)
      → ((t : Thread) (p : Pc) → 0 < w p → Goes C nloop s.mem t p)
      → 0 < total (λ t. w t.at) n s.threads
      → (t : System C) × Step C nloop n s t
  go w f k =
      let (i, lt, q) = total-pos (λ t. w t.at) n s.threads k in
      (_, rounds i lt (f (s.threads i) (s.threads i).at q).1)

  free : s.mem.gate ≡ 0 → total (λ t. moves t.at) n s.threads ≡ 0 → s.mem.lock ≡ 1
  free a b = omega (
    arith,
    (Reach-IsGood C h fits r).exclusive,
    total_mono (λ t. in_lock t.at) (λ t. moves t.at) (λ t. moves t.at) (λ t. in_lock_moves t.at) n
        s.threads,
  )
    where
      in_lock_moves : (p : Pc) → in_lock p ≤ moves p + moves p
      in_lock_moves p = ground arith

  pub loop_goes_on : ((t : System C) × Step C nloop n s t) ⊎ HaveReturned C n s
  loop_goes_on = elim (dec_lt 0 s.mem.gate) [
    | yes x ↦ inl (_, opens (omega (arith, (Reach-IsGood C h fits r).exclusive)))
    | no x ↦ elim (dec_lt 0 (total (λ t. moves t.at) n s.threads)) [
      | yes y ↦ inl (go moves (moves-Goes C nloop s.mem) y)
      | no y ↦ elim (dec_lt 0 (total (λ t. wants_lock t.at) n s.threads)) [
        | yes z ↦ inl (
            go wants_lock
              (λ t p k. wants_lock-Goes C nloop s.mem t p k (free (omega arith) (omega arith))) z)
        | no z ↦ inr (λ i lt.
            returned_of_quiet (s.threads i).at
              (omega (arith, le-total (λ t. moves t.at) n s.threads i lt))
              (omega (arith, le-total (λ t. wants_lock t.at) n s.threads i lt)))
      ]
    ]
  ]
