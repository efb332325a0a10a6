-- ===== src/Semaphore/ProdCons4/Progress.antt =====
-- prodcons4.c cannot deadlock.
use unpvol.Base.{
  ℕ, ◌+◌, ◌<◌, ◌≤◌, ◌≡◌, ◌≢◌, inl, inr, refl, arith, true, false, total, total-pos, total-zero,
  le-total, total_mono, lt→ltb, le→not_ltb, dec_lt, ◌∙◌,
}
use unpvol.Semaphore.ProdCons4.Defs.{
  Pc, p_returned, c_returned, Shared, Thread, System, Step, produces, consumes, Reach,
}
use unpvol.Semaphore.ProdCons4.Counts.{
  tally, in_mutex, left, c_ended, has_empty, owes_empty, owes_stored, has_stored,
}
use unpvol.Semaphore.ProdCons4.Invariant.{IsSound}
use unpvol.Semaphore.ProdCons4.Good.{Reach-IsGood, is_producer}
use unpvol.Semaphore.ProdCons4.Blocked.{
  moves, wants_mutex, wants_empty, wants_stored, Goes, moves-Goes, wants_mutex-Goes,
  wants_empty-Goes, wants_stored-Goes,
}

-- The classes of the invariant hold only threads that move or want the mutex.
module _ (n : ℕ) (f : ℕ → Thread) where
  abbrev some_of : (Pc → ℕ) → ℕ
  some_of w = total (λ t. w t.at) n f

  quiet :
      some_of moves ≡ 0
      → some_of wants_mutex ≡ 0
      → ((tally n f).n_in_mutex ≡ 0)
        × ((tally n f).n_has_empty ≡ 0)
        × ((tally n f).n_owes_empty ≡ 0)
        × ((tally n f).n_owes_stored ≡ 0)
        × ((tally n f).n_has_stored ≡ 0)
  unfolding tally
  quiet a b = (
    omega (arith, all in_mutex (λ p. ground arith)),
    omega (arith, all has_empty (λ p. ground arith)),
    omega (arith, all owes_empty (λ p. ground arith)),
    omega (arith, all owes_stored (λ p. ground arith)),
    omega (arith, all has_stored (λ p. ground arith)),
  )
    where
      all :
          (w : Pc → ℕ)
          → ((p : Pc) → w p ≤ moves p + wants_mutex p)
          → some_of w ≤ some_of moves + some_of wants_mutex
      all w h = total_mono (λ t. w t.at) (λ t. moves t.at) (λ t. wants_mutex t.at) (λ t. h t.at) n f

  one_of_class :
      (nitems : ℕ) (m : Shared) (w : Pc → ℕ)
      → ((p : Pc) → 0 < w p → Goes nitems m p)
      → 0 < some_of w
      → (i : ℕ) × (i < n) × Goes nitems m (f i).at
  one_of_class nitems m w h k =
      let (i, lt, q) = total-pos (λ t. w t.at) n f k in (i, lt, h (f i).at q)

abbrev Going : (nitems n : ℕ) → System → Type 0
Going nitems n s = (t : System) × Step nitems n s t

Goes-Going :
    (nitems n : ℕ) (s : System)
    → (i : ℕ) × (i < n) × Goes nitems s.mem (s.threads i).at
    → Going nitems n s
Goes-Going nitems n s (i, lt, inl (l, e)) = (_, produces i lt e)
Goes-Going nitems n s (i, lt, inr (l, e)) = (_, consumes i lt e)

producer_done :
    (p : Pc)
    → is_producer p ≡ true
    → moves p ≡ 0
    → wants_mutex p ≡ 0
    → wants_empty p ≡ 0
    → left p ≡ 1
producer_done p e a b c = ground arith

consumer_done :
    (p : Pc)
    → is_producer p ≡ false
    → moves p ≡ 0
    → wants_mutex p ≡ 0
    → wants_stored p ≡ 0
    → c_ended p ≡ 1
consumer_done p e a b c = ground arith

unreturned :
    (p : Pc)
    → p ≢ p_returned
    → p ≢ c_returned
    → 1 ≤ moves p + wants_mutex p + wants_empty p + wants_stored p
unreturned p a b = grind arith

-- A reachable state, with a producer and a consumer at least.
module _ {nitems np nc : ℕ} {s : System} (r : Reach nitems np nc s) (hp : 0 < np)
    (hc : 0 < nc) where
  abbrev n : ℕ
  n = np + nc

  abbrev sum : (Pc → ℕ) → ℕ
  sum w = total (λ t. w t.at) n s.threads

  abbrev sound : IsSound nitems s.mem (tally n s.threads)
  sound = (Reach-IsGood r).sound

  mutex_free : sum moves ≡ 0 → 0 < s.mem.mutex
  unfolding tally
  mutex_free a = omega (
    arith,
    sound.exclusive,
    total_mono (λ t. in_mutex t.at) (λ t. moves t.at) (λ t. 0) (λ t. ground arith) n s.threads,
    total-zero {A = Thread} (λ t. 0) n s.threads (λ j lt. refl),
  )

  consumers_ended : sum moves ≡ 0 → sum wants_mutex ≡ 0 → sum wants_stored ≡ 0 → nitems ≤ s.mem.nget
  unfolding tally
  consumers_ended a b d = sound.all_got (
      omega (
        arith,
        consumer_done (s.threads np).at ((Reach-IsGood r).roles np ∙ le→not_ltb np np (omega arith))
            (omega (arith, le-total (λ t. moves t.at) n s.threads np (omega arith)))
            (omega (arith, le-total (λ t. wants_mutex t.at) n s.threads np (omega arith)))
            (omega (arith, le-total (λ t. wants_stored t.at) n s.threads np (omega arith))),
        le-total (λ t. c_ended t.at) n s.threads np (omega arith),
      ))

  producers_left :
      sum moves ≡ 0 → sum wants_mutex ≡ 0 → sum wants_empty ≡ 0 → 0 < (tally n s.threads).n_left
  unfolding tally
  producers_left a b d = omega (
    arith,
    producer_done (s.threads 0).at ((Reach-IsGood r).roles 0 ∙ lt→ltb 0 np hp)
        (omega (arith, le-total (λ t. moves t.at) n s.threads 0 (omega arith)))
        (omega (arith, le-total (λ t. wants_mutex t.at) n s.threads 0 (omega arith)))
        (omega (arith, le-total (λ t. wants_empty t.at) n s.threads 0 (omega arith))),
    le-total (λ t. left t.at) n s.threads 0 (omega arith),
  )

  -- A producer that finds no slot leaves an item for a consumer that waits, and a consumer that
  -- finds no item leaves a slot for a producer that waits.
  item_for_consumer :
      sum moves ≡ 0
      → sum wants_mutex ≡ 0
      → s.mem.nempty ≡ 0
      → (0 < s.mem.nstored) × (0 < sum wants_stored)
  item_for_consumer a b c =
      let q = quiet n s.threads a b in
      (
        omega (arith, sound),
        elim (dec_lt 0 (sum wants_stored)) [
          | yes k ↦ k
          | no k ↦ absurd (omega (arith, sound, q, consumers_ended a b (omega arith)))
        ],
      )

  slot_for_producer :
      sum moves ≡ 0
      → sum wants_mutex ≡ 0
      → s.mem.nstored ≡ 0
      → (0 < s.mem.nempty) × (0 < sum wants_empty)
  slot_for_producer a b c =
      let q = quiet n s.threads a b in
      (
        omega (arith, sound),
        elim (dec_lt 0 (sum wants_empty)) [
          | yes k ↦ k
          | no k ↦
              let z = producers_left a b (omega arith) in
              let y = sound.all_put (omega arith) in absurd (omega (arith, sound, q, z, y))
        ],
      )

  go : (w : Pc → ℕ) → ((p : Pc) → 0 < w p → Goes nitems s.mem p) → 0 < sum w → Going nitems n s
  go w h k = Goes-Going nitems n s (one_of_class n s.threads nitems s.mem w h k)

  wanting :
      sum moves ≡ 0
      → sum wants_mutex ≡ 0
      → 0 < sum wants_empty + sum wants_stored
      → Going nitems n s
  wanting a b h = elim (dec_lt 0 s.mem.nempty) [
    | yes x ↦ elim (dec_lt 0 s.mem.nstored) [
      | yes y ↦ elim (dec_lt 0 (sum wants_empty)) [
        | yes k ↦ go wants_empty (λ p g. wants_empty-Goes nitems s.mem p g x) k
        | no k ↦ go wants_stored (λ p g. wants_stored-Goes nitems s.mem p g y) (omega arith)
      ]
      | no y ↦
          let z = slot_for_producer a b (omega arith) in
          go wants_empty (λ p g. wants_empty-Goes nitems s.mem p g x) z.1
    ]
    | no x ↦
        let z = item_for_consumer a b (omega arith) in
        go wants_stored (λ p g. wants_stored-Goes nitems s.mem p g z.0) z.1
  ]

  -- In a reachable state of prodcons4, with a producer and a consumer at least, while some thread
  -- has not returned some thread can take a step.
  pub items_keep_moving :
      (i : ℕ)
      → i < np + nc
      → (s.threads i).at ≢ p_returned
      → (s.threads i).at ≢ c_returned
      → (t : System) × Step nitems (np + nc) s t
  items_keep_moving i lt a b = elim (dec_lt 0 (sum moves)) [
    | yes x ↦ go moves (moves-Goes nitems s.mem) x
    | no x ↦ elim (dec_lt 0 (sum wants_mutex)) [
      | yes y ↦
          go wants_mutex (λ p g. wants_mutex-Goes nitems s.mem p g (mutex_free (omega arith))) y
      | no y ↦ wanting (omega arith) (omega arith) (
          omega (
            arith,
            unreturned (s.threads i).at a b,
            le-total (λ t. moves t.at) n s.threads i lt,
            le-total (λ t. wants_mutex t.at) n s.threads i lt,
            le-total (λ t. wants_empty t.at) n s.threads i lt,
            le-total (λ t. wants_stored t.at) n s.threads i lt,
          ))
    ]
  ]
