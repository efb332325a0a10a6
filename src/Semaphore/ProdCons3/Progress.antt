-- ===== src/Semaphore/ProdCons3/Progress.antt =====
-- No thread of prodcons3.c over semaphores waits for good.
use unpvol.Base.{
  ℕ, ◌%◌, ◌+◌, ◌-◌, ◌<◌, ◌≤◌, ◌≡◌, ◌⊎◌, inl, inr, refl, arith, total, total-pos, total_mono,
  le-total, some, dec_lt,
}
use unpvol.Semaphore.ProdCons3.Defs.{
  nbuff, Put, p_wait_empty, p_wait_mutex, p_test, p_exit_empty, p_exit_mutex, p_store, p_nput,
  p_nputval, p_post_mutex, p_post_stored, p_count, p_returned, Get, c_head, c_wait_stored,
  c_wait_mutex, c_check, c_post_mutex, c_post_empty, c_returned, Shared, Produced, Consumer,
  Consumed, produce, consume, System, Step, produces, consumes, Reach,
}
use unpvol.Semaphore.ProdCons3.Counts.{tally, in_mutex, has_empty, owes_stored}
use unpvol.Semaphore.ProdCons3.Good.{Reach-IsGood, count_of}
use unpvol.Semaphore.ProdCons3.Safety.{many_fill_ring, all_returned, one_ended}

-- A producer that waits for nothing; one that wants a slot; one that wants the mutex.
abbrev moves : Put → ℕ
moves p_wait_empty = 0
moves p_wait_mutex = 0
moves p_returned = 0
moves _ = 1

abbrev wants_empty : Put → ℕ
wants_empty p_wait_empty = 1
wants_empty _ = 0

abbrev wants_mutex : Put → ℕ
wants_mutex p_wait_mutex = 1
wants_mutex _ = 0

abbrev PutGoes : ℕ → Shared → Put → Type 0
PutGoes nitems m p = (l : Produced) × (produce nitems m p ≡ some l)

module _ (nitems : ℕ) (m : Shared) where
  moves-PutGoes : (p : Put) → 0 < moves p → PutGoes nitems m p
  unfolding produce
  moves-PutGoes p_test h = (_, refl)
  moves-PutGoes p_exit_empty h = (_, refl)
  moves-PutGoes p_exit_mutex h = (_, refl)
  moves-PutGoes p_store h = (_, refl)
  moves-PutGoes p_nput h = (_, refl)
  moves-PutGoes p_nputval h = (_, refl)
  moves-PutGoes p_post_mutex h = (_, refl)
  moves-PutGoes p_post_stored h = (_, refl)
  moves-PutGoes p_count h = (_, refl)
  moves-PutGoes _ h = absurd (omega arith)

  wants_empty-PutGoes : (p : Put) → 0 < wants_empty p → 0 < m.nempty → PutGoes nitems m p
  unfolding produce
  wants_empty-PutGoes p_wait_empty h k = (
    record { mem = record m { nempty = m.nempty - 1 }; at = p_wait_mutex; counted = 0 },
    ground arith,
  )
  wants_empty-PutGoes _ h k = absurd (omega arith)

  wants_mutex-PutGoes : (p : Put) → 0 < wants_mutex p → 0 < m.mutex → PutGoes nitems m p
  unfolding produce
  wants_mutex-PutGoes p_wait_mutex h k =
      (record { mem = record m { mutex = m.mutex - 1 }; at = p_test; counted = 0 }, ground arith)
  wants_mutex-PutGoes _ h k = absurd (omega arith)

-- Where the consumer stands still: at a semaphore of value 0, or returned.
abbrev GetBlocked : Shared → Get → Type 0
GetBlocked m c_wait_stored = m.nstored ≡ 0
GetBlocked m c_wait_mutex = m.mutex ≡ 0
GetBlocked m c_returned = Unit
GetBlocked m _ = ⊥

get_goes :
    (nitems : ℕ) (m : Shared) (c : Consumer) (g : Get)
    → ((l : Consumed) × (consume nitems m c g ≡ some l)) ⊎ GetBlocked m g
unfolding consume
get_goes nitems m c c_head = inl (_, refl)
get_goes nitems m c c_check = inl (_, refl)
get_goes nitems m c c_post_mutex = inl (_, refl)
get_goes nitems m c c_post_empty = inl (_, refl)
get_goes nitems m c c_returned = inr tt
get_goes nitems m c c_wait_stored = elim (dec_lt 0 m.nstored) [
  | yes h ↦ inl (
    record { mem = record m { nstored = m.nstored - 1 }; thread = record c { at = c_wait_mutex } },
    ground arith,
  )
  | no h ↦ inr (omega arith)
]
get_goes nitems m c c_wait_mutex = elim (dec_lt 0 m.mutex) [
  | yes h ↦ inl (
    record { mem = record m { mutex = m.mutex - 1 }; thread = record c { at = c_check } },
    ground arith,
  )
  | no h ↦ inr (omega arith)
]

ended_of_quiet : (p : Put) → moves p ≡ 0 → wants_empty p ≡ 0 → wants_mutex p ≡ 0 → p ≡ p_returned
ended_of_quiet p a b d = grind arith

module _ {nitems n : ℕ} {s : System} (r : Reach nitems n s) (hn : 0 < n) where
  abbrev sum : (Put → ℕ) → ℕ
  sum w = total (λ t. w t.at) n s.threads

  abbrev Going : Type 0
  Going = (t : System) × Step nitems n s t

  go : (w : Put → ℕ) → ((p : Put) → 0 < w p → PutGoes nitems s.mem p) → 0 < sum w → Going
  go w h k =
      let (i, lt, q) = total-pos (λ t. w t.at) n s.threads k in
      (_, produces i lt (h (s.threads i).at q).1)

  below_sum : (w u v : Put → ℕ) → ((p : Put) → w p ≤ u p + v p) → sum w ≤ sum u + sum v
  below_sum w u v h = total_mono (λ t. w t.at) (λ t. u t.at) (λ t. v t.at) (λ t. h t.at) n s.threads

  mutex_free : sum moves ≡ 0 → GetBlocked s.mem s.c.at → 0 < s.mem.mutex
  unfolding tally
  mutex_free a g =
      ground (
        arith,
        (Reach-IsGood r).sound.exclusive,
        below_sum in_mutex moves moves (λ p. ground arith),
      )

  all_done :
      sum moves ≡ 0
      → sum wants_empty ≡ 0
      → sum wants_mutex ≡ 0
      → (i : ℕ) → i < n
      → (s.threads i).at ≡ p_returned
  all_done a b d i lt =
      ended_of_quiet (s.threads i).at (omega (arith, le-total (λ t. moves t.at) n s.threads i lt))
        (omega (arith, le-total (λ t. wants_empty t.at) n s.threads i lt))
        (omega (arith, le-total (λ t. wants_mutex t.at) n s.threads i lt))

  -- With nobody else to go on, a producer that waits for a slot has one.
  slot_free :
      sum moves ≡ 0
      → sum wants_mutex ≡ 0
      → GetBlocked s.mem s.c.at
      → 0 < s.mem.mutex
      → 0 < s.mem.nempty
  unfolding tally
  slot_free a d g free = ground (
    arith,
    (Reach-IsGood r).sound,
    below_sum has_empty moves wants_mutex (λ p. ground arith),
    below_sum owes_stored moves moves (λ p. ground arith),
  )

  consumer_done :
      ((i : ℕ) → i < n → (s.threads i).at ≡ p_returned)
      → GetBlocked s.mem s.c.at
      → 0 < s.mem.mutex
      → s.c.at ≡ c_returned
  unfolding tally
  consumer_done all g free = ground (
    arith,
    (Reach-IsGood r).sound,
    one_ended n s.threads hn all,
    all_returned owes_stored n s.threads refl all,
  )

  -- In a reachable state of prodcons3 over semaphores with one producer at least some thread can
  -- take a step, or all threads have returned.
  some_thread_goes :
      ((t : System) × Step nitems n s t)
      ⊎ (((i : ℕ) → i < n → (s.threads i).at ≡ p_returned) × (s.c.at ≡ c_returned))
  some_thread_goes = elim (get_goes nitems s.mem s.c s.c.at) [
    | inl (l, e) ↦ inl (_, consumes e)
    | inr g ↦ elim (dec_lt 0 (sum moves)) [
      | yes x ↦ inl (go moves (moves-PutGoes nitems s.mem) x)
      | no x ↦ elim (dec_lt 0 (sum wants_mutex)) [
        | yes y ↦ inl (
            go wants_mutex
              (λ p h. wants_mutex-PutGoes nitems s.mem p h (mutex_free (omega arith) g)) y)
        | no y ↦ elim (dec_lt 0 (sum wants_empty)) [
          | yes z ↦ inl (
              go wants_empty
                (λ p h.
                  wants_empty-PutGoes nitems s.mem p h
                    (slot_free (omega arith) (omega arith) g (mutex_free (omega arith) g)))
                z)
          | no z ↦ inr (
            all_done (omega arith) (omega arith) (omega arith),
            consumer_done (all_done (omega arith) (omega arith) (omega arith)) g
                (mutex_free (omega arith) g),
          )
        ]
      ]
    ]
  ]

-- In a reachable state of prodcons3 over semaphores with one producer at least: at most NBUFF items
-- are put and not given back, item j of them stands in slot j % NBUFF with the value j, and the
-- consumer has printed no error; some thread can take a step, or all threads have returned; and when
-- all have returned, `nitems` items have been put and taken, the producers' own counts add up to
-- `nitems`, the mutex is free, and all slots are empty.
pub many_keep_moving :
    {nitems n : ℕ} {s : System}
    → Reach nitems n s
    → 0 < n
    → ((s.mem.nput ≤ s.c.i + nbuff)
        × ((j : ℕ) → s.c.i ≤ j → j < s.mem.nput → s.mem.buff (j % nbuff) ≡ j)
        × (s.c.errors ≡ 0))
      × (((t : System) × Step nitems n s t)
          ⊎ (((i : ℕ) → i < n → (s.threads i).at ≡ p_returned) × (s.c.at ≡ c_returned)))
      × (((i : ℕ) → i < n → (s.threads i).at ≡ p_returned)
          → s.c.at ≡ c_returned
          → (s.mem.nput ≡ nitems)
            × (s.c.i ≡ nitems)
            × (total count_of n s.threads ≡ nitems)
            × (s.mem.mutex ≡ 1)
            × (s.mem.nempty ≡ nbuff))
many_keep_moving r hn =
    let (ring, taken) = many_fill_ring r in (ring, some_thread_goes r hn, taken hn)
