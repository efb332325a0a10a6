-- ===== src/Semaphore/ProdCons4/Safety.antt =====
-- What prodcons4.c promises: exclusion, a ring that never overflows, items in order, full counts.
use unpvol.Base.{
  ℕ, ◌+◌, ◌%◌, ◌<◌, ◌≤◌, ◌≡◌, ◌⊎◌, inl, inr, refl, arith, true, false, total, total-zero, le-total,
  le-total_two, ltb, lt→ltb, le→not_ltb, ◌∙◌, ℕ_discrete,
}
use unpvol.Semaphore.ProdCons4.Defs.{Pc, p_returned, c_returned, nbuff, Thread, System, Reach}
use unpvol.Semaphore.ProdCons4.Counts.{
  tally, in_mutex, left, c_ended, p_uncounted, c_uncounted, has_empty, owes_empty,
}
use unpvol.Semaphore.ProdCons4.Good.{Reach-IsGood, is_producer, put_by, got_by}

-- In a reachable state at most one thread stands between `sem_wait(&shared.mutex)` and the
-- `sem_post` of it.
pub mutex_excludes :
    {nitems np nc : ℕ} {s : System}
    → Reach nitems np nc s
    → (i j : ℕ) → i < np + nc
    → j < np + nc
    → in_mutex (s.threads i).at ≡ 1
    → in_mutex (s.threads j).at ≡ 1
    → i ≡ j
unfolding tally
mutex_excludes {np} {nc} {s} r i j li lj hi hj = elim (ℕ_discrete i j) [
  | yes e ↦ e
  | no ne ↦ absurd (
      omega (
        arith,
        (Reach-IsGood r).sound.exclusive,
        le-total_two (λ t. in_mutex t.at) (np + nc) s.threads i j li lj ne,
      ))
]

-- In a reachable state the ring holds between 0 and NBUFF items that are put and not got, item j
-- in slot j % NBUFF with the value j, and no consumer has printed an error.
pub ring_holds_items :
    {nitems np nc : ℕ} {s : System}
    → Reach nitems np nc s
    → (s.mem.nput ≤ s.mem.nget + nbuff)
      × ((j : ℕ) → s.mem.nget ≤ j → j < s.mem.nput → s.mem.buff (j % nbuff) ≡ j)
      × (s.mem.errors ≡ 0)
ring_holds_items r = (
  omega (arith, (Reach-IsGood r).sound.slots),
  (Reach-IsGood r).holds.window,
  (Reach-IsGood r).holds.no_errors,
)

abbrev pub HasReturned : Pc → Type 0
HasReturned p = (p ≡ p_returned) ⊎ (p ≡ c_returned)

returned_class :
    (w : Pc → ℕ) (n : ℕ) (f : ℕ → Thread)
    → w p_returned ≡ 0
    → w c_returned ≡ 0
    → ((i : ℕ) → i < n → HasReturned (f i).at)
    → total (λ t. w t.at) n f ≡ 0
returned_class w n f hp hc all = total-zero (λ t. w t.at) n f (λ j lt. one (f j).at (all j lt))
  where
    one : (p : Pc) → HasReturned p → w p ≡ 0
    one p (inl e) = rw e hp
    one p (inr e) = rw e hc

producer_left : (p : Pc) → HasReturned p → is_producer p ≡ true → left p ≡ 1
producer_left p h e = ground arith

consumer_ended : (p : Pc) → HasReturned p → is_producer p ≡ false → c_ended p ≡ 1
consumer_ended p h e = ground arith

module _ {nitems np nc : ℕ} {s : System} (r : Reach nitems np nc s) (hp : 0 < np) (hc : 0 < nc)
    (all : (i : ℕ) → i < np + nc → HasReturned (s.threads i).at) where
  some_left : 0 < (tally (np + nc) s.threads).n_left
  unfolding tally
  some_left = omega (
    arith,
    producer_left (s.threads 0).at (all 0 (omega arith)) (first ((Reach-IsGood r).roles 0)),
    le-total (λ t. left t.at) (np + nc) s.threads 0 (omega arith),
  )
    where
      first : is_producer (s.threads 0).at ≡ ltb 0 np → is_producer (s.threads 0).at ≡ true
      first e = e ∙ lt→ltb 0 np hp

  some_ended : 0 < (tally (np + nc) s.threads).n_c_ended
  unfolding tally
  some_ended = omega (
    arith,
    consumer_ended (s.threads np).at (all np (omega arith))
        ((Reach-IsGood r).roles np ∙ le→not_ltb np np (omega arith)),
    le-total (λ t. c_ended t.at) (np + nc) s.threads np (omega arith),
  )

  gone :
      (w : Pc → ℕ)
      → w p_returned ≡ 0
      → w c_returned ≡ 0
      → total (λ t. w t.at) (np + nc) s.threads ≡ 0
  gone w a b = returned_class w (np + nc) s.threads a b all

  -- When in a reachable state, with a producer and a consumer at least, all threads have returned:
  -- `nitems` items have been put and got, the producers' own counts add up to `nitems` and so do
  -- the consumers', all slots are empty again, the mutex is free and no error was printed.
  pub all_items_pass :
      (s.mem.nput ≡ nitems)
      × (s.mem.nget ≡ nitems)
      × (total put_by (np + nc) s.threads ≡ nitems)
      × (total got_by (np + nc) s.threads ≡ nitems)
      × (s.mem.nempty ≡ nbuff)
      × (s.mem.mutex ≡ 1)
      × (s.mem.errors ≡ 0)
  unfolding tally
  all_items_pass = (
    put,
    got,
    omega (arith, put, (Reach-IsGood r).counted.puts, gone p_uncounted refl refl),
    omega (arith, got, (Reach-IsGood r).counted.gets, gone c_uncounted refl refl),
    omega (
      arith,
      put,
      got,
      (Reach-IsGood r).sound.slots,
      gone has_empty refl refl,
      gone owes_empty refl refl,
    ),
    omega (arith, (Reach-IsGood r).sound.exclusive, gone in_mutex refl refl),
    (Reach-IsGood r).holds.no_errors,
  )
    where
      put : s.mem.nput ≡ nitems
      put = omega (arith, some_left, (Reach-IsGood r).sound.all_put, (Reach-IsGood r).sound.room)

      got : s.mem.nget ≡ nitems
      got = omega (arith, some_ended, (Reach-IsGood r).sound.all_got, (Reach-IsGood r).sound.more)
