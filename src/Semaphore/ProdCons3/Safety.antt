-- ===== src/Semaphore/ProdCons3/Safety.antt =====
-- What prodcons3.c over semaphores promises of its items.
use unpvol.Base.{ℕ, ◌+◌, ◌%◌, ◌<◌, ◌≤◌, ◌≡◌, refl, arith, total, total-zero, le-total, ap}
use unpvol.Semaphore.ProdCons3.Defs.{Put, p_returned, c_returned, nbuff, Thread, System, Reach}
use unpvol.Semaphore.ProdCons3.Counts.{tally, in_mutex, has_empty, uncounted, ended}
use unpvol.Semaphore.ProdCons3.Good.{Reach-IsGood, count_of}

-- In a reachable state of prodcons3 over semaphores at most NBUFF items are put and not given back,
-- item j of them stands in slot j % NBUFF with the value j, and the consumer has printed no error.
ring_in_place :
    {nitems n : ℕ} {s : System}
    → Reach nitems n s
    → (s.mem.nput ≤ s.c.i + nbuff)
      × ((j : ℕ) → s.c.i ≤ j → j < s.mem.nput → s.mem.buff (j % nbuff) ≡ j)
      × (s.c.errors ≡ 0)
ring_in_place r = (
  omega (arith, (Reach-IsGood r).sound.slots),
  (Reach-IsGood r).holds.window,
  (Reach-IsGood r).holds.no_errors,
)

pub all_returned :
    (w : Put → ℕ) (n : ℕ) (f : ℕ → Thread)
    → w p_returned ≡ 0
    → ((i : ℕ) → i < n → (f i).at ≡ p_returned)
    → total (λ t. w t.at) n f ≡ 0
all_returned w n f z h = total-zero (λ t. w t.at) n f (λ j lt. rw (h j lt) z)

pub one_ended :
    (n : ℕ) (f : ℕ → Thread)
    → 0 < n
    → ((i : ℕ) → i < n → (f i).at ≡ p_returned)
    → 0 < (tally n f).n_ended
unfolding tally
one_ended n f hn h = omega (arith, ap ended (h 0 hn), le-total (λ t. ended t.at) n f 0 hn)

-- When in a reachable state of prodcons3 over semaphores all producers, one at least, and the
-- consumer have returned: `nitems` items have been put and taken, the producers' own counts add up
-- to `nitems`, the mutex is free, and all slots are empty.
all_items_taken :
    {nitems n : ℕ} {s : System}
    → Reach nitems n s
    → 0 < n
    → ((i : ℕ) → i < n → (s.threads i).at ≡ p_returned)
    → s.c.at ≡ c_returned
    → (s.mem.nput ≡ nitems)
      × (s.c.i ≡ nitems)
      × (total count_of n s.threads ≡ nitems)
      × (s.mem.mutex ≡ 1)
      × (s.mem.nempty ≡ nbuff)
unfolding tally
all_items_taken {nitems} {n} {s} r hn h q = (
  put,
  got,
  omega (arith, put, (Reach-IsGood r).counts, all_returned uncounted n s.threads refl h),
  ground (arith, (Reach-IsGood r).sound.exclusive, all_returned in_mutex n s.threads refl h),
  omega (arith, put, got, (Reach-IsGood r).sound.slots, all_returned has_empty n s.threads refl h),
)
  where
    put : s.mem.nput ≡ nitems
    put = omega (
      arith,
      one_ended n s.threads hn h,
      (Reach-IsGood r).sound.all_put,
      (Reach-IsGood r).sound.room,
    )

    got : s.c.i ≡ nitems
    got = ground (arith, (Reach-IsGood r).sound)

-- In a reachable state of prodcons3 over semaphores at most NBUFF items are put and not given back,
-- item j of them stands in slot j % NBUFF with the value j, and the consumer has printed no error.
-- When all producers, one at least, and the consumer have returned: `nitems` items have been put and
-- taken, the producers' own counts add up to `nitems`, the mutex is free, and all slots are empty.
pub many_fill_ring :
    {nitems n : ℕ} {s : System}
    → Reach nitems n s
    → ((s.mem.nput ≤ s.c.i + nbuff)
        × ((j : ℕ) → s.c.i ≤ j → j < s.mem.nput → s.mem.buff (j % nbuff) ≡ j)
        × (s.c.errors ≡ 0))
      × (0 < n
          → ((i : ℕ) → i < n → (s.threads i).at ≡ p_returned)
          → s.c.at ≡ c_returned
          → (s.mem.nput ≡ nitems)
            × (s.c.i ≡ nitems)
            × (total count_of n s.threads ≡ nitems)
            × (s.mem.mutex ≡ 1)
            × (s.mem.nempty ≡ nbuff))
many_fill_ring r = (ring_in_place r, all_items_taken r)
