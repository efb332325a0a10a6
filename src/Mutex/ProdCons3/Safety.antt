-- ===== src/Mutex/ProdCons3/Safety.antt =====
-- What prodcons3.c over a mutex promises.
use unpvol.Base.{
  ℕ, ◌<◌, ◌≤◌, ◌≡◌, ◌⊎◌, inl, inr, refl, arith, total, total-zero, le-total, some, ap,
}
use unpvol.Mutex.ProdCons3.Defs.{
  Put, p_returned, Get, c_head, c_lock, c_test, c_unlock_ready, c_unlock_again, c_check, c_returned,
  Consumed, Thread, consume, System, Reach,
}
use unpvol.Mutex.ProdCons3.Counts.{tally, in_mutex, uncounted, ended}
use unpvol.Mutex.ProdCons3.Good.{Reach-IsGood, count_of}

-- In a reachable state of prodcons3 over a mutex the consumer has printed no mismatch, every item
-- below `nput` stands in its own place of `buff`, and the consumer, which does not wait on a
-- condition, is not ahead of the producers, and those not of `nitems`.
put_in_place :
    {nitems n : ℕ} {s : System}
    → Reach nitems n s
    → (s.c.errors ≡ 0)
      × ((j : ℕ) → j < s.mem.nput → s.mem.buff j ≡ j)
      × (s.c.i ≤ s.mem.nput)
      × (s.mem.nput ≤ nitems)
put_in_place r = (
  (Reach-IsGood r).holds.no_errors,
  (Reach-IsGood r).holds.window,
  omega (arith, (Reach-IsGood r).sound.behind),
  omega (arith, (Reach-IsGood r).sound.room),
)

all_returned :
    (w : Put → ℕ) (n : ℕ) (f : ℕ → Thread)
    → w p_returned ≡ 0
    → ((i : ℕ) → i < n → (f i).at ≡ p_returned)
    → total (λ t. w t.at) n f ≡ 0
all_returned w n f z h = total-zero (λ t. w t.at) n f (λ j lt. rw (h j lt) z)

one_ended :
    (n : ℕ) (f : ℕ → Thread)
    → 0 < n
    → ((i : ℕ) → i < n → (f i).at ≡ p_returned)
    → 0 < (tally n f).n_ended
unfolding tally
one_ended n f hn h = omega (arith, ap ended (h 0 hn), le-total (λ t. ended t.at) n f 0 hn)

-- When in a reachable state of prodcons3 over a mutex all producers have returned and there is one
-- at least: `nitems` items have been put, the producers' own counts add up to `nitems`, and the
-- consumer can take a step unless it has returned, having seen every item.
puts_add_up :
    {nitems n : ℕ} {s : System}
    → Reach nitems n s
    → 0 < n
    → ((i : ℕ) → i < n → (s.threads i).at ≡ p_returned)
    → (s.mem.nput ≡ nitems)
      × (total count_of n s.threads ≡ nitems)
      × (((l : Consumed) × (consume nitems s.mem s.c s.c.at ≡ some l))
          ⊎ ((s.c.at ≡ c_returned) × (s.c.i ≡ nitems)))
unfolding tally consume
puts_add_up {nitems} {n} {s} r hn h = (
  put,
  omega (arith, put, (Reach-IsGood r).counts, all_returned uncounted n s.threads refl h),
  goes s.c.at refl,
)
  where
    put : s.mem.nput ≡ nitems
    put = omega (
      arith,
      one_ended n s.threads hn h,
      (Reach-IsGood r).sound.all_put,
      (Reach-IsGood r).sound.room,
    )

    free : s.c.at ≡ c_lock → s.mem.mutex ≡ 1
    free q =
        ground (arith, (Reach-IsGood r).sound.exclusive, all_returned in_mutex n s.threads refl h)

    goes :
        (g : Get)
        → s.c.at ≡ g
        → ((l : Consumed) × (consume nitems s.mem s.c g ≡ some l))
          ⊎ ((g ≡ c_returned) × (s.c.i ≡ nitems))
    goes c_head q = inl (_, refl)
    goes c_lock q = inl (
      record { mem = record s.mem { mutex = 0 }; thread = record s.c { at = c_test } },
      ground (arith, free q),
    )
    goes c_test q = inl (_, refl)
    goes c_unlock_ready q = inl (_, refl)
    goes c_unlock_again q = inl (_, refl)
    goes c_check q = inl (_, refl)
    goes c_returned q = inr (refl, ground (arith, (Reach-IsGood r).sound))

-- In a reachable state of prodcons3 over a mutex the consumer has printed no mismatch, every item
-- below `nput` stands in its own place of `buff`, and the consumer, which does not wait on a
-- condition, is not ahead of the producers, and those not of `nitems`. When all producers have
-- returned and there is one at least: `nitems` items have been put, the producers' own counts add up
-- to `nitems`, and the consumer can take a step unless it has returned, having seen every item.
pub consumer_waits_enough :
    {nitems n : ℕ} {s : System}
    → Reach nitems n s
    → ((s.c.errors ≡ 0)
        × ((j : ℕ) → j < s.mem.nput → s.mem.buff j ≡ j)
        × (s.c.i ≤ s.mem.nput)
        × (s.mem.nput ≤ nitems))
      × (0 < n
          → ((i : ℕ) → i < n → (s.threads i).at ≡ p_returned)
          → (s.mem.nput ≡ nitems)
            × (total count_of n s.threads ≡ nitems)
            × (((l : Consumed) × (consume nitems s.mem s.c s.c.at ≡ some l))
                ⊎ ((s.c.at ≡ c_returned) × (s.c.i ≡ nitems))))
consumer_waits_enough r = (put_in_place r, puts_add_up r)
