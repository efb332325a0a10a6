-- ===== src/Mutex/ProdCons6/Safety.antt =====
-- What prodcons6.c promises.
use unpvol.Base.{
  ℕ, ◌<◌, ◌≤◌, ◌≡◌, ◌⊎◌, inl, inr, refl, arith, total, total-zero, total-pos, total_mono, le-total,
  dec_lt, ap, some,
}
use unpvol.Mutex.ProdCons6.Defs.{
  Put, p_returned, c_returned, Thread, Produced, Consumed, produce, consume, System, Reach,
}
use unpvol.Mutex.ProdCons6.Counts.{tally, in_put, in_ready, unready, uncounted, ended}
use unpvol.Mutex.ProdCons6.Items.{Reach-IsGood, count_of}
use unpvol.Mutex.ProdCons6.Blocked.{
  moves, wants_put, wants_ready, PutGoes, moves-PutGoes, wants_put-PutGoes, wants_ready-PutGoes,
  GetBlocked, get_goes, ended_of_quiet,
}

-- In a reachable state of prodcons6 the consumer has printed no error, every item below `nput`
-- stands in its own place of `buff`, the consumer is not ahead of the producers and those not of
-- `nitems`.
put_in_place :
    {nitems n : ℕ} {s : System}
    → Reach nitems n s
    → (s.c.errors ≡ 0)
      × ((j : ℕ) → j < s.mem.nput → s.mem.buff j ≡ j)
      × (s.c.i ≤ s.mem.nput)
      × (s.mem.nput ≤ nitems)
put_in_place r = (
  (Reach-IsGood r).holds.no_errors,
  (Reach-IsGood r).holds.window,
  omega (arith, (Reach-IsGood r).sound.ready),
  omega (arith, (Reach-IsGood r).sound.room),
)

all_returned :
    (w : Put → ℕ) (n : ℕ) (f : ℕ → Thread)
    → w p_returned ≡ 0
    → ((i : ℕ) → i < n → (f i).at ≡ p_returned)
    → total (λ t. w t.at) n f ≡ 0
all_returned w n f z h = total-zero (λ t. w t.at) n f (λ j lt. rw (h j lt) z)

-- When in a reachable state of prodcons6 all producers have returned and there is one at least,
-- `nitems` items have been put and the producers' own counts add up to `nitems`; once the consumer
-- has returned too it has taken them all.
counts_add_up :
    {nitems n : ℕ} {s : System}
    → Reach nitems n s
    → 0 < n
    → ((i : ℕ) → i < n → (s.threads i).at ≡ p_returned)
    → (s.mem.nput ≡ nitems)
      × (total count_of n s.threads ≡ nitems)
      × (s.c.at ≡ c_returned → (s.c.i ≡ nitems) × (s.mem.nready ≡ 0))
unfolding tally
counts_add_up {nitems} {n} {s} r hn h = (
  put,
  omega (arith, put, (Reach-IsGood r).counts, all_returned uncounted n s.threads refl h),
  λ q. finished q put,
)
  where
    one_ended : 0 < (tally n s.threads).n_ended
    one_ended = omega (arith, ap ended (h 0 hn), le-total (λ t. ended t.at) n s.threads 0 hn)

    put : s.mem.nput ≡ nitems
    put = omega (arith, one_ended, (Reach-IsGood r).sound.all_put, (Reach-IsGood r).sound.room)

    finished : s.c.at ≡ c_returned → s.mem.nput ≡ nitems → (s.c.i ≡ nitems) × (s.mem.nready ≡ 0)
    finished q e = ground (arith, (Reach-IsGood r).sound)

-- A thread can take a step of its own: a producer, or the consumer. A spurious wakeup is none.
abbrev pub MayGo : (nitems n : ℕ) → System → Type 0
MayGo nitems n s =
    ((i : ℕ) × (i < n) × (l : Produced) × (produce nitems s.mem (s.threads i).at ≡ some l))
    ⊎ ((l : Consumed) × (consume nitems s.mem s.c s.c.at ≡ some l))

module _ {nitems n : ℕ} {s : System} (r : Reach nitems n s) (hn : 0 < n) where
  abbrev sum : (Put → ℕ) → ℕ
  sum w = total (λ t. w t.at) n s.threads

  abbrev Going : Type 0
  Going = MayGo nitems n s

  go : (w : Put → ℕ) → ((p : Put) → 0 < w p → PutGoes nitems s.mem p) → 0 < sum w → Going
  go w h k =
      let (i, lt, q) = total-pos (λ t. w t.at) n s.threads k in
      let goes = h (s.threads i).at q in inl (i, lt, goes.0, goes.1)

  below_moves : (w : Put → ℕ) → ((p : Put) → w p ≤ moves p) → sum w ≤ sum moves
  below_moves w h = omega (
    arith,
    total_mono (λ t. w t.at) (λ t. moves t.at) (λ t. 0) (λ t. omega (arith, h t.at)) n s.threads,
    total-zero {A = Thread} (λ t. 0) n s.threads (λ j lt. refl),
  )

  put_free : sum moves ≡ 0 → 0 < s.mem.put_mutex
  unfolding tally
  put_free a =
      omega (arith, (Reach-IsGood r).sound.put_held, below_moves in_put (λ p. ground arith))

  all_done :
      sum moves ≡ 0
      → sum wants_put ≡ 0
      → sum wants_ready ≡ 0
      → (i : ℕ) → i < n
      → (s.threads i).at ≡ p_returned
  all_done a b d i lt =
      ended_of_quiet (s.threads i).at (omega (arith, le-total (λ t. moves t.at) n s.threads i lt))
        (omega (arith, le-total (λ t. wants_put t.at) n s.threads i lt))
        (omega (arith, le-total (λ t. wants_ready t.at) n s.threads i lt))

  ready_free : sum moves ≡ 0 → GetBlocked s.mem s.c.at → 0 < s.mem.ready_mutex
  unfolding tally
  ready_free a g = ground (arith, (Reach-IsGood r).sound, below_moves in_ready (λ p. ground arith))

  consumer_done :
      sum moves ≡ 0
      → sum wants_put ≡ 0
      → sum wants_ready ≡ 0
      → GetBlocked s.mem s.c.at
      → 0 < s.mem.ready_mutex
      → s.c.at ≡ c_returned
  unfolding tally
  consumer_done a b d g free = ground (
    arith,
    (Reach-IsGood r).sound,
    counts_add_up r hn (all_done a b d),
    all_returned unready n s.threads refl (all_done a b d),
  )

  -- In a reachable state of prodcons6 with one producer at least some producer or the consumer can take a
  -- step of its own, or all threads have returned.
  some_thread_goes :
      MayGo nitems n s ⊎ (((i : ℕ) → i < n → (s.threads i).at ≡ p_returned) × (s.c.at ≡ c_returned))
  some_thread_goes = elim (dec_lt 0 (sum moves)) [
    | yes x ↦ inl (go moves (moves-PutGoes nitems s.mem) x)
    | no x ↦ elim (dec_lt 0 (sum wants_put)) [
      | yes y ↦
          inl (go wants_put (λ p h. wants_put-PutGoes nitems s.mem p h (put_free (omega arith))) y)
      | no y ↦ elim (get_goes nitems s.mem s.c s.c.at) [
        | inl x ↦ inl (inr x)
        | inr g ↦ elim (dec_lt 0 (sum wants_ready)) [
          | yes z ↦ inl (
              go wants_ready
                (λ p h. wants_ready-PutGoes nitems s.mem p h (ready_free (omega arith) g)) z)
          | no z ↦ inr (
            all_done (omega arith) (omega arith) (omega arith),
            consumer_done (omega arith) (omega arith) (omega arith) g (ready_free (omega arith) g),
          )
        ]
      ]
    ]
  ]

-- In a reachable state of prodcons6 the consumer has printed no error, every item below `nput`
-- stands in its own place of `buff`, the consumer is not ahead of the producers and those not of
-- `nitems`. When all producers have returned and there is one at least, `nitems` items have been put
-- and the producers' own counts add up to `nitems`; once the consumer has returned too it has taken
-- them all.
items_in_place :
    {nitems n : ℕ} {s : System}
    → Reach nitems n s
    → ((s.c.errors ≡ 0)
        × ((j : ℕ) → j < s.mem.nput → s.mem.buff j ≡ j)
        × (s.c.i ≤ s.mem.nput)
        × (s.mem.nput ≤ nitems))
      × (0 < n
          → ((i : ℕ) → i < n → (s.threads i).at ≡ p_returned)
          → (s.mem.nput ≡ nitems)
            × (total count_of n s.threads ≡ nitems)
            × (s.c.at ≡ c_returned → (s.c.i ≡ nitems) × (s.mem.nready ≡ 0)))
items_in_place r = (put_in_place r, counts_add_up r)

-- In a reachable state of prodcons6 with one producer at least: some producer, or the consumer where it is
-- not asleep, can take a step of its own (a spurious wakeup is none), or all threads have returned;
-- the consumer has printed no error, every item below `nput` stands in its own place of `buff`, the
-- consumer is not ahead of the producers and those not of `nitems`; and when all producers have
-- returned, `nitems` items have been put and the producers' own counts add up to `nitems`; once the
-- consumer has returned too it has taken them all.
pub no_wakeup_lost :
    {nitems n : ℕ} {s : System}
    → Reach nitems n s
    → 0 < n
    → (MayGo nitems n s
        ⊎ (((i : ℕ) → i < n → (s.threads i).at ≡ p_returned) × (s.c.at ≡ c_returned)))
      × ((s.c.errors ≡ 0)
          × ((j : ℕ) → j < s.mem.nput → s.mem.buff j ≡ j)
          × (s.c.i ≤ s.mem.nput)
          × (s.mem.nput ≤ nitems))
      × (((i : ℕ) → i < n → (s.threads i).at ≡ p_returned)
          → (s.mem.nput ≡ nitems)
            × (total count_of n s.threads ≡ nitems)
            × (s.c.at ≡ c_returned → (s.c.i ≡ nitems) × (s.mem.nready ≡ 0)))
no_wakeup_lost r hn =
    let (places, counts) = items_in_place r in (some_thread_goes r hn, places, counts hn)
