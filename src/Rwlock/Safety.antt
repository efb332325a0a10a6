-- ===== src/Rwlock/Safety.antt =====
-- What holds in every reachable state of the threads over one lock.
use unpvol.Base.{
  ℕ, ◌+◌, ◌^◌, ◌<◌, ◌≤◌, ◌≡◌, ◌≢◌, ◌⊎◌, inl, inr, arith, Bool, false, pos, pos_part, neg_part,
  total, le-total, le-total_two, total-pos, zero, suc,
}
use unpvol.Rwlock.System.{
  Pc, sleep_read, sleep_write, woken_write, reading, writing, gone, System, Reach,
}
use unpvol.Rwlock.Counts.{
  tally, is_reading, is_writing, asleep_read, asleep_write, awake_write, is_gone,
}
use unpvol.Rwlock.Invariant.{Reach-IsConsistent}
use unpvol.Rwlock.Wakeup.{Reach-IsAwake}

-- At most one kind of thread each: the seven numbers together are at most `n`.
tally_fits :
    (n : ℕ) (pc : ℕ → Pc)
    → ((tally n pc).readers ≤ n)
      × ((tally n pc).sleep_r + (tally n pc).woken_r ≤ n)
      × ((tally n pc).sleep_w + (tally n pc).woken_w ≤ n)
unfolding tally total
tally_fits zero pc = omega arith
tally_fits (suc n) pc = ground (arith, tally_fits n pc)

-- In a reachable state, while one thread has the write lock no other thread has a lock.
pub mutual_exclusion :
    {may_fail : Bool} {n : ℕ} {s : System}
    → Reach may_fail n s
    → (i j : ℕ) → i < n
    → j < n
    → i ≢ j
    → s.pc i ≡ writing
    → (s.pc j ≢ reading) × (s.pc j ≢ writing)
unfolding tally
mutual_exclusion {n} {s} r i j li lj ne e = (
  λ f. ground (
    arith,
    Reach-IsConsistent r,
    le-total is_writing n s.pc i li,
    le-total is_reading n s.pc j lj,
  ),
  λ f. ground (arith, Reach-IsConsistent r, le-total_two is_writing n s.pc i j li lj ne),
)

awake_write-pos : (p : Pc) → 0 < awake_write p → p ≡ woken_write
awake_write-pos p h = grind arith

woken_writer :
    (n : ℕ) (pc : ℕ → Pc) → 0 < (tally n pc).woken_w → (j : ℕ) × (j < n) × (pc j ≡ woken_write)
unfolding tally
woken_writer n pc h =
    let (j, lt, p) = total-pos awake_write n pc h in (j, lt, awake_write-pos (pc j) p)

writer_asleep-counted :
    (n : ℕ) (pc : ℕ → Pc) (i : ℕ) → i < n → pc i ≡ sleep_write → 0 < (tally n pc).sleep_w
unfolding tally
writer_asleep-counted n pc i lt e = ground (arith, le-total asleep_write n pc i lt)

reader_asleep-counted :
    (n : ℕ) (pc : ℕ → Pc) (i : ℕ) → i < n → pc i ≡ sleep_read → 0 < (tally n pc).sleep_r
unfolding tally
reader_asleep-counted n pc i lt e = ground (arith, le-total asleep_read n pc i lt)

-- Where `pthread_cond_wait` reports no error: in a reachable state with the lock free and some
-- thread asleep on a condition variable of it, some writer has been woken.
pub no_lost_wakeup :
    {n : ℕ} {s : System}
    → Reach false n s
    → s.lock.refcount ≡ pos 0
    → (i : ℕ) → i < n
    → (s.pc i ≡ sleep_write) ⊎ (s.pc i ≡ sleep_read)
    → (j : ℕ) × (j < n) × (s.pc j ≡ woken_write)
no_lost_wakeup {n} {s} r free i lt (inl e) =
    woken_writer n s.pc (ground (arith, Reach-IsAwake r, writer_asleep-counted n s.pc i lt e))
no_lost_wakeup {n} {s} r free i lt (inr e) =
    woken_writer n s.pc (ground (arith, Reach-IsAwake r, reader_asleep-counted n s.pc i lt e))

-- In a reachable state no thread has met the `exit(1)` of `unlock`.
unlock_never_exits :
    {may_fail : Bool} {n : ℕ} {s : System} → Reach may_fail n s → (i : ℕ) → i < n → s.pc i ≢ gone
unfolding tally
unlock_never_exits {n} {s} r i lt e =
    ground (arith, Reach-IsConsistent r, le-total is_gone n s.pc i lt)

-- In a reachable state of `n` threads no thread has met the `exit(1)` of `unlock`, and the three counters of the lock stay within -1 and `n`, the
-- two waiting counts within 0 and `n`, so that with fewer than 2^31 threads no int overflows.
pub counters_fit :
    {may_fail : Bool} {n : ℕ} {s : System}
    → Reach may_fail n s
    → n < 2 ^ 31
    → ((i : ℕ) → i < n → s.pc i ≢ gone)
      × ((pos_part s.lock.refcount < 2 ^ 31)
          × (neg_part s.lock.refcount ≤ 1)
          × (pos_part s.lock.nwaitreaders < 2 ^ 31)
          × (neg_part s.lock.nwaitreaders ≡ 0)
          × (pos_part s.lock.nwaitwriters < 2 ^ 31)
          × (neg_part s.lock.nwaitwriters ≡ 0))
counters_fit {n} {s} r h =
    (unlock_never_exits r, ground (arith, Reach-IsConsistent r, tally_fits n s.pc))
