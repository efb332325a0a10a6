-- ===== src/Rwlock/Invariant.antt =====
-- The fields of the lock count the threads: kept by every step of the system.
use unpvol.Base.{
  ℕ, ◌+◌, ◌<◌, ◌≤◌, ◌≡◌, ◌≢◌, ◌⊎◌, inl, inr, refl, arith, Bool, pos, negsuc, total-const,
  total-zero, le-total, subst, zero, suc,
}
use unpvol.Rwlock.Defs.{
  Rwlock, Wake, rw_magic, rdlock, rdlock_resume, wrlock, wrlock_resume, tryrdlock, trywrlock,
  unlock, no_wake, signal_writer, broadcast_readers,
}
use unpvol.Rwlock.System.{
  Pc, idle, sleep_read, woken_read, sleep_write, woken_write, reading, writing, System, after_read,
  after_write, after_unlock, Woken, nobody, one, none_asleep, everyone, Step, call_rdlock,
  call_wrlock, call_tryrdlock, call_trywrlock, spurious_read, spurious_write, resume_read,
  resume_write, call_unlock, start_state, Reach, start, later,
}
use unpvol.Rwlock.Counts.{
  Tally, tally, Moved, moves, Roused, wake_reader-Roused, is_reading, is_writing, asleep_read,
  awake_read, asleep_write, awake_write, is_gone,
}

-- `rw_refcount` is the number of readers, or -1 with exactly one writer; the two waiting counts
-- are the numbers of threads inside `pthread_cond_wait`; no thread has met `exit(1)`.
pub record IsConsistent (rw : Rwlock) (t : Tally) : Type 0 where
  pub ready : rw.magic ≡ rw_magic
  pub waiting_readers : rw.nwaitreaders ≡ pos (t.sleep_r + t.woken_r)
  pub waiting_writers : rw.nwaitwriters ≡ pos (t.sleep_w + t.woken_w)
  pub held :
      ((t.writers ≡ 0) × (rw.refcount ≡ pos t.readers))
      ⊎ ((t.writers ≡ 1) × (t.readers ≡ 0) × (rw.refcount ≡ negsuc 0))
  pub none_lost : t.lost ≡ 0

module _ {rw : Rwlock} {a b : Tally} (inv : IsConsistent rw a) where
  rdlock-IsConsistent :
      Moved a b idle (after_read (rdlock rw 0).outcome) → IsConsistent (rdlock rw 0).lock b
  unfolding rdlock
  rdlock-IsConsistent m = ground arith

  tryrdlock-IsConsistent :
      Moved a b idle (after_read (tryrdlock rw 0).outcome) → IsConsistent (tryrdlock rw 0).lock b
  unfolding tryrdlock
  tryrdlock-IsConsistent m = ground arith

  wrlock-IsConsistent :
      Moved a b idle (after_write (wrlock rw 0).outcome) → IsConsistent (wrlock rw 0).lock b
  unfolding wrlock
  wrlock-IsConsistent m = ground arith

  trywrlock-IsConsistent :
      Moved a b idle (after_write (trywrlock rw 0).outcome) → IsConsistent (trywrlock rw 0).lock b
  unfolding trywrlock
  trywrlock-IsConsistent m = ground arith

  rdlock_resume-IsConsistent :
      (r : ℕ)
      → Moved a b woken_read (after_read (rdlock_resume rw r).outcome)
      → IsConsistent (rdlock_resume rw r).lock b
  unfolding rdlock_resume
  rdlock_resume-IsConsistent zero m = ground arith
  rdlock_resume-IsConsistent (suc r) m = ground arith

  wrlock_resume-IsConsistent :
      (r : ℕ)
      → Moved a b woken_write (after_write (wrlock_resume rw r).outcome)
      → IsConsistent (wrlock_resume rw r).lock b
  unfolding wrlock_resume
  wrlock_resume-IsConsistent zero m = ground arith
  wrlock_resume-IsConsistent (suc r) m = ground arith

  unlock-reading-IsConsistent :
      1 ≤ a.readers
      → Moved a b reading (after_unlock (unlock rw 0 0 0).outcome)
      → IsConsistent (unlock rw 0 0 0).lock b
  unfolding unlock
  unlock-reading-IsConsistent h m = ground arith

  unlock-writing-IsConsistent :
      1 ≤ a.writers
      → Moved a b writing (after_unlock (unlock rw 0 0 0).outcome)
      → IsConsistent (unlock rw 0 0 0).lock b
  unfolding unlock
  unlock-writing-IsConsistent h m = ground arith

  sleep_read-IsConsistent : Moved a b sleep_read woken_read → IsConsistent rw b
  sleep_read-IsConsistent m = ground arith

  sleep_write-IsConsistent : Moved a b sleep_write woken_write → IsConsistent rw b
  sleep_write-IsConsistent m = ground arith

  Roused-IsConsistent : Roused a b → IsConsistent rw b
  Roused-IsConsistent m = ground arith

-- What the waking of threads does to the tally.
abbrev pub Wakes : Wake → Tally → Tally → Type 0
Wakes no_wake a b = a ≡ b
Wakes signal_writer a b = Moved a b sleep_write woken_write ⊎ ((a.sleep_w ≡ 0) × (a ≡ b))
Wakes broadcast_readers a b = Roused a b

asleep_write-eq-zero : (p : Pc) → p ≢ sleep_write → asleep_write p ≡ 0
asleep_write-eq-zero p ne = grind arith

sleep_w-none :
    (n : ℕ) (pc : ℕ → Pc) → ((j : ℕ) → j < n → pc j ≢ sleep_write) → (tally n pc).sleep_w ≡ 0
unfolding tally
sleep_w-none n pc h = total-zero asleep_write n pc (λ j lt. asleep_write-eq-zero (pc j) (h j lt))

pub Woken-Wakes :
    {n : ℕ} {pc pc' : ℕ → Pc} {w : Wake} → Woken n pc w pc' → Wakes w (tally n pc) (tally n pc')
Woken-Wakes nobody = refl
Woken-Wakes {n} {pc} (one j lt e) = inl (moves n pc j woken_write lt e)
Woken-Wakes {n} {pc} (none_asleep h) = inr (sleep_w-none n pc h, refl)
Woken-Wakes {n} {pc} everyone = wake_reader-Roused n pc

Wakes-IsConsistent :
    {rw : Rwlock} {a b : Tally} (w : Wake) → IsConsistent rw a → Wakes w a b → IsConsistent rw b
Wakes-IsConsistent {rw} no_wake inv e = subst (λ t. IsConsistent rw t) e inv
Wakes-IsConsistent signal_writer inv (inl m) = sleep_write-IsConsistent inv m
Wakes-IsConsistent {rw} signal_writer inv (inr (none, e)) = subst (λ t. IsConsistent rw t) e inv
Wakes-IsConsistent broadcast_readers inv m = Roused-IsConsistent inv m

pub reading-counted :
    (n : ℕ) (pc : ℕ → Pc) (i : ℕ) → i < n → pc i ≡ reading → 1 ≤ (tally n pc).readers
unfolding tally
reading-counted n pc i lt e = ground (arith, le-total is_reading n pc i lt)

pub writing-counted :
    (n : ℕ) (pc : ℕ → Pc) (i : ℕ) → i < n → pc i ≡ writing → 1 ≤ (tally n pc).writers
unfolding tally
writing-counted n pc i lt e = ground (arith, le-total is_writing n pc i lt)

abbrev pub SystemIsConsistent : ℕ → System → Type 0
SystemIsConsistent n s = IsConsistent s.lock (tally n s.pc)

pub Step-IsConsistent :
    {may_fail : Bool} {n : ℕ} {s t : System}
    → Step may_fail n s t
    → SystemIsConsistent n s
    → SystemIsConsistent n t
Step-IsConsistent {n} {s} (call_rdlock i lt e) inv = rdlock-IsConsistent inv (moves n s.pc i _ lt e)
Step-IsConsistent {n} {s} (call_wrlock i lt e) inv = wrlock-IsConsistent inv (moves n s.pc i _ lt e)
Step-IsConsistent {n} {s} (call_tryrdlock i lt e) inv =
    tryrdlock-IsConsistent inv (moves n s.pc i _ lt e)
Step-IsConsistent {n} {s} (call_trywrlock i lt e) inv =
    trywrlock-IsConsistent inv (moves n s.pc i _ lt e)
Step-IsConsistent {n} {s} (spurious_read i lt e) inv =
    sleep_read-IsConsistent inv (moves n s.pc i _ lt e)
Step-IsConsistent {n} {s} (spurious_write i lt e) inv =
    sleep_write-IsConsistent inv (moves n s.pc i _ lt e)
Step-IsConsistent {n} {s} (resume_read i r lt e f) inv =
    rdlock_resume-IsConsistent inv r (moves n s.pc i _ lt e)
Step-IsConsistent {n} {s} (resume_write i r lt e f) inv =
    wrlock_resume-IsConsistent inv r (moves n s.pc i _ lt e)
Step-IsConsistent {n} {s} (call_unlock i lt (inl e) w) inv =
    Wakes-IsConsistent _
      (unlock-reading-IsConsistent inv (reading-counted n s.pc i lt e) (moves n s.pc i _ lt e))
      (Woken-Wakes w)
Step-IsConsistent {n} {s} (call_unlock i lt (inr e) w) inv =
    Wakes-IsConsistent _
      (unlock-writing-IsConsistent inv (writing-counted n s.pc i lt e) (moves n s.pc i _ lt e))
      (Woken-Wakes w)

start_state-IsConsistent : (n : ℕ) → SystemIsConsistent n start_state
unfolding tally
start_state-IsConsistent n = ground (
  arith,
  total-const is_reading n idle refl,
  total-const is_writing n idle refl,
  total-const asleep_read n idle refl,
  total-const awake_read n idle refl,
  total-const asleep_write n idle refl,
  total-const awake_write n idle refl,
  total-const is_gone n idle refl,
)

pub Reach-IsConsistent :
    {may_fail : Bool} {n : ℕ} {s : System} → Reach may_fail n s → SystemIsConsistent n s
Reach-IsConsistent {n} start = start_state-IsConsistent n
Reach-IsConsistent (later r st) = Step-IsConsistent st (Reach-IsConsistent r)
