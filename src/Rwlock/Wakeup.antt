-- ===== src/Rwlock/Wakeup.antt =====
-- No wakeup is lost: whoever sleeps while the lock is free has a woken thread to wait for.
use unpvol.Base.{
  ℕ, ◌+◌, ◌<◌, ◌≤◌, ◌≡◌, ◌⊎◌, inl, inr, refl, arith, true, false, pos, is_neg, zero, suc,
  total-const,
}
use unpvol.Rwlock.Defs.{
  Rwlock, rdlock, rdlock_resume, wrlock, wrlock_resume, tryrdlock, trywrlock, unlock,
}
use unpvol.Rwlock.System.{
  idle, sleep_read, woken_read, sleep_write, woken_write, reading, writing, System, after_read,
  after_write, after_unlock, Step, call_rdlock, call_wrlock, call_tryrdlock, call_trywrlock,
  spurious_read, spurious_write, resume_read, resume_write, call_unlock, start_state, Reach, start,
  later,
}
use unpvol.Rwlock.Counts.{Tally, tally, Moved, moves, asleep_write, asleep_read}
use unpvol.Rwlock.Invariant.{
  IsConsistent, SystemIsConsistent, Wakes, Woken-Wakes, reading-counted, writing-counted,
  Reach-IsConsistent,
}

-- A writer asleep at a free lock has a woken writer ahead of it, and a reader asleep has a writer
-- with the lock or one that waits for it.
pub record IsAwake (rw : Rwlock) (t : Tally) : Type 0 where
  pub writers_woken : rw.refcount ≡ pos 0 → 0 < t.sleep_w → 0 < t.woken_w
  pub readers_blocked : 0 < t.sleep_r → (is_neg rw.refcount ≡ true) ⊎ (0 < t.sleep_w + t.woken_w)

module _ {rw : Rwlock} {a b : Tally} (inv : IsConsistent rw a) (aw : IsAwake rw a) where
  rdlock-IsAwake : Moved a b idle (after_read (rdlock rw 0).outcome) → IsAwake (rdlock rw 0).lock b
  unfolding rdlock
  rdlock-IsAwake m = ground arith

  tryrdlock-IsAwake :
      Moved a b idle (after_read (tryrdlock rw 0).outcome) → IsAwake (tryrdlock rw 0).lock b
  unfolding tryrdlock
  tryrdlock-IsAwake m = ground arith

  wrlock-IsAwake : Moved a b idle (after_write (wrlock rw 0).outcome) → IsAwake (wrlock rw 0).lock b
  unfolding wrlock
  wrlock-IsAwake m = ground arith

  trywrlock-IsAwake :
      Moved a b idle (after_write (trywrlock rw 0).outcome) → IsAwake (trywrlock rw 0).lock b
  unfolding trywrlock
  trywrlock-IsAwake m = ground arith

  rdlock_resume-IsAwake :
      Moved a b woken_read (after_read (rdlock_resume rw 0).outcome)
      → IsAwake (rdlock_resume rw 0).lock b
  unfolding rdlock_resume
  rdlock_resume-IsAwake m = ground arith

  wrlock_resume-IsAwake :
      Moved a b woken_write (after_write (wrlock_resume rw 0).outcome)
      → IsAwake (wrlock_resume rw 0).lock b
  unfolding wrlock_resume
  wrlock_resume-IsAwake m = ground arith

  sleep_read-IsAwake : Moved a b sleep_read woken_read → IsAwake rw b
  sleep_read-IsAwake m = ground arith

  sleep_write-IsAwake : Moved a b sleep_write woken_write → IsAwake rw b
  sleep_write-IsAwake m = ground arith

  module _ {c : Tally} where
    unlock-reading-IsAwake :
        1 ≤ a.readers
        → Moved a b reading (after_unlock (unlock rw 0 0 0).outcome)
        → Wakes (unlock rw 0 0 0).wake b c
        → IsAwake (unlock rw 0 0 0).lock c
    unfolding unlock
    unlock-reading-IsAwake h m w = ground arith

    unlock-writing-IsAwake :
        1 ≤ a.writers
        → Moved a b writing (after_unlock (unlock rw 0 0 0).outcome)
        → Wakes (unlock rw 0 0 0).wake b c
        → IsAwake (unlock rw 0 0 0).lock c
    unfolding unlock
    unlock-writing-IsAwake h m w = ground arith

Step-IsAwake :
    {n : ℕ} {s t : System}
    → Step false n s t
    → SystemIsConsistent n s
    → IsAwake s.lock (tally n s.pc)
    → IsAwake t.lock (tally n t.pc)
Step-IsAwake {n} {s} (call_rdlock i lt e) inv aw = rdlock-IsAwake inv aw (moves n s.pc i _ lt e)
Step-IsAwake {n} {s} (call_wrlock i lt e) inv aw = wrlock-IsAwake inv aw (moves n s.pc i _ lt e)
Step-IsAwake {n} {s} (call_tryrdlock i lt e) inv aw =
    tryrdlock-IsAwake inv aw (moves n s.pc i _ lt e)
Step-IsAwake {n} {s} (call_trywrlock i lt e) inv aw =
    trywrlock-IsAwake inv aw (moves n s.pc i _ lt e)
Step-IsAwake {n} {s} (spurious_read i lt e) inv aw =
    sleep_read-IsAwake inv aw (moves n s.pc i _ lt e)
Step-IsAwake {n} {s} (spurious_write i lt e) inv aw =
    sleep_write-IsAwake inv aw (moves n s.pc i _ lt e)
Step-IsAwake {n} {s} (resume_read i zero lt e f) inv aw =
    rdlock_resume-IsAwake inv aw (moves n s.pc i _ lt e)
Step-IsAwake (resume_read i (suc r) lt e f) inv aw = cc (f (omega arith))
Step-IsAwake {n} {s} (resume_write i zero lt e f) inv aw =
    wrlock_resume-IsAwake inv aw (moves n s.pc i _ lt e)
Step-IsAwake (resume_write i (suc r) lt e f) inv aw = cc (f (omega arith))
Step-IsAwake {n} {s} (call_unlock i lt (inl e) w) inv aw =
    unlock-reading-IsAwake inv aw (reading-counted n s.pc i lt e) (moves n s.pc i _ lt e)
      (Woken-Wakes w)
Step-IsAwake {n} {s} (call_unlock i lt (inr e) w) inv aw =
    unlock-writing-IsAwake inv aw (writing-counted n s.pc i lt e) (moves n s.pc i _ lt e)
      (Woken-Wakes w)

start_state-IsAwake : (n : ℕ) → IsAwake start_state.lock (tally n start_state.pc)
unfolding tally
start_state-IsAwake n =
    ground (arith, total-const asleep_write n idle refl, total-const asleep_read n idle refl)

pub Reach-IsAwake : {n : ℕ} {s : System} → Reach false n s → IsAwake s.lock (tally n s.pc)
Reach-IsAwake {n} start = start_state-IsAwake n
Reach-IsAwake (later r st) = Step-IsAwake st (Reach-IsConsistent r) (Reach-IsAwake r)
