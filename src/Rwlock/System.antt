-- ===== src/Rwlock/System.antt =====
-- `n` threads over one lock of codes/8.Read_Write_Locks/my_rwlock, interleaved in any order.
--
-- The operations below read and write the fields of the lock only while their thread holds `rw_mutex`,
-- so one step is one stretch of code under the mutex. (`rw_magic`, which they read before, changes in
-- `init` and `destroy` only; `destroy`, which takes no mutex, is none of the steps.) A thread calls the operations as the programs of
-- that folder do: it unlocks what it has locked, and locks nothing else in between.
-- `pthread_cond_wait` may return spuriously. It returns an error only where `may_fail` is true.
use unpvol.Base.{ℕ, zero, suc, Bool, true, ◌<◌, ◌≡◌, ◌≢◌, ◌⊎◌, update}
use unpvol.Rwlock.Defs.{
  Rwlock, Call, Outcome, returned, waits_readers, waits_writers, exited, Wake, no_wake,
  signal_writer, broadcast_readers, rdlock, rdlock_resume, wrlock, wrlock_resume, tryrdlock,
  trywrlock, unlock, initializer,
}

-- Where a thread stands: outside the lock, asleep in `pthread_cond_wait`, woken and about to take
-- the mutex again, with a read lock, with the write lock, or gone by `exit(1)`.
pub data Pc : Type 0 where
  idle sleep_read woken_read sleep_write woken_write reading writing gone : Pc

pub record System : Type 0 where
  pub lock : Rwlock
  pub pc : ℕ → Pc

abbrev pub after_read : Outcome → Pc
after_read (returned zero) = reading
after_read (returned (suc e)) = idle
after_read waits_readers = sleep_read
after_read waits_writers = sleep_write
after_read exited = gone

abbrev pub after_write : Outcome → Pc
after_write (returned zero) = writing
after_write (returned (suc e)) = idle
after_write waits_readers = sleep_read
after_write waits_writers = sleep_write
after_write exited = gone

abbrev pub after_unlock : Outcome → Pc
after_unlock (returned e) = idle
after_unlock waits_readers = sleep_read
after_unlock waits_writers = sleep_write
after_unlock exited = gone

abbrev pub wake_reader : Pc → Pc
wake_reader sleep_read = woken_read
wake_reader idle = idle
wake_reader woken_read = woken_read
wake_reader sleep_write = sleep_write
wake_reader woken_write = woken_write
wake_reader reading = reading
wake_reader writing = writing
wake_reader gone = gone

-- What a call on a condition variable does to the threads: a signal wakes one sleeper if there is
-- one, a broadcast wakes all.
pub data Woken (n : ℕ) (pc : ℕ → Pc) : Wake → (ℕ → Pc) → Type 0 where
  nobody : Woken n pc no_wake pc
  one : (j : ℕ) → j < n → pc j ≡ sleep_write → Woken n pc signal_writer (update pc j woken_write)
  none_asleep : ((j : ℕ) → j < n → pc j ≢ sleep_write) → Woken n pc signal_writer pc
  everyone : Woken n pc broadcast_readers (λ j. wake_reader (pc j))

abbrev pub settle : System → ℕ → (Outcome → Pc) → Call → System
settle s i after c = record { lock = c.lock; pc = update s.pc i (after c.outcome) }

pub data Step (may_fail : Bool) (n : ℕ) (s : System) : System → Type 0 where
  call_rdlock :
      (i : ℕ) → i < n → s.pc i ≡ idle → Step may_fail n s (settle s i after_read (rdlock s.lock 0))
  call_wrlock :
      (i : ℕ) → i < n → s.pc i ≡ idle → Step may_fail n s (settle s i after_write (wrlock s.lock 0))
  call_tryrdlock :
      (i : ℕ)
      → i < n
      → s.pc i ≡ idle
      → Step may_fail n s (settle s i after_read (tryrdlock s.lock 0))
  call_trywrlock :
      (i : ℕ)
      → i < n
      → s.pc i ≡ idle
      → Step may_fail n s (settle s i after_write (trywrlock s.lock 0))
  spurious_read :
      (i : ℕ)
      → i < n
      → s.pc i ≡ sleep_read
      → Step may_fail n s (record s { pc = update s.pc i woken_read })
  spurious_write :
      (i : ℕ)
      → i < n
      → s.pc i ≡ sleep_write
      → Step may_fail n s (record s { pc = update s.pc i woken_write })
  resume_read :
      (i result : ℕ)
      → i < n
      → s.pc i ≡ woken_read
      → (result ≢ 0 → may_fail ≡ true)
      → Step may_fail n s (settle s i after_read (rdlock_resume s.lock result))
  resume_write :
      (i result : ℕ)
      → i < n
      → s.pc i ≡ woken_write
      → (result ≢ 0 → may_fail ≡ true)
      → Step may_fail n s (settle s i after_write (wrlock_resume s.lock result))
  call_unlock :
      (i : ℕ) {pc : ℕ → Pc}
      → i < n
      → (s.pc i ≡ reading) ⊎ (s.pc i ≡ writing)
      → Woken n
          (update s.pc i (after_unlock (unlock s.lock 0 0 0).outcome))
          (unlock s.lock 0 0 0).wake
          pc
      → Step may_fail n s (record { lock = (unlock s.lock 0 0 0).lock; pc = pc })

abbrev pub start_state : System
start_state = record { lock = initializer; pc = λ _. idle }

pub data Reach (may_fail : Bool) (n : ℕ) : System → Type 0 where
  start : Reach may_fail n start_state
  later : {s t : System} → Reach may_fail n s → Step may_fail n s t → Reach may_fail n t
