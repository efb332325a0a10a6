-- ===== src/Rwlock/Granted.antt =====
-- When the operations grant the lock, and what they never do.
use unpvol.Base.{ℕ, ◌≤◌, ◌≡◌, ◌≢◌, ◌⊎◌, arith, zero, suc}
use unpvol.Rwlock.Defs.{
  Rwlock, rdlock, rdlock_resume, wrlock, wrlock_resume, tryrdlock, trywrlock, unlock,
}
use unpvol.Rwlock.System.{idle, reading, writing, after_read, after_write, after_unlock}
use unpvol.Rwlock.Counts.{Tally}
use unpvol.Rwlock.Invariant.{IsConsistent}

module _ {rw : Rwlock} {a : Tally} (inv : IsConsistent rw a) where
  pub rdlock-granted : after_read (rdlock rw 0).outcome ≡ reading → a.writers ≡ 0
  unfolding rdlock
  rdlock-granted e = ground arith

  pub tryrdlock-granted : after_read (tryrdlock rw 0).outcome ≡ reading → a.writers ≡ 0
  unfolding tryrdlock
  tryrdlock-granted e = ground arith

  pub rdlock_resume-granted :
      (r : ℕ) → after_read (rdlock_resume rw r).outcome ≡ reading → a.writers ≡ 0
  unfolding rdlock_resume
  rdlock_resume-granted zero e = ground arith
  rdlock_resume-granted (suc r) e = ground arith

  pub wrlock-granted :
      after_write (wrlock rw 0).outcome ≡ writing → (a.writers ≡ 0) × (a.readers ≡ 0)
  unfolding wrlock
  wrlock-granted e = ground arith

  pub trywrlock-granted :
      after_write (trywrlock rw 0).outcome ≡ writing → (a.writers ≡ 0) × (a.readers ≡ 0)
  unfolding trywrlock
  trywrlock-granted e = ground arith

  pub wrlock_resume-granted :
      (r : ℕ)
      → after_write (wrlock_resume rw r).outcome ≡ writing
      → (a.writers ≡ 0) × (a.readers ≡ 0)
  unfolding wrlock_resume
  wrlock_resume-granted zero e = ground arith
  wrlock_resume-granted (suc r) e = ground arith

module _ (rw : Rwlock) where
  pub rdlock-not-writing : after_read (rdlock rw 0).outcome ≢ writing
  unfolding rdlock
  rdlock-not-writing e = ground arith

  pub tryrdlock-not-writing : after_read (tryrdlock rw 0).outcome ≢ writing
  unfolding tryrdlock
  tryrdlock-not-writing e = ground arith

  pub rdlock_resume-not-writing : (r : ℕ) → after_read (rdlock_resume rw r).outcome ≢ writing
  unfolding rdlock_resume
  rdlock_resume-not-writing zero e = ground arith
  rdlock_resume-not-writing (suc r) e = ground arith

  pub wrlock-not-reading : after_write (wrlock rw 0).outcome ≢ reading
  unfolding wrlock
  wrlock-not-reading e = ground arith

  pub trywrlock-not-reading : after_write (trywrlock rw 0).outcome ≢ reading
  unfolding trywrlock
  trywrlock-not-reading e = ground arith

  pub wrlock_resume-not-reading : (r : ℕ) → after_write (wrlock_resume rw r).outcome ≢ reading
  unfolding wrlock_resume
  wrlock_resume-not-reading zero e = ground arith
  wrlock_resume-not-reading (suc r) e = ground arith

pub unlock-idle :
    {rw : Rwlock} {a : Tally}
    → IsConsistent rw a
    → (1 ≤ a.readers) ⊎ (1 ≤ a.writers)
    → after_unlock (unlock rw 0 0 0).outcome ≡ idle
unfolding unlock
unlock-idle inv h = ground arith
