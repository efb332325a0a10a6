-- ===== src/Rwlock/Ops.antt =====
-- The operations one by one, on every branch.
use unpvol.Base.{◌↔◌, ◌+ℤ◌, ◌-ℤ◌, ℕ, ◌≡◌, ◌≢◌, ◌⊎◌, arith, Bool, true, false, pos}
use unpvol.Rwlock.Defs.{
  Rwlock, returned, waits_readers, waits_writers, exited, no_wake, rw_magic, einval, ebusy, init,
  destroy, rdlock, wrlock, tryrdlock, trywrlock, unlock, rdlock_resume, wrlock_resume, initializer,
}

-- On a lock whose magic number is not RW_MAGIC every operation, whatever the pthread calls would
-- answer, returns EINVAL and changes nothing; after a destroy that succeeds the lock is such.
pub magic_guards :
    (rw : Rwlock) (locked signalled broadcasted : ℕ)
    → rw.magic ≢ rw_magic
    → (destroy rw ≡ record { lock = rw; outcome = returned einval })
      × (rdlock rw locked ≡ record { lock = rw; outcome = returned einval })
      × (wrlock rw locked ≡ record { lock = rw; outcome = returned einval })
      × (tryrdlock rw locked ≡ record { lock = rw; outcome = returned einval })
      × (trywrlock rw locked ≡ record { lock = rw; outcome = returned einval })
      × (unlock rw locked signalled broadcasted
          ≡ record { lock = rw; wake = no_wake; outcome = returned einval })
unfolding destroy rdlock wrlock tryrdlock trywrlock unlock
magic_guards rw locked signalled broadcasted h =
    (ground arith, ground arith, ground arith, ground arith, ground arith, ground arith)

destroy-zero :
    (rw : Rwlock)
    → ((destroy rw).outcome ≡ returned 0) ↔ (
        (rw.magic ≡ rw_magic)
        × (rw.refcount ≡ pos 0)
        × (rw.nwaitreaders ≡ pos 0)
        × (rw.nwaitwriters ≡ pos 0))
unfolding destroy
destroy-zero rw = (λ e. ground arith, λ e. ground arith)

destroy-magic :
    (rw : Rwlock) → (destroy rw).outcome ≡ returned 0 → (destroy rw).lock.magic ≢ rw_magic
unfolding destroy
destroy-magic rw e q = ground arith

destroy-unchanged : (rw : Rwlock) → (destroy rw).outcome ≢ returned 0 → (destroy rw).lock ≡ rw
unfolding destroy
destroy-unchanged rw e = ground arith

-- On a lock that no thread changes during the call `destroy` returns 0 exactly when the magic number is
-- RW_MAGIC and the three counts are 0; then every operation on the lock, whatever the pthread calls would
-- answer, returns EINVAL and changes nothing; otherwise `destroy` has changed nothing.
pub destroy_lem :
    (rw : Rwlock) (locked signalled broadcasted : ℕ)
    → (((destroy rw).outcome ≡ returned 0) ↔ (
        (rw.magic ≡ rw_magic)
        × (rw.refcount ≡ pos 0)
        × (rw.nwaitreaders ≡ pos 0)
        × (rw.nwaitwriters ≡ pos 0)))
      × ((destroy rw).outcome ≡ returned 0
          → (let d = (destroy rw).lock in
              (destroy d ≡ record { lock = d; outcome = returned einval })
              × (rdlock d locked ≡ record { lock = d; outcome = returned einval })
              × (wrlock d locked ≡ record { lock = d; outcome = returned einval })
              × (tryrdlock d locked ≡ record { lock = d; outcome = returned einval })
              × (trywrlock d locked ≡ record { lock = d; outcome = returned einval })
              × (unlock d locked signalled broadcasted
                  ≡ record { lock = d; wake = no_wake; outcome = returned einval })))
      × ((destroy rw).outcome ≢ returned 0 → (destroy rw).lock ≡ rw)
destroy_lem rw locked signalled broadcasted = (
  destroy-zero rw,
  λ e. magic_guards (destroy rw).lock locked signalled broadcasted (destroy-magic rw e),
  destroy-unchanged rw,
)

-- `init` on an object with nothing initialised: it returns 0 exactly when the attribute is NULL
-- and the three pthread inits return 0; then the lock is that of PTHREAD_RWLOCK_INITIALIZER; otherwise
-- the object is as before, what had been initialised being destroyed again.
pub init_lem :
    (rw : Rwlock) (attr_is_null : Bool) (m r w : ℕ)
    → rw.mutex ≡ false
    → rw.condreaders ≡ false
    → rw.condwriters ≡ false
    → (((init rw attr_is_null m r w).outcome ≡ returned 0)
        ↔ ((attr_is_null ≡ true) × (m ≡ 0) × (r ≡ 0) × (w ≡ 0)))
      × ((init rw attr_is_null m r w).outcome ≡ returned 0
          → (init rw attr_is_null m r w).lock ≡ initializer)
      × ((init rw attr_is_null m r w).outcome ≢ returned 0 → (init rw attr_is_null m r w).lock ≡ rw)
unfolding init
init_lem rw attr_is_null m r w hm hr hw =
    ((λ e. ground arith, λ e. ground arith), λ e. ground arith, λ e. ground arith)

-- With a good magic number and a mutex that locks, `tryrdlock` takes the lock exactly when
-- `rdlock` would take it at once, with the same lock after it; otherwise it returns EBUSY and
-- changes nothing, while `rdlock` waits on the readers' condition variable.
pub tryrdlock-rdlock :
    (rw : Rwlock)
    → rw.magic ≡ rw_magic
    → (((rdlock rw 0).outcome ≡ returned 0) × (tryrdlock rw 0 ≡ rdlock rw 0))
      ⊎ (((rdlock rw 0).outcome ≡ waits_readers)
          × (tryrdlock rw 0 ≡ record { lock = rw; outcome = returned ebusy }))
unfolding rdlock tryrdlock
tryrdlock-rdlock rw h = ground arith

-- The same of `trywrlock` and `wrlock`, on the writers' condition variable.
pub trywrlock-wrlock :
    (rw : Rwlock)
    → rw.magic ≡ rw_magic
    → (((wrlock rw 0).outcome ≡ returned 0) × (trywrlock rw 0 ≡ wrlock rw 0))
      ⊎ (((wrlock rw 0).outcome ≡ waits_writers)
          × (trywrlock rw 0 ≡ record { lock = rw; outcome = returned ebusy }))
unfolding wrlock trywrlock
trywrlock-wrlock rw h = ground arith

-- An unlock undoes a lock: after a successful `tryrdlock` or `trywrlock`, `unlock` leaves every
-- field as it was before, and does not exit.
pub unlock-trylock :
    (rw : Rwlock) (signalled broadcasted : ℕ)
    → (((tryrdlock rw 0).outcome ≡ returned 0)
        → ((unlock (tryrdlock rw 0).lock 0 signalled broadcasted).lock ≡ rw)
          × ((unlock (tryrdlock rw 0).lock 0 signalled broadcasted).outcome ≢ exited))
      × (((trywrlock rw 0).outcome ≡ returned 0)
          → ((unlock (trywrlock rw 0).lock 0 signalled broadcasted).lock ≡ rw)
            × ((unlock (trywrlock rw 0).lock 0 signalled broadcasted).outcome ≢ exited))
unfolding tryrdlock trywrlock unlock
unlock-trylock rw signalled broadcasted = (λ h. ground arith, λ h. ground arith)

-- A reader that has to wait changes nothing but `nwaitreaders`, to which it adds one; when it resumes
-- with an error, whatever other threads have made of the lock meanwhile, it returns that error and
-- changes nothing but `nwaitreaders`, from which it takes one; so that a lock that nobody else has changed
-- is as before the call. The same of a writer and `nwaitwriters`.
pub failed_wait_undone :
    (rw now : Rwlock) (error : ℕ)
    → rw.magic ≡ rw_magic
    → error ≢ 0
    → ((rdlock rw 0).outcome ≡ waits_readers
        → ((rdlock rw 0).lock ≡ record rw { nwaitreaders = rw.nwaitreaders +ℤ pos 1 })
          × (rdlock_resume now error ≡ record {
            lock = record now { nwaitreaders = now.nwaitreaders -ℤ pos 1 };
            outcome = returned error;
          })
          × (rdlock_resume (rdlock rw 0).lock error
              ≡ record { lock = rw; outcome = returned error }))
      × ((wrlock rw 0).outcome ≡ waits_writers
          → ((wrlock rw 0).lock ≡ record rw { nwaitwriters = rw.nwaitwriters +ℤ pos 1 })
            × (wrlock_resume now error ≡ record {
              lock = record now { nwaitwriters = now.nwaitwriters -ℤ pos 1 };
              outcome = returned error;
            })
            × (wrlock_resume (wrlock rw 0).lock error
                ≡ record { lock = rw; outcome = returned error }))
unfolding rdlock wrlock rdlock_resume wrlock_resume
failed_wait_undone rw now error h ne = (
  λ e. (ground arith, ground arith, ground arith),
  λ e. (ground arith, ground arith, ground arith),
)
