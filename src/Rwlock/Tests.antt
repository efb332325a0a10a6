-- ===== src/Rwlock/Tests.antt =====
-- Runs of the operations and of small systems of threads, and the theorems at them.
use unpvol.Base.{
  pos, ◌↔◌, ◌+ℤ◌, ◌-ℤ◌, ℕ, ◌↔◌, ◌<◌, ◌≤◌, ◌^◌, ◌≡◌, ◌≢◌, ◌⊎◌, inl, inr, refl, arith, true, false,
  negsuc, pos_part, neg_part,
}
use unpvol.Rwlock.Defs.{
  rw_magic, einval, no_wake, wrlock, tryrdlock, trywrlock, unlock, wrlock_resume, rdlock_resume,
  Rwlock, returned, waits_readers, waits_writers, exited, initializer, ebusy, init, destroy, rdlock,
  checked,
}
use unpvol.Rwlock.System.{
  woken_write, reading, writing, gone, System, one, call_rdlock, call_wrlock, resume_write,
  call_unlock, Reach, start, later, settle, after_write,
}
use unpvol.Rwlock.Safety.{mutual_exclusion, no_lost_wakeup, counters_fit}
use unpvol.Rwlock.Refine.{AbsStep, hold_of, rwlock_refines}
use unpvol.Rwlock.Preference.{writer_preference}
use unpvol.Rwlock.Ops.{init_lem, destroy_lem, tryrdlock-rdlock, failed_wait_undone}

-- Thread 0 writes, thread 1 sleeps as a reader.
abbrev reader_waits : (s : System) × Reach false 2 s
unfolding rdlock wrlock
reader_waits =
    (_, later (later start (call_wrlock 0 (omega arith) refl)) (call_rdlock 1 (omega arith) refl))

mutual_exclusion_example : (reader_waits.0.pc 1 ≢ reading) × (reader_waits.0.pc 1 ≢ writing)
unfolding rdlock wrlock
mutual_exclusion_example =
    mutual_exclusion reader_waits.1 0 1 (omega arith) (omega arith) (omega arith) refl

-- Thread 0 has written and woken thread 1; thread 2 still sleeps as a writer.
abbrev writer_woken : (s : System) × Reach false 3 s
unfolding wrlock unlock
writer_woken = (
  _,
  later
      (later
        (later (later start (call_wrlock 0 (omega arith) refl)) (call_wrlock 1 (omega arith) refl))
        (call_wrlock 2 (omega arith) refl))
      (call_unlock 0 (omega arith) (inr refl) (one 1 (omega arith) refl)),
)

no_lost_wakeup_example : (j : ℕ) × (j < 3) × (writer_woken.0.pc j ≡ woken_write)
unfolding wrlock unlock
no_lost_wakeup_example = no_lost_wakeup writer_woken.1 refl 2 (omega arith) (inl refl)

counters_fit_example :
    ((i : ℕ) → i < 3 → writer_woken.0.pc i ≢ gone)
    × ((pos_part writer_woken.0.lock.refcount < 2 ^ 31)
        × (neg_part writer_woken.0.lock.refcount ≤ 1)
        × (pos_part writer_woken.0.lock.nwaitreaders < 2 ^ 31)
        × (neg_part writer_woken.0.lock.nwaitreaders ≡ 0)
        × (pos_part writer_woken.0.lock.nwaitwriters < 2 ^ 31)
        × (neg_part writer_woken.0.lock.nwaitwriters ≡ 0))
counters_fit_example = counters_fit writer_woken.1 (omega arith)

rwlock_refines_example :
    AbsStep 3
      (λ j. hold_of (writer_woken.0.pc j))
      (λ j.
        hold_of ((settle writer_woken.0 1 after_write (wrlock_resume writer_woken.0.lock 0)).pc j))
unfolding wrlock unlock wrlock_resume
rwlock_refines_example =
    rwlock_refines writer_woken.1 (resume_write 1 0 (omega arith) refl (λ ne. absurd (ne refl)))

-- Thread 0 reads, thread 1 waits to write.
abbrev writer_waits : (s : System) × Reach false 3 s
unfolding rdlock wrlock
writer_waits =
    (_, later (later start (call_rdlock 0 (omega arith) refl)) (call_wrlock 1 (omega arith) refl))

writer_preference_example : writer_waits.0.pc 0 ≡ reading
unfolding rdlock wrlock
writer_preference_example =
    writer_preference writer_waits.1 1 (omega arith) (inl refl) (call_rdlock 2 (omega arith) refl) 0
      refl

abbrev dead : Rwlock
dead = record initializer { mutex = false; condreaders = false; condwriters = false; magic = 0 }

init_lem_example :
    (((init dead true 0 0 12).outcome ≡ returned 0)
      ↔ ((true ≡ true) × (◌≡◌ {A = ℕ} 0 0) × (◌≡◌ {A = ℕ} 0 0) × (◌≡◌ {A = ℕ} 12 0)))
    × ((init dead true 0 0 12).outcome ≡ returned 0 → (init dead true 0 0 12).lock ≡ initializer)
    × ((init dead true 0 0 12).outcome ≢ returned 0 → (init dead true 0 0 12).lock ≡ dead)
init_lem_example = init_lem dead true 0 0 12 refl refl refl

destroy_lem_example :
    (((destroy initializer).outcome ≡ returned 0) ↔ (
      (initializer.magic ≡ rw_magic)
      × (initializer.refcount ≡ pos 0)
      × (initializer.nwaitreaders ≡ pos 0)
      × (initializer.nwaitwriters ≡ pos 0)))
    × ((destroy initializer).outcome ≡ returned 0
        → (let d = (destroy initializer).lock in
            (destroy d ≡ record { lock = d; outcome = returned einval })
            × (rdlock d 0 ≡ record { lock = d; outcome = returned einval })
            × (wrlock d 0 ≡ record { lock = d; outcome = returned einval })
            × (tryrdlock d 0 ≡ record { lock = d; outcome = returned einval })
            × (trywrlock d 0 ≡ record { lock = d; outcome = returned einval })
            × (unlock d 0 0 0 ≡ record { lock = d; wake = no_wake; outcome = returned einval })))
    × ((destroy initializer).outcome ≢ returned 0 → (destroy initializer).lock ≡ initializer)
destroy_lem_example = destroy_lem initializer 0 0 0

tryrdlock-rdlock_example :
    (((rdlock initializer 0).outcome ≡ returned 0)
      × (tryrdlock initializer 0 ≡ rdlock initializer 0))
    ⊎ (((rdlock initializer 0).outcome ≡ waits_readers)
        × (tryrdlock initializer 0 ≡ record { lock = initializer; outcome = returned ebusy }))
tryrdlock-rdlock_example = tryrdlock-rdlock initializer refl

-- A lock that a writer has.
abbrev write_locked : Rwlock
write_locked = record initializer { refcount = negsuc 0 }

-- The same while one reader and one writer wait, after the writer has unlocked it.
abbrev unlocked_since : Rwlock
unlocked_since = record initializer { nwaitreaders = pos 1; nwaitwriters = pos 1 }

failed_wait_undone_example :
    ((rdlock write_locked 0).outcome ≡ waits_readers
      → ((rdlock write_locked 0).lock
          ≡ record write_locked { nwaitreaders = write_locked.nwaitreaders +ℤ pos 1 })
        × (rdlock_resume unlocked_since 4 ≡ record {
          lock = record unlocked_since { nwaitreaders = unlocked_since.nwaitreaders -ℤ pos 1 };
          outcome = returned 4;
        })
        × (rdlock_resume (rdlock write_locked 0).lock 4
            ≡ record { lock = write_locked; outcome = returned 4 }))
    × ((wrlock write_locked 0).outcome ≡ waits_writers
        → ((wrlock write_locked 0).lock
            ≡ record write_locked { nwaitwriters = write_locked.nwaitwriters +ℤ pos 1 })
          × (wrlock_resume unlocked_since 4 ≡ record {
            lock = record unlocked_since { nwaitwriters = unlocked_since.nwaitwriters -ℤ pos 1 };
            outcome = returned 4;
          })
          × (wrlock_resume (wrlock write_locked 0).lock 4
              ≡ record { lock = write_locked; outcome = returned 4 }))
failed_wait_undone_example = failed_wait_undone write_locked unlocked_since 4 refl (omega arith)

wrapper_exits : checked (destroy write_locked).outcome ≡ exited
unfolding checked destroy
wrapper_exits = refl
