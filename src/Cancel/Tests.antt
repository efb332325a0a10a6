-- ===== src/Cancel/Tests.antt =====
-- A run of testcancel.c: thread1 reads, thread2 waits to write and is cancelled.
use unpvol.Base.{◌≡◌, ◌≢◌, ◌⊎◌, refl, false, pos}
use unpvol.Rwlock.Defs.{Outcome, exited, rdlock, wrlock}
use unpvol.Cancel.Defs.{
  t1_unlock, t1_returned, t2_cancelled_waiting, m_join2, m_join1, m_done, State, thread1, thread2,
  cancels, ones, twos, ends, Reach, start, later, Runs,
}
use unpvol.Cancel.Lost.{cancelled_wait_stays}

abbrev cancelled_wait : (s : State) × Reach s
unfolding thread1 thread2 cancels rdlock wrlock
cancelled_wait =
    (_, later (later (later (later start (ones refl)) (twos refl)) (ones refl)) (ends refl refl))

cancelled_wait_at : (cancelled_wait.0.t1 ≡ t1_unlock) × (cancelled_wait.0.t2 ≡ t2_cancelled_waiting)
unfolding thread1 thread2 cancels rdlock wrlock
cancelled_wait_at = (refl, refl)

cancelled_wait_stays_example :
    (cancelled_wait.0.lock.nwaitwriters ≡ pos 1)
    × (cancelled_wait.0.mutex_free ≡ false)
    × ((o : Outcome) → cancelled_wait.0.at ≡ m_done o → o ≡ exited)
    × (cancelled_wait.0.t1 ≢ t1_returned
        → (t : State) → Runs cancelled_wait.0 t
        → (t.at ≡ m_join2) ⊎ (t.at ≡ m_join1))
cancelled_wait_stays_example = cancelled_wait_stays cancelled_wait.1 cancelled_wait_at.1
