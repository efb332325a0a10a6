-- ===== src/Cancel/Defs.antt =====
-- The two threads and `main` of testcancel.c over the operations of the read-write lock. Of the threads'
-- sleeping nothing is assumed: they may go on at any time.
use unpvol.Base.{zero, suc, ◌≡◌, Bool, true, false, if◌then◌else◌, Option, none, some}
use unpvol.Rwlock.Defs.{
  Rwlock, initializer, Outcome, returned, waits_readers, waits_writers, exited, checked, rdlock,
  rdlock_resume, wrlock, wrlock_resume, unlock, destroy,
}

-- The places of thread1; `t1_waits` is inside `pthread_cond_wait`, and `t1_exits` in the `exit(1)` of a
-- wrapper.
pub data T1 : Type 0 where
  t1_rdlock t1_waits t1_cancel t1_unlock t1_returned t1_exits : T1

-- The places of thread2; cancelled inside `pthread_cond_wait`, or in its `sleep` with the lock.
pub data T2 : Type 0 where
  t2_wrlock t2_waits t2_sleep t2_unlock t2_returned t2_exits : T2
  t2_cancelled_waiting t2_cancelled_holding : T2

-- The places of `main`, at last with the result of `destroy`.
pub data M : Type 0 where
  m_join2 m_join1 m_destroy : M
  m_done : Outcome → M

-- `mutex_free` says that no thread holds `rw_mutex`; `cancelled` that thread2 has been asked to end.
pub record State : Type 0 where
  pub lock : Rwlock
  pub mutex_free : Bool
  pub cancelled : Bool
  pub t1 : T1
  pub t2 : T2
  pub at : M

-- Where a thread goes on after a call of the lock: after its return, inside a wait, or not at all.
abbrev pub t1_after : Outcome → (next : T1) → T1
t1_after (returned zero) next = next
t1_after (returned (suc n)) next = t1_exits
t1_after waits_readers next = t1_waits
t1_after waits_writers next = t1_waits
t1_after exited next = t1_exits

abbrev pub t2_after : Outcome → (next : T2) → T2
t2_after (returned zero) next = next
t2_after (returned (suc n)) next = t2_exits
t2_after waits_readers next = t2_waits
t2_after waits_writers next = t2_waits
t2_after exited next = t2_exits

-- thread1. A call of the lock takes its mutex; a wait may end at any time that the mutex is free.
unfoldable pub thread1 : State → T1 → Option State
thread1 s t1_rdlock =
    let c = rdlock s.lock 0 in
    if s.mutex_free
    then some (record s { lock = c.lock; t1 = t1_after c.outcome t1_cancel })
    else none
thread1 s t1_waits =
    let c = rdlock_resume s.lock 0 in
    if s.mutex_free
    then some (record s { lock = c.lock; t1 = t1_after c.outcome t1_cancel })
    else none
thread1 s t1_cancel = some (record s { cancelled = true; t1 = t1_unlock })
thread1 s t1_unlock =
    let c = unlock s.lock 0 0 0 in
    if s.mutex_free
    then some (record s { lock = c.lock; t1 = t1_after c.outcome t1_returned })
    else none
thread1 s t1_returned = none
thread1 s t1_exits = none

-- thread2.
unfoldable pub thread2 : State → T2 → Option State
thread2 s t2_wrlock =
    let c = wrlock s.lock 0 in
    if s.mutex_free
    then some (record s { lock = c.lock; t2 = t2_after c.outcome t2_sleep })
    else none
thread2 s t2_waits =
    let c = wrlock_resume s.lock 0 in
    if s.mutex_free
    then some (record s { lock = c.lock; t2 = t2_after c.outcome t2_sleep })
    else none
thread2 s t2_sleep = some (record s { t2 = t2_unlock })
thread2 s t2_unlock =
    let c = unlock s.lock 0 0 0 in
    if s.mutex_free
    then some (record s { lock = c.lock; t2 = t2_after c.outcome t2_returned })
    else none
thread2 s _ = none

-- The cancellation at a cancellation point. `pthread_cond_wait` takes the mutex again before it ends the
-- thread, and the lock has no cleanup handler that gives it back.
unfoldable pub cancels : State → T2 → Option State
cancels s t2_waits =
    if s.mutex_free then some (record s { mutex_free = false; t2 = t2_cancelled_waiting }) else none
cancels s t2_sleep = some (record s { t2 = t2_cancelled_holding })
cancels s _ = none

abbrev pub has_ended1 : T1 → Bool
has_ended1 t1_returned = true
has_ended1 _ = false

abbrev pub has_ended2 : T2 → Bool
has_ended2 t2_returned = true
has_ended2 t2_cancelled_waiting = true
has_ended2 t2_cancelled_holding = true
has_ended2 _ = false

-- `main` from its joins on.
unfoldable pub main : State → M → Option State
main s m_join2 = if has_ended2 s.t2 then some (record s { at = m_join1 }) else none
main s m_join1 = if has_ended1 s.t1 then some (record s { at = m_destroy }) else none
main s m_destroy =
    let c = destroy s.lock in some (record s { lock = c.lock; at = m_done (checked c.outcome) })
main s (m_done o) = none

pub data Step (s : State) : State → Type 0 where
  ones : {t : State} → thread1 s s.t1 ≡ some t → Step s t
  twos : {t : State} → thread2 s s.t2 ≡ some t → Step s t
  ends : {t : State} → s.cancelled ≡ true → cancels s s.t2 ≡ some t → Step s t
  mains : {t : State} → main s s.at ≡ some t → Step s t

-- After both `Pthread_create`.
abbrev pub created : State
created = record {
  lock = initializer;
  mutex_free = true;
  cancelled = false;
  t1 = t1_rdlock;
  t2 = t2_wrlock;
  at = m_join2;
}

pub data Reach : State → Type 0 where
  start : Reach created
  later : {s t : State} → Reach s → Step s t → Reach t

pub data Runs (s : State) : State → Type 0 where
  here : Runs s s
  more : {t u : State} → Runs s t → Step t u → Runs s u
