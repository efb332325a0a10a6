-- ===== src/Rwlock/Defs.antt =====
-- codes/8.Read_Write_Locks/my_rwlock/pthread_rwlock*.c: the read-write lock and its operations.
--
-- A pthread call's result is an argument of the operation that makes the call. A blocking
-- operation is written as the stretches of code between two points at which the thread holds no
-- `rw_mutex`: from the call to the first `pthread_cond_wait` or to the return (`rdlock`,
-- `wrlock`), and from the return of `pthread_cond_wait` on (`rdlock_resume`, `wrlock_resume`).
use unpvol.Base.{
  ℕ, zero, suc, Bool, true, false, ◌||◌, not, ◌==◌, if◌then◌else◌, ℤ, pos, negsuc, ◌+ℤ◌, ◌-ℤ◌,
  is_neg, is_pos, is_zero, is_minus_one,
}

-- `my_pthread_rwlock_t`. Of the mutex and the condition variables it is recorded whether they are
-- initialised; who holds the mutex and who waits is the concern of the system of threads.
pub record Rwlock : Type 0 where
  pub mutex : Bool
  pub condreaders : Bool
  pub condwriters : Bool
  pub magic : ℕ
  pub nwaitreaders : ℤ
  pub nwaitwriters : ℤ
  pub refcount : ℤ

abbrev pub rw_magic : ℕ
rw_magic = 0x19283746

-- The values of <errno.h>.
abbrev pub einval : ℕ
einval = 22

abbrev pub ebusy : ℕ
ebusy = 16

-- PTHREAD_RWLOCK_INITIALIZER
abbrev pub initializer : Rwlock
initializer = record {
  mutex = true;
  condreaders = true;
  condwriters = true;
  magic = rw_magic;
  nwaitreaders = pos 0;
  nwaitwriters = pos 0;
  refcount = pos 0;
}

-- Where an operation leaves its caller: returned with a result, inside `pthread_cond_wait` on one
-- of the two condition variables, or in `exit(1)`.
pub data Outcome : Type 0 where
  returned : ℕ → Outcome
  waits_readers : Outcome
  waits_writers : Outcome
  exited : Outcome

-- The call that `unlock` makes on a condition variable.
pub data Wake : Type 0 where
  no_wake : Wake
  signal_writer : Wake
  broadcast_readers : Wake

pub record Call : Type 0 where
  pub lock : Rwlock
  pub outcome : Outcome

-- `my_pthread_rwlock_init`: `m`, `r` and `w` are the results of the three pthread inits, of which
-- one that fails leaves its object as it was. The labels err3, err2 and err1 are the nested arms.
unfoldable pub init : Rwlock → (attr_is_null : Bool) → (m r w : ℕ) → Call
init rw attr_is_null m r w =
    if not attr_is_null
    then record { lock = rw; outcome = returned einval }
    else if not (m == 0)
    then record { lock = rw; outcome = returned m }
    else if not (r == 0)
    then record { lock = record rw { mutex = false }; outcome = returned r }
    else if not (w == 0)
    then record { lock = record rw { mutex = false; condreaders = false }; outcome = returned w }
    else record {
      lock = record {
        mutex = true;
        condreaders = true;
        condwriters = true;
        nwaitreaders = pos 0;
        nwaitwriters = pos 0;
        refcount = pos 0;
        magic = rw_magic;
      };
      outcome = returned 0;
    }

-- `my_pthread_rwlock_destroy`. It takes no mutex: this is its run on a lock that no thread is changing.
unfoldable pub destroy : Rwlock → Call
destroy rw =
    if not (rw.magic == rw_magic)
    then record { lock = rw; outcome = returned einval }
    else if not (is_zero rw.refcount)
        || (not (is_zero rw.nwaitreaders) || not (is_zero rw.nwaitwriters))
    then record { lock = rw; outcome = returned ebusy }
    else record {
      lock = record rw { mutex = false; condreaders = false; condwriters = false; magic = 0 };
      outcome = returned 0;
    }

-- The head of the loop of `my_pthread_rwlock_rdlock`, where `result` is 0, up to the next
-- `pthread_cond_wait` or to the return.
unfoldable pub rdlock_loop : Rwlock → Call
rdlock_loop rw =
    if is_neg rw.refcount || is_pos rw.nwaitwriters
    then record {
      lock = record rw { nwaitreaders = rw.nwaitreaders +ℤ pos 1 };
      outcome = waits_readers;
    }
    else record { lock = record rw { refcount = rw.refcount +ℤ pos 1 }; outcome = returned 0 }

-- `my_pthread_rwlock_rdlock` from its call; `locked` is the result of `pthread_mutex_lock`.
unfoldable pub rdlock : Rwlock → (locked : ℕ) → Call
unfolding rdlock_loop
rdlock rw locked =
    if not (rw.magic == rw_magic)
    then record { lock = rw; outcome = returned einval }
    else if not (locked == 0)
    then record { lock = rw; outcome = returned locked }
    else rdlock_loop rw

-- `my_pthread_rwlock_rdlock` from the return of `pthread_cond_wait` with `result`.
unfoldable pub rdlock_resume : Rwlock → (result : ℕ) → Call
unfolding rdlock_loop
rdlock_resume rw result =
    let rw' = record rw { nwaitreaders = rw.nwaitreaders -ℤ pos 1 } in
    if not (result == 0) then record { lock = rw'; outcome = returned result } else rdlock_loop rw'

-- The head of the loop of `my_pthread_rwlock_wrlock`, where `result` is 0.
unfoldable pub wrlock_loop : Rwlock → Call
wrlock_loop rw =
    if not (is_zero rw.refcount)
    then record {
      lock = record rw { nwaitwriters = rw.nwaitwriters +ℤ pos 1 };
      outcome = waits_writers;
    }
    else record { lock = record rw { refcount = negsuc 0 }; outcome = returned 0 }

-- `my_pthread_rwlock_wrlock` from its call.
unfoldable pub wrlock : Rwlock → (locked : ℕ) → Call
unfolding wrlock_loop
wrlock rw locked =
    if not (rw.magic == rw_magic)
    then record { lock = rw; outcome = returned einval }
    else if not (locked == 0)
    then record { lock = rw; outcome = returned locked }
    else wrlock_loop rw

-- `my_pthread_rwlock_wrlock` from the return of `pthread_cond_wait` with `result`.
unfoldable pub wrlock_resume : Rwlock → (result : ℕ) → Call
unfolding wrlock_loop
wrlock_resume rw result =
    let rw' = record rw { nwaitwriters = rw.nwaitwriters -ℤ pos 1 } in
    if not (result == 0) then record { lock = rw'; outcome = returned result } else wrlock_loop rw'

-- `my_pthread_rwlock_tryrdlock`
unfoldable pub tryrdlock : Rwlock → (locked : ℕ) → Call
tryrdlock rw locked =
    if not (rw.magic == rw_magic)
    then record { lock = rw; outcome = returned einval }
    else if not (locked == 0)
    then record { lock = rw; outcome = returned locked }
    else if is_neg rw.refcount || is_pos rw.nwaitwriters
    then record { lock = rw; outcome = returned ebusy }
    else record { lock = record rw { refcount = rw.refcount +ℤ pos 1 }; outcome = returned 0 }

-- `my_pthread_rwlock_trywrlock`
unfoldable pub trywrlock : Rwlock → (locked : ℕ) → Call
trywrlock rw locked =
    if not (rw.magic == rw_magic)
    then record { lock = rw; outcome = returned einval }
    else if not (locked == 0)
    then record { lock = rw; outcome = returned locked }
    else if not (is_zero rw.refcount)
    then record { lock = rw; outcome = returned ebusy }
    else record { lock = record rw { refcount = negsuc 0 }; outcome = returned 0 }

pub record Unlock : Type 0 where
  pub lock : Rwlock
  pub wake : Wake
  pub outcome : Outcome

-- The second half of `my_pthread_rwlock_unlock`: whom to wake; `signalled` and `broadcasted` are
-- the results of the two calls on the condition variables.
unfoldable pub unlock_wake : Rwlock → (signalled broadcasted : ℕ) → Unlock
unlock_wake rw signalled broadcasted =
    if is_pos rw.nwaitwriters
    then (if is_zero rw.refcount
        then record { lock = rw; wake = signal_writer; outcome = returned signalled }
        else record { lock = rw; wake = no_wake; outcome = returned 0 })
    else if is_pos rw.nwaitreaders
    then record { lock = rw; wake = broadcast_readers; outcome = returned broadcasted }
    else record { lock = rw; wake = no_wake; outcome = returned 0 }

-- `my_pthread_rwlock_unlock`
unfoldable pub unlock : Rwlock → (locked signalled broadcasted : ℕ) → Unlock
unfolding unlock_wake
unlock rw locked signalled broadcasted =
    if not (rw.magic == rw_magic)
    then record { lock = rw; wake = no_wake; outcome = returned einval }
    else if not (locked == 0)
    then record { lock = rw; wake = no_wake; outcome = returned locked }
    else if is_pos rw.refcount
    then unlock_wake (record rw { refcount = rw.refcount -ℤ pos 1 }) signalled broadcasted
    else if is_minus_one rw.refcount
    then unlock_wake (record rw { refcount = pos 0 }) signalled broadcasted
    else record { lock = rw; wake = no_wake; outcome = exited }

-- The wrappers `Pthread_rwlock_*`: a result other than 0 is an error, which exits the program.
-- A call that waits is still inside the wrapped function.
unfoldable pub checked : Outcome → Outcome
checked (returned zero) = returned zero
checked (returned (suc n)) = exited
checked waits_readers = waits_readers
checked waits_writers = waits_writers
checked exited = exited
