-- ===== src/Mutex/ProdCons6/Defs.antt =====
-- The two thread functions of prodcons6.c, a shared access or a pthread call at a time.
use unpvol.Base.{
  ℕ, ◌+◌, ◌-◌, ◌<◌, ◌≡◌, Bool, true, false, not, ltb, leb, ◌==◌, if◌then◌else◌, Option, none, some,
  update,
}
use unpvol.Mutex.Sync.{mutex_lock, mutex_unlock}

-- `buff`, `put` and `nready`, each of the two with its mutex.
pub record Shared : Type 0 where
  pub buff : ℕ → ℕ
  pub put_mutex : ℕ
  pub nput : ℕ
  pub nval : ℕ
  pub ready_mutex : ℕ
  pub nready : ℕ

-- The next thing that a producer does.
pub data Put : Type 0 where
  p_lock_put p_test p_store p_nput p_nval p_unlock_put p_lock_ready p_signal p_incr : Put
  p_unlock_ready p_count p_exit_unlock p_returned : Put

-- The next thing that the consumer does; `c_asleep` is inside `pthread_cond_wait` and holds
-- nothing, `c_relock` is woken and about to take the mutex again.
pub data Get : Type 0 where
  c_head c_lock c_while c_asleep c_relock c_decr c_unlock c_check c_returned : Get

-- After a step of a producer: the shared data, the next thing to do, what was added to its own
-- count, and whether it has signalled.
pub record Produced : Type 0 where
  pub mem : Shared
  pub at : Put
  pub counted : ℕ
  pub signals : Bool

abbrev to : Shared → Put → Option Produced
to m p = some (record { mem = m; at = p; counted = 0; signals = false })

-- `produce`; `none` where the thread is blocked or has returned.
unfoldable pub produce : (nitems : ℕ) → Shared → Put → Option Produced
produce nitems m p_lock_put = elim (mutex_lock m.put_mutex) [
  | none ↦ none
  | some v ↦ to (record m { put_mutex = v }) p_test
]
produce nitems m p_test = to m (if leb nitems m.nput then p_exit_unlock else p_store)
produce nitems m p_exit_unlock = to (record m { put_mutex = mutex_unlock m.put_mutex }) p_returned
produce nitems m p_store = to (record m { buff = update m.buff m.nput m.nval }) p_nput
produce nitems m p_nput = to (record m { nput = m.nput + 1 }) p_nval
produce nitems m p_nval = to (record m { nval = m.nval + 1 }) p_unlock_put
produce nitems m p_unlock_put = to (record m { put_mutex = mutex_unlock m.put_mutex }) p_lock_ready
produce nitems m p_lock_ready = elim (mutex_lock m.ready_mutex) [
  | none ↦ none
  | some v ↦ to (record m { ready_mutex = v }) p_signal
]
produce nitems m p_signal =
    some (record { mem = m; at = p_incr; counted = 0; signals = m.nready == 0 })
produce nitems m p_incr = to (record m { nready = m.nready + 1 }) p_unlock_ready
produce nitems m p_unlock_ready = to (record m { ready_mutex = mutex_unlock m.ready_mutex }) p_count
produce nitems m p_count = some (record { mem = m; at = p_lock_put; counted = 1; signals = false })
produce nitems m p_returned = none

pub record Consumer : Type 0 where
  pub i : ℕ
  pub at : Get
  pub errors : ℕ

pub record Consumed : Type 0 where
  pub mem : Shared
  pub thread : Consumer

abbrev cto : Shared → Consumer → Get → Option Consumed
cto m c g = some (record { mem = m; thread = record c { at = g } })

-- `consume`. A consumer asleep goes on only when it is woken.
unfoldable pub consume : (nitems : ℕ) → Shared → Consumer → Get → Option Consumed
consume nitems m c c_head = cto m c (if ltb c.i nitems then c_lock else c_returned)
consume nitems m c c_lock = elim (mutex_lock m.ready_mutex) [
  | none ↦ none
  | some v ↦ cto (record m { ready_mutex = v }) c c_while
]
consume nitems m c c_while =
    if m.nready == 0
    then cto (record m { ready_mutex = mutex_unlock m.ready_mutex }) c c_asleep
    else cto m c c_decr
consume nitems m c c_asleep = none
consume nitems m c c_relock = elim (mutex_lock m.ready_mutex) [
  | none ↦ none
  | some v ↦ cto (record m { ready_mutex = v }) c c_while
]
consume nitems m c c_decr = cto (record m { nready = m.nready - 1 }) c c_unlock
consume nitems m c c_unlock = cto (record m { ready_mutex = mutex_unlock m.ready_mutex }) c c_check
consume nitems m c c_check = some (record {
  mem = m;
  thread = record {
    i = c.i + 1;
    at = c_head;
    errors = if not (m.buff c.i == c.i) then c.errors + 1 else c.errors;
  };
})
consume nitems m c c_returned = none

-- What a signal does to the consumer.
abbrev pub wake : Bool → Get → Get
wake true c_asleep = c_relock
wake true c_head = c_head
wake true c_lock = c_lock
wake true c_while = c_while
wake true c_relock = c_relock
wake true c_decr = c_decr
wake true c_unlock = c_unlock
wake true c_check = c_check
wake true c_returned = c_returned
wake false g = g

-- A producer with its count, `count[i]`.
pub record Thread : Type 0 where
  pub at : Put
  pub count : ℕ

pub record System : Type 0 where
  pub mem : Shared
  pub threads : ℕ → Thread
  pub c : Consumer

abbrev pub moved_on : Produced → Thread → Thread
moved_on l t = record { at = l.at; count = t.count + l.counted }

-- Of `n` producers and the consumer one takes a step, or the consumer wakes spuriously.
pub data Step (nitems n : ℕ) (s : System) : System → Type 0 where
  produces :
      (i : ℕ) {l : Produced}
      → i < n
      → produce nitems s.mem (s.threads i).at ≡ some l
      → Step nitems n s (record {
        mem = l.mem;
        threads = update s.threads i (moved_on l (s.threads i));
        c = record { i = s.c.i; at = wake l.signals s.c.at; errors = s.c.errors };
      })
  consumes :
      {l : Consumed}
      → consume nitems s.mem s.c s.c.at ≡ some l
      → Step nitems n s (record s { mem = l.mem; c = l.thread })
  spurious :
      s.c.at ≡ c_asleep
      → Step nitems n s (record s { c = record { i = s.c.i; at = c_relock; errors = s.c.errors } })

-- `main` after the creation of the threads.
abbrev pub main : System
main = record {
  mem = record { buff = λ _. 0; put_mutex = 1; nput = 0; nval = 0; ready_mutex = 1; nready = 0 };
  threads = λ _. record { at = p_lock_put; count = 0 };
  c = record { i = 0; at = c_head; errors = 0 };
}

pub data Reach (nitems nthreads : ℕ) : System → Type 0 where
  start : Reach nitems nthreads main
  later :
      {s t : System} → Reach nitems nthreads s → Step nitems nthreads s t → Reach nitems nthreads t
