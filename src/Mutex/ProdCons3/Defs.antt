-- ===== src/Mutex/ProdCons3/Defs.antt =====
-- The two thread functions of codes/7.Mutex_ConditionVariable/prodcons3.c, a shared access or a call at a time.
use unpvol.Base.{ℕ, ◌+◌, ◌<◌, ◌≡◌, not, leb, ltb, ◌==◌, if◌then◌else◌, update, Option, none, some}
use unpvol.Mutex.Sync.{mutex_lock, mutex_unlock}

-- `shared`.
pub record Shared : Type 0 where
  pub mutex : ℕ
  pub buff : ℕ → ℕ
  pub nput : ℕ
  pub nval : ℕ

-- The next thing that a producer does.
pub data Put : Type 0 where
  p_lock p_test p_store p_nput p_nval p_unlock p_count p_exit_unlock p_returned : Put

-- The next thing that the consumer does.
pub data Get : Type 0 where
  c_head c_lock c_test c_unlock_ready c_unlock_again c_check c_returned : Get

-- After a step of a producer: the shared data, the next thing to do, and what was added to its own
-- count, `*((int *) arg)`.
pub record Produced : Type 0 where
  pub mem : Shared
  pub at : Put
  pub counted : ℕ

abbrev to : Shared → Put → Option Produced
to m p = some (record { mem = m; at = p; counted = 0 })

-- `produce`; `none` where the thread is blocked or has returned.
unfoldable pub produce : (nitems : ℕ) → Shared → Put → Option Produced
produce nitems m p_lock = elim (mutex_lock m.mutex) [
  | none ↦ none
  | some v ↦ to (record m { mutex = v }) p_test
]
produce nitems m p_test = to m (if leb nitems m.nput then p_exit_unlock else p_store)
produce nitems m p_exit_unlock = to (record m { mutex = mutex_unlock m.mutex }) p_returned
produce nitems m p_store = to (record m { buff = update m.buff m.nput m.nval }) p_nput
produce nitems m p_nput = to (record m { nput = m.nput + 1 }) p_nval
produce nitems m p_nval = to (record m { nval = m.nval + 1 }) p_unlock
produce nitems m p_unlock = to (record m { mutex = mutex_unlock m.mutex }) p_count
produce nitems m p_count = some (record { mem = m; at = p_lock; counted = 1 })
produce nitems m p_returned = none

-- `errors` counts the lines of the branch that has found a wrong value.
pub record Consumer : Type 0 where
  pub i : ℕ
  pub at : Get
  pub errors : ℕ

pub record Consumed : Type 0 where
  pub mem : Shared
  pub thread : Consumer

abbrev cto : Shared → Consumer → Get → Option Consumed
cto m c g = some (record { mem = m; thread = record c { at = g } })

-- `consume` with the loop of `consume_wait` inside it, from `c_lock` to `c_unlock_ready`.
unfoldable pub consume : (nitems : ℕ) → Shared → Consumer → Get → Option Consumed
consume nitems m c c_head = cto m c (if ltb c.i nitems then c_lock else c_returned)
consume nitems m c c_lock = elim (mutex_lock m.mutex) [
  | none ↦ none
  | some v ↦ cto (record m { mutex = v }) c c_test
]
consume nitems m c c_test = cto m c (if ltb c.i m.nput then c_unlock_ready else c_unlock_again)
consume nitems m c c_unlock_again = cto (record m { mutex = mutex_unlock m.mutex }) c c_lock
consume nitems m c c_unlock_ready = cto (record m { mutex = mutex_unlock m.mutex }) c c_check
consume nitems m c c_check = some (record {
  mem = m;
  thread = record {
    i = c.i + 1;
    at = c_head;
    errors = if not (m.buff c.i == c.i) then c.errors + 1 else c.errors;
  };
})
consume nitems m c c_returned = none

-- A producer with its count, `count[i]`.
pub record Thread : Type 0 where
  pub at : Put
  pub count : ℕ

pub record System : Type 0 where
  pub mem : Shared
  pub threads : ℕ → Thread
  pub c : Consumer

abbrev pub moved_on : Produced → Thread → Thread
moved_on l t = record { at = l.at; count = t.count + l.counted }

-- Of `n` producers and the consumer one takes a step.
pub data Step (nitems n : ℕ) (s : System) : System → Type 0 where
  produces :
      (i : ℕ) {l : Produced}
      → i < n
      → produce nitems s.mem (s.threads i).at ≡ some l
      → Step nitems n s
          (record s { mem = l.mem; threads = update s.threads i (moved_on l (s.threads i)) })
  consumes :
      {l : Consumed}
      → consume nitems s.mem s.c s.c.at ≡ some l
      → Step nitems n s (record s { mem = l.mem; c = l.thread })

-- `main` after the creation of the threads.
abbrev pub main : System
main = record {
  mem = record { mutex = 1; buff = λ _. 0; nput = 0; nval = 0 };
  threads = λ _. record { at = p_lock; count = 0 };
  c = record { i = 0; at = c_head; errors = 0 };
}

pub data Reach (nitems n : ℕ) : System → Type 0 where
  start : Reach nitems n main
  later : {s t : System} → Reach nitems n s → Step nitems n s t → Reach nitems n t
