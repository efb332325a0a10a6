-- ===== src/Semaphore/ProdCons3/Defs.antt =====
-- The two thread functions of codes/10.Semaphore/prodcons3.c, a shared access or a call at a time.
use unpvol.Base.{
  ℕ, ◌+◌, ◌%◌, ◌<◌, ◌≡◌, not, leb, ltb, ◌==◌, if◌then◌else◌, update, Option, none, some,
}
use unpvol.Semaphore.Sem.{sem_wait, sem_post}

abbrev pub nbuff : ℕ
nbuff = 10

-- `shared`.
pub record Shared : Type 0 where
  pub buff : ℕ → ℕ
  pub nput : ℕ
  pub nputval : ℕ
  pub mutex : ℕ
  pub nempty : ℕ
  pub nstored : ℕ

-- The next thing that a producer does.
pub data Put : Type 0 where
  p_wait_empty p_wait_mutex p_test p_exit_empty p_exit_mutex p_store p_nput p_nputval p_post_mutex
        p_post_stored p_count p_returned :
      Put

-- The next thing that the consumer does.
pub data Get : Type 0 where
  c_head c_wait_stored c_wait_mutex c_check c_post_mutex c_post_empty c_returned : Get

-- After a step of a producer: the shared data, the next thing to do, and what was added to its own
-- count, `*((int *) arg)`.
pub record Produced : Type 0 where
  pub mem : Shared
  pub at : Put
  pub counted : ℕ

abbrev to : Shared → Put → Option Produced
to m p = some (record { mem = m; at = p; counted = 0 })

-- `produce`; `none` where the thread is blocked or has returned.
unfoldable pub produce : (nitems : ℕ) → Shared → Put → Option Produced
produce nitems m p_wait_empty = elim (sem_wait m.nempty) [
  | none ↦ none
  | some v ↦ to (record m { nempty = v }) p_wait_mutex
]
produce nitems m p_wait_mutex = elim (sem_wait m.mutex) [
  | none ↦ none
  | some v ↦ to (record m { mutex = v }) p_test
]
produce nitems m p_test = to m (if leb nitems m.nput then p_exit_empty else p_store)
produce nitems m p_exit_empty = to (record m { nempty = sem_post m.nempty }) p_exit_mutex
produce nitems m p_exit_mutex = to (record m { mutex = sem_post m.mutex }) p_returned
produce nitems m p_store = to (record m { buff = update m.buff (m.nput % nbuff) m.nputval }) p_nput
produce nitems m p_nput = to (record m { nput = m.nput + 1 }) p_nputval
produce nitems m p_nputval = to (record m { nputval = m.nputval + 1 }) p_post_mutex
produce nitems m p_post_mutex = to (record m { mutex = sem_post m.mutex }) p_post_stored
produce nitems m p_post_stored = to (record m { nstored = sem_post m.nstored }) p_count
produce nitems m p_count = some (record { mem = m; at = p_wait_empty; counted = 1 })
produce nitems m p_returned = none

-- `errors` counts the lines of the branch that has found a wrong value.
pub record Consumer : Type 0 where
  pub i : ℕ
  pub at : Get
  pub errors : ℕ

pub record Consumed : Type 0 where
  pub mem : Shared
  pub thread : Consumer

abbrev cto : Shared → Consumer → Get → Option Consumed
cto m c g = some (record { mem = m; thread = record c { at = g } })

-- `consume`
unfoldable pub consume : (nitems : ℕ) → Shared → Consumer → Get → Option Consumed
consume nitems m c c_head = cto m c (if ltb c.i nitems then c_wait_stored else c_returned)
consume nitems m c c_wait_stored = elim (sem_wait m.nstored) [
  | none ↦ none
  | some v ↦ cto (record m { nstored = v }) c c_wait_mutex
]
consume nitems m c c_wait_mutex = elim (sem_wait m.mutex) [
  | none ↦ none
  | some v ↦ cto (record m { mutex = v }) c c_check
]
consume nitems m c c_check = some (record {
  mem = m;
  thread = record c {
    at = c_post_mutex;
    errors = if not (m.buff (c.i % nbuff) == c.i) then c.errors + 1 else c.errors;
  };
})
consume nitems m c c_post_mutex = cto (record m { mutex = sem_post m.mutex }) c c_post_empty
consume nitems m c c_post_empty = some (record {
  mem = record m { nempty = sem_post m.nempty };
  thread = record c { at = c_head; i = c.i + 1 };
})
consume nitems m c c_returned = none

-- A producer with its count, `count[i]`.
pub record Thread : Type 0 where
  pub at : Put
  pub count : ℕ

pub record System : Type 0 where
  pub mem : Shared
  pub threads : ℕ → Thread
  pub c : Consumer

abbrev pub moved_on : Produced → Thread → Thread
moved_on l t = record { at = l.at; count = t.count + l.counted }

-- Of `n` producers and the consumer one takes a step.
pub data Step (nitems n : ℕ) (s : System) : System → Type 0 where
  produces :
      (i : ℕ) {l : Produced}
      → i < n
      → produce nitems s.mem (s.threads i).at ≡ some l
      → Step nitems n s
          (record s { mem = l.mem; threads = update s.threads i (moved_on l (s.threads i)) })
  consumes :
      {l : Consumed}
      → consume nitems s.mem s.c s.c.at ≡ some l
      → Step nitems n s (record s { mem = l.mem; c = l.thread })

-- `main` after the creation of the threads.
abbrev pub main : System
main = record {
  mem = record { buff = λ _. 0; nput = 0; nputval = 0; mutex = 1; nempty = nbuff; nstored = 0 };
  threads = λ _. record { at = p_wait_empty; count = 0 };
  c = record { i = 0; at = c_head; errors = 0 };
}

pub data Reach (nitems n : ℕ) : System → Type 0 where
  start : Reach nitems n main
  later : {s t : System} → Reach nitems n s → Step nitems n s t → Reach nitems n t
