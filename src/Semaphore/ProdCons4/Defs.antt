-- ===== src/Semaphore/ProdCons4/Defs.antt =====
-- The two thread functions of prodcons4.c, a shared access or a call of a semaphore at a time.
use unpvol.Base.{
  ℕ, ◌+◌, ◌%◌, ◌<◌, ◌≡◌, not, leb, ltb, ◌==◌, if◌then◌else◌, Option, none, some, update,
}
use unpvol.Semaphore.Sem.{sem_wait, sem_post}

abbrev pub nbuff : ℕ
nbuff = 10

-- `shared`, and how many times a consumer has printed an error.
pub record Shared : Type 0 where
  pub buff : ℕ → ℕ
  pub nput : ℕ
  pub nputval : ℕ
  pub nget : ℕ
  pub ngetval : ℕ
  pub mutex : ℕ
  pub nempty : ℕ
  pub nstored : ℕ
  pub errors : ℕ

-- The next thing that a thread does: `p_` in `produce`, `c_` in `consume`.
pub data Pc : Type 0 where
  p_wait_empty p_wait_mutex p_test p_store p_nput p_nputval p_post_mutex p_post_stored p_count : Pc
  p_exit_stored p_exit_empty p_exit_mutex p_returned : Pc
  c_wait_stored c_wait_mutex c_test c_fetch c_nget c_ngetval c_post_mutex c_post_empty c_count : Pc
  c_exit_stored c_exit_mutex c_returned : Pc

-- After a step: the shared data, the next thing to do, and what was added to the thread's own
-- count, `*((int *) arg)`.
pub record Local : Type 0 where
  pub mem : Shared
  pub pc : Pc
  pub counted : ℕ

abbrev to : Shared → Pc → Option Local
to m p = some (record { mem = m; pc = p; counted = 0 })

-- `produce`; `none` where the thread is blocked or has returned.
unfoldable pub produce : (nitems : ℕ) → Shared → Pc → Option Local
produce nitems m p_wait_empty = elim (sem_wait m.nempty) [
  | none ↦ none
  | some v ↦ to (record m { nempty = v }) p_wait_mutex
]
produce nitems m p_wait_mutex = elim (sem_wait m.mutex) [
  | none ↦ none
  | some v ↦ to (record m { mutex = v }) p_test
]
produce nitems m p_test = to m (if leb nitems m.nput then p_exit_stored else p_store)
produce nitems m p_exit_stored = to (record m { nstored = sem_post m.nstored }) p_exit_empty
produce nitems m p_exit_empty = to (record m { nempty = sem_post m.nempty }) p_exit_mutex
produce nitems m p_exit_mutex = to (record m { mutex = sem_post m.mutex }) p_returned
produce nitems m p_store = to (record m { buff = update m.buff (m.nput % nbuff) m.nputval }) p_nput
produce nitems m p_nput = to (record m { nput = m.nput + 1 }) p_nputval
produce nitems m p_nputval = to (record m { nputval = m.nputval + 1 }) p_post_mutex
produce nitems m p_post_mutex = to (record m { mutex = sem_post m.mutex }) p_post_stored
produce nitems m p_post_stored = to (record m { nstored = sem_post m.nstored }) p_count
produce nitems m p_count = some (record { mem = m; pc = p_wait_empty; counted = 1 })
produce nitems m _ = none

-- `consume`
unfoldable pub consume : (nitems : ℕ) → Shared → Pc → Option Local
consume nitems m c_wait_stored = elim (sem_wait m.nstored) [
  | none ↦ none
  | some v ↦ to (record m { nstored = v }) c_wait_mutex
]
consume nitems m c_wait_mutex = elim (sem_wait m.mutex) [
  | none ↦ none
  | some v ↦ to (record m { mutex = v }) c_test
]
consume nitems m c_test = to m (if leb nitems m.nget then c_exit_stored else c_fetch)
consume nitems m c_exit_stored = to (record m { nstored = sem_post m.nstored }) c_exit_mutex
consume nitems m c_exit_mutex = to (record m { mutex = sem_post m.mutex }) c_returned
consume nitems m c_fetch =
    to
      (record m {
        errors = if not (m.buff (m.nget % nbuff) == m.ngetval) then m.errors + 1 else m.errors;
      })
      c_nget
consume nitems m c_nget = to (record m { nget = m.nget + 1 }) c_ngetval
consume nitems m c_ngetval = to (record m { ngetval = m.ngetval + 1 }) c_post_mutex
consume nitems m c_post_mutex = to (record m { mutex = sem_post m.mutex }) c_post_empty
consume nitems m c_post_empty = to (record m { nempty = sem_post m.nempty }) c_count
consume nitems m c_count = some (record { mem = m; pc = c_wait_stored; counted = 1 })
consume nitems m _ = none

-- A thread with its count: `prodcount[i]` or `conscount[i]`.
pub record Thread : Type 0 where
  pub at : Pc
  pub count : ℕ

pub record System : Type 0 where
  pub mem : Shared
  pub threads : ℕ → Thread

abbrev pub after : System → ℕ → Local → System
after s i l = record {
  mem = l.mem;
  threads = update s.threads i (record { at = l.pc; count = (s.threads i).count + l.counted });
}

-- Of `n` threads one takes a step of the function that it is in.
pub data Step (nitems n : ℕ) (s : System) : System → Type 0 where
  produces :
      (i : ℕ) {l : Local}
      → i < n
      → produce nitems s.mem (s.threads i).at ≡ some l
      → Step nitems n s (after s i l)
  consumes :
      (i : ℕ) {l : Local}
      → i < n
      → consume nitems s.mem (s.threads i).at ≡ some l
      → Step nitems n s (after s i l)

-- `main` after the creation of the threads: `shared` is zero but for the semaphores.
abbrev pub main : (nproducers nconsumers : ℕ) → System
main nproducers nconsumers = record {
  mem = record {
    buff = λ _. 0;
    nput = 0;
    nputval = 0;
    nget = 0;
    ngetval = 0;
    mutex = 1;
    nempty = nbuff;
    nstored = 0;
    errors = 0;
  };
  threads = λ i.
      if ltb i nproducers
      then record { at = p_wait_empty; count = 0 }
      else record { at = c_wait_stored; count = 0 };
}

pub data Reach (nitems nproducers nconsumers : ℕ) : System → Type 0 where
  start : Reach nitems nproducers nconsumers (main nproducers nconsumers)
  later :
      {s t : System}
      → Reach nitems nproducers nconsumers s
      → Step nitems (nproducers + nconsumers) s t
      → Reach nitems nproducers nconsumers t
