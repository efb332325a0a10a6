-- ===== src/Semaphore/ProdCons2/Defs.antt =====
-- The two thread functions of prodcons2.c, a shared access or a call of a semaphore at a time.
use unpvol.Base.{
  ℕ, ◌+◌, ◌%◌, ◌≡◌, ltb, ◌==◌, if◌then◌else◌, Option, none, some, update, List, [], ◌∷◌,
}
use unpvol.Semaphore.Sem.{sem_wait, sem_post}

abbrev pub nbuff : ℕ
nbuff = 10

-- `shared`.
pub record Shared : Type 0 where
  pub buff : ℕ → ℕ
  pub mutex : ℕ
  pub nempty : ℕ
  pub nstored : ℕ

-- The next thing that the producer does.
pub data Put : Type 0 where
  p_head p_wait_empty p_wait_mutex p_store p_post_mutex p_post_stored p_returned : Put

-- The next thing that the consumer does.
pub data Get : Type 0 where
  c_head c_wait_stored c_wait_mutex c_check c_post_mutex c_post_empty c_returned : Get

pub record Producer : Type 0 where
  pub i : ℕ
  pub at : Put

-- What the consumer has printed, the newest first: `consumer get` lines with their value, and the
-- number of `buff[i] = v` lines.
pub record Consumer : Type 0 where
  pub i : ℕ
  pub at : Get
  pub got : List ℕ
  pub mismatches : ℕ

pub record Produced : Type 0 where
  pub mem : Shared
  pub thread : Producer

pub record Consumed : Type 0 where
  pub mem : Shared
  pub thread : Consumer

-- `produce`; `none` where the thread is blocked or has returned.
unfoldable pub produce : (nitems : ℕ) → Shared → (i : ℕ) → Put → Option Produced
produce nitems m i p_head = some (record {
  mem = m;
  thread = record { i = i; at = if ltb i nitems then p_wait_empty else p_returned };
})
produce nitems m i p_wait_empty = elim (sem_wait m.nempty) [
  | none ↦ none
  | some v ↦
      some (record { mem = record m { nempty = v }; thread = record { i = i; at = p_wait_mutex } })
]
produce nitems m i p_wait_mutex = elim (sem_wait m.mutex) [
  | none ↦ none
  | some v ↦ some (record { mem = record m { mutex = v }; thread = record { i = i; at = p_store } })
]
produce nitems m i p_store = some (record {
  mem = record m { buff = update m.buff (i % nbuff) i };
  thread = record { i = i; at = p_post_mutex };
})
produce nitems m i p_post_mutex = some (record {
  mem = record m { mutex = sem_post m.mutex };
  thread = record { i = i; at = p_post_stored };
})
produce nitems m i p_post_stored = some (record {
  mem = record m { nstored = sem_post m.nstored };
  thread = record { i = i + 1; at = p_head };
})
produce nitems m i p_returned = none

-- `consume`
unfoldable pub consume : (nitems : ℕ) → Shared → Consumer → Get → Option Consumed
consume nitems m c c_head = some (record {
  mem = m;
  thread = record c { at = if ltb c.i nitems then c_wait_stored else c_returned };
})
consume nitems m c c_wait_stored = elim (sem_wait m.nstored) [
  | none ↦ none
  | some v ↦
      some (record { mem = record m { nstored = v }; thread = record c { at = c_wait_mutex } })
]
consume nitems m c c_wait_mutex = elim (sem_wait m.mutex) [
  | none ↦ none
  | some v ↦ some (record { mem = record m { mutex = v }; thread = record c { at = c_check } })
]
consume nitems m c c_check = some (record {
  mem = m;
  thread =
      if m.buff (c.i % nbuff) == c.i
      then record c { at = c_post_mutex; got = m.buff (c.i % nbuff) ∷ c.got }
      else record c { at = c_post_mutex; mismatches = c.mismatches + 1 };
})
consume nitems m c c_post_mutex = some (record {
  mem = record m { mutex = sem_post m.mutex };
  thread = record c { at = c_post_empty };
})
consume nitems m c c_post_empty = some (record {
  mem = record m { nempty = sem_post m.nempty };
  thread = record c { at = c_head; i = c.i + 1 };
})
consume nitems m c c_returned = none

pub record System : Type 0 where
  pub mem : Shared
  pub p : Producer
  pub c : Consumer

pub data Step (nitems : ℕ) (s : System) : System → Type 0 where
  produces :
      {l : Produced}
      → produce nitems s.mem s.p.i s.p.at ≡ some l
      → Step nitems s (record s { mem = l.mem; p = l.thread })
  consumes :
      {l : Consumed}
      → consume nitems s.mem s.c s.c.at ≡ some l
      → Step nitems s (record s { mem = l.mem; c = l.thread })

-- `main` after the creation of the two threads.
abbrev pub main : System
main = record {
  mem = record { buff = λ _. 0; mutex = 1; nempty = nbuff; nstored = 0 };
  p = record { i = 0; at = p_head };
  c = record { i = 0; at = c_head; got = []; mismatches = 0 };
}

pub data Reach (nitems : ℕ) : System → Type 0 where
  start : Reach nitems main
  later : {s t : System} → Reach nitems s → Step nitems s t → Reach nitems t
