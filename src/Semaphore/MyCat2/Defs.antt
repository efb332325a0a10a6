-- ===== src/Semaphore/MyCat2/Defs.antt =====
-- The two thread functions of mycat2.c, a shared access, a system call or a call of a semaphore at
-- a time. What `read` answers is not the program's: the k-th answer, the bytes that it leaves in
-- the buffer and its result, is `input k`.
use unpvol.Base.{
  ℕ, ◌+◌, ◌≡◌, leb, if◌then◌else◌, Option, none, some, update, List, [], ℤ, pos, is_zero,
}
use unpvol.Semaphore.Sem.{sem_wait, sem_post}

abbrev pub nbuff : ℕ
nbuff = 8

-- One of the buffers of `shared.buff`: its bytes and the count that `read` returned.
pub record Buffer : Type 0 where
  pub bytes : List ℕ
  pub n : ℤ

pub record Shared : Type 0 where
  pub buff : ℕ → Buffer
  pub mutex : ℕ
  pub nempty : ℕ
  pub nstored : ℕ

pub data Put : Type 0 where
  p_wait_empty p_wait_mutex p_post_mutex p_read p_test p_post_stored p_post_last p_returned : Put

pub data Get : Type 0 where
  c_wait_stored c_wait_mutex c_post_mutex c_test c_write c_next c_post_empty c_returned : Get

-- The producer's local `i`, and how often it has called `read`.
pub record Producer : Type 0 where
  pub i : ℕ
  pub at : Put
  pub reads : ℕ

-- The consumer's local `i`, and the buffers that it has handed to `write`: the k-th is `out k`.
pub record Consumer : Type 0 where
  pub i : ℕ
  pub at : Get
  pub writes : ℕ
  pub out : ℕ → Buffer

pub record Produced : Type 0 where
  pub mem : Shared
  pub thread : Producer

pub record Consumed : Type 0 where
  pub mem : Shared
  pub thread : Consumer

-- `if (++i >= NBUFF) i = 0`
abbrev pub next_buff : ℕ → ℕ
next_buff i = if leb nbuff (i + 1) then 0 else i + 1

-- `produce`; `none` where the thread is blocked or has returned.
unfoldable pub produce : (input : ℕ → Buffer) → Shared → Producer → Put → Option Produced
produce input m p p_wait_empty = elim (sem_wait m.nempty) [
  | none ↦ none
  | some v ↦
      some (record { mem = record m { nempty = v }; thread = record p { at = p_wait_mutex } })
]
produce input m p p_wait_mutex = elim (sem_wait m.mutex) [
  | none ↦ none
  | some v ↦ some (record { mem = record m { mutex = v }; thread = record p { at = p_post_mutex } })
]
produce input m p p_post_mutex =
    some (record { mem = record m { mutex = sem_post m.mutex }; thread = record p { at = p_read } })
produce input m p p_read = some (record {
  mem = record m { buff = update m.buff p.i (input p.reads) };
  thread = record p { at = p_test; reads = p.reads + 1 };
})
produce input m p p_test = some (record {
  mem = m;
  thread =
      if is_zero (m.buff p.i).n
      then record p { at = p_post_last }
      else record p { at = p_post_stored; i = next_buff p.i };
})
produce input m p p_post_stored = some (record {
  mem = record m { nstored = sem_post m.nstored };
  thread = record p { at = p_wait_empty };
})
produce input m p p_post_last = some (record {
  mem = record m { nstored = sem_post m.nstored };
  thread = record p { at = p_returned };
})
produce input m p p_returned = none

-- `consume`
unfoldable pub consume : Shared → Consumer → Get → Option Consumed
consume m c c_wait_stored = elim (sem_wait m.nstored) [
  | none ↦ none
  | some v ↦
      some (record { mem = record m { nstored = v }; thread = record c { at = c_wait_mutex } })
]
consume m c c_wait_mutex = elim (sem_wait m.mutex) [
  | none ↦ none
  | some v ↦ some (record { mem = record m { mutex = v }; thread = record c { at = c_post_mutex } })
]
consume m c c_post_mutex =
    some (record { mem = record m { mutex = sem_post m.mutex }; thread = record c { at = c_test } })
consume m c c_test = some (record {
  mem = m;
  thread = record c { at = if is_zero (m.buff c.i).n then c_returned else c_write };
})
consume m c c_write = some (record {
  mem = m;
  thread = record c {
    at = c_next;
    writes = c.writes + 1;
    out = update c.out c.writes (m.buff c.i);
  };
})
consume m c c_next =
    some (record { mem = m; thread = record c { at = c_post_empty; i = next_buff c.i } })
consume m c c_post_empty = some (record {
  mem = record m { nempty = sem_post m.nempty };
  thread = record c { at = c_wait_stored };
})
consume m c c_returned = none

pub record System : Type 0 where
  pub mem : Shared
  pub p : Producer
  pub c : Consumer

pub data Step (input : ℕ → Buffer) (s : System) : System → Type 0 where
  produces :
      {l : Produced}
      → produce input s.mem s.p s.p.at ≡ some l
      → Step input s (record s { mem = l.mem; p = l.thread })
  consumes :
      {l : Consumed}
      → consume s.mem s.c s.c.at ≡ some l
      → Step input s (record s { mem = l.mem; c = l.thread })

abbrev pub no_bytes : Buffer
no_bytes = record { bytes = []; n = pos 0 }

-- `main` after the creation of the two threads.
abbrev pub main : System
main = record {
  mem = record { buff = λ _. no_bytes; mutex = 1; nempty = nbuff; nstored = 0 };
  p = record { i = 0; at = p_wait_empty; reads = 0 };
  c = record { i = 0; at = c_wait_stored; writes = 0; out = λ _. no_bytes };
}

pub data Reach (input : ℕ → Buffer) : System → Type 0 where
  start : Reach input main
  later : {s t : System} → Reach input s → Step input s t → Reach input t
