-- ===== src/Counter/Loop.antt =====
-- The loop that codes/13.PosixSharedMemory/client1.c and codes/9.Record_Locking/lockmain.c share: take
-- a lock, read a number, write the next one, give the lock back. What they do differently is a `Cell`.
use unpvol.Base.{
  ℕ, ◌+◌, ◌<◌, ◌≤◌, ◌≡◌, ltb, if◌then◌else◌, Option, none, some, update, List, [], ◌∷◌,
}

-- Where the number, which is at most `top`, is kept and what guards it, as a program sees them. The
-- lock is the number of callers that may still take it; `none` is a caller that blocks.
pub record Cell : Type 1 where
  pub Contents : Type 0
  pub load : Contents → ℕ
  pub store : ℕ → Contents → Contents
  pub acquire : ℕ → Option ℕ
  pub release : ℕ → ℕ
  pub top : ℕ
  pub load-store : (v : ℕ) (c : Contents) → v ≤ top → load (store v c) ≡ v
  pub acquire_held : acquire 0 ≡ none
  pub acquire_free : (v : ℕ) → acquire (v + 1) ≡ some v
  pub releases : (v : ℕ) → release v ≡ v + 1

-- The next thing that a thread does.
pub data Pc : Type 0 where
  at_head at_acquire at_load at_store at_release at_return : Pc

-- `i` rounds are done; `reg` is what the thread has read.
pub record Thread : Type 0 where
  pub i : ℕ
  pub at : Pc
  pub reg : ℕ

module _ (C : Cell) where
  -- `found` are the numbers that the rounds have read and counted up, the newest first; `gate` is 1
  -- while the thread that made the others still has the lock.
  pub record Shared : Type 0 where
    pub lock : ℕ
    pub gate : ℕ
    pub contents : C.Contents
    pub found : List ℕ

  pub record Stepped : Type 0 where
    pub mem : Shared
    pub thread : Thread

  -- One step of the loop; `none` where the thread is blocked or has returned.
  unfoldable pub round : (nloop : ℕ) → Shared → Thread → Pc → Option Stepped
  round nloop m t at_head = some (record {
    mem = m;
    thread = record t { at = if ltb t.i nloop then at_acquire else at_return };
  })
  round nloop m t at_acquire = elim (C.acquire m.lock) [
    | none ↦ none
    | some v ↦ some (record { mem = record m { lock = v }; thread = record t { at = at_load } })
  ]
  round nloop m t at_load =
      some (record { mem = m; thread = record t { reg = C.load m.contents; at = at_store } })
  round nloop m t at_store = some (record {
    mem = record m { contents = C.store (t.reg + 1) m.contents; found = t.reg ∷ m.found };
    thread = record t { at = at_release };
  })
  round nloop m t at_release = some (record {
    mem = record m { lock = C.release m.lock };
    thread = record t { i = t.i + 1; at = at_head };
  })
  round nloop m t at_return = none

  pub record System : Type 0 where
    pub mem : Shared
    pub threads : ℕ → Thread

  -- Of `n` threads one takes a step, or the main thread gives the lock back.
  pub data Step (nloop n : ℕ) (s : System) : System → Type 0 where
    rounds :
        (i : ℕ) {l : Stepped}
        → i < n
        → round nloop s.mem (s.threads i) (s.threads i).at ≡ some l
        → Step nloop n s (record { mem = l.mem; threads = update s.threads i l.thread })
    opens :
        s.mem.gate ≡ 1
        → Step nloop n s (record s { mem = record s.mem { gate = 0; lock = C.release s.mem.lock } })

  -- The threads before their first round.
  abbrev pub first : (lock gate : ℕ) → C.Contents → System
  first lock gate c = record {
    mem = record { lock = lock; gate = gate; contents = c; found = [] };
    threads = λ _. record { i = 0; at = at_head; reg = 0 };
  }

  pub data Reach (nloop n lock gate : ℕ) (c : C.Contents) : System → Type 0 where
    start : Reach nloop n lock gate c (first lock gate c)
    later :
        {s t : System}
        → Reach nloop n lock gate c s
        → Step nloop n s t
        → Reach nloop n lock gate c t
