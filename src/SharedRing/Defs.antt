-- ===== src/SharedRing/Defs.antt =====
-- The loops of a client and of the server, a shared access or a semaphore call at a time. A text
-- is written and printed as a whole; that of client `j` in its round `i` is the pair of `j` and `i`.
use unpvol.Base.{
  ℕ, ◌%◌, ◌^◌, ◌+◌, ◌*◌, ◌<◌, ◌≡◌, leb, ltb, ◌==◌, if◌then◌else◌, Option, none, some, update,
}
use unpvol.Semaphore.Sem.{sem_wait, sem_post}

abbrev pub mesgsize : ℕ
mesgsize = 256

abbrev pub nmesg : ℕ
nmesg = 16

abbrev pub Message : Type 0
Message = ℕ × ℕ

-- `struct shmstruct`; a text that was never written is `none`.
pub record Shmstruct : Type 0 where
  pub mutex : ℕ
  pub nempty : ℕ
  pub nstored : ℕ
  pub nput : ℕ
  pub noverflow : ℕ
  pub noverflowmutex : ℕ
  pub msgoff : ℕ → ℕ
  pub msgdata : ℕ → Option Message

-- The next thing that a client does.
pub data Send : Type 0 where
  k_trywait k_wait_overflow k_overflow k_post_overflow : Send
  k_wait_mutex k_offset k_post_mutex k_copy k_post_stored k_returned : Send

-- A client's locals, and what it has copied into the ring so far: `sent` texts, the k-th of which
-- is that of its round `log k`.
pub record Client : Type 0 where
  pub i : ℕ
  pub at : Send
  pub offset : ℕ
  pub sent : ℕ
  pub log : ℕ → ℕ

-- The next thing that the server does.
pub data Receive : Type 0 where
  s_wait_stored s_wait_mutex s_print s_post_mutex s_post_empty : Receive
  s_wait_overflow s_overflow s_post_overflow s_report : Receive

-- The server's locals, and what it has printed: `printed` texts, the k-th of which is `out k`, and
-- the number of its `noverflow = …` lines.
pub record Server : Type 0 where
  pub index : ℕ
  pub at : Receive
  pub lastnoverflow : ℕ
  pub temp : ℕ
  pub printed : ℕ
  pub out : ℕ → Option Message
  pub reports : ℕ

pub record Sent : Type 0 where
  pub mem : Shmstruct
  pub client : Client

pub record Received : Type 0 where
  pub mem : Shmstruct
  pub server : Server

-- The head of the loop of round `i`.
abbrev round : (nloop i : ℕ) → Client → Client
round nloop i c = record c { i = i; at = if ltb i nloop then k_trywait else k_returned }

-- `++n >= NMESG ? 0 : n`
abbrev pub next_slot : ℕ → ℕ
next_slot n = if leb nmesg (n + 1) then 0 else n + 1

-- `main` of client2.c from its loop on, as client `j`; `none` where it is blocked or has ended.
unfoldable pub client : (nloop j : ℕ) → Shmstruct → Client → Send → Option Sent
client nloop j m c k_trywait = elim (sem_wait m.nempty) [
  | none ↦ some (record { mem = m; client = record c { at = k_wait_overflow } })
  | some v ↦
      some (record { mem = record m { nempty = v }; client = record c { at = k_wait_mutex } })
]
client nloop j m c k_wait_overflow = elim (sem_wait m.noverflowmutex) [
  | none ↦ none
  | some v ↦
      some (record { mem = record m { noverflowmutex = v }; client = record c { at = k_overflow } })
]
client nloop j m c k_overflow = some (record {
  mem = record m { noverflow = m.noverflow + 1 };
  client = record c { at = k_post_overflow };
})
client nloop j m c k_post_overflow = some (record {
  mem = record m { noverflowmutex = sem_post m.noverflowmutex };
  client = round nloop (c.i + 1) c;
})
client nloop j m c k_wait_mutex = elim (sem_wait m.mutex) [
  | none ↦ none
  | some v ↦ some (record { mem = record m { mutex = v }; client = record c { at = k_offset } })
]
client nloop j m c k_offset = some (record {
  mem = record m { nput = next_slot m.nput };
  client = record c { at = k_post_mutex; offset = m.msgoff m.nput };
})
client nloop j m c k_post_mutex =
    some (record { mem = record m { mutex = sem_post m.mutex }; client = record c { at = k_copy } })
client nloop j m c k_copy = some (record {
  mem = record m { msgdata = update m.msgdata c.offset (some (j, c.i)) };
  client = record c { at = k_post_stored; sent = c.sent + 1; log = update c.log c.sent c.i };
})
client nloop j m c k_post_stored =
    some
      (record { mem = record m { nstored = sem_post m.nstored }; client = round nloop (c.i + 1) c })
client nloop j m c k_returned = none

-- The `long` of `noverflow` in the `int` of `temp`, as its residue: the server compares no more than
-- whether two of them are equal.
abbrev to_int : ℕ → ℕ
to_int n = n % 2 ^ 32

-- `main` of server2.c from its loop on.
unfoldable pub server : Shmstruct → Server → Receive → Option Received
server m s s_wait_stored = elim (sem_wait m.nstored) [
  | none ↦ none
  | some v ↦
      some (record { mem = record m { nstored = v }; server = record s { at = s_wait_mutex } })
]
server m s s_wait_mutex = elim (sem_wait m.mutex) [
  | none ↦ none
  | some v ↦ some (record { mem = record m { mutex = v }; server = record s { at = s_print } })
]
server m s s_print = some (record {
  mem = m;
  server = record s {
    at = s_post_mutex;
    index = next_slot s.index;
    printed = s.printed + 1;
    out = update s.out s.printed (m.msgdata (m.msgoff s.index));
  };
})
server m s s_post_mutex = some (record {
  mem = record m { mutex = sem_post m.mutex };
  server = record s { at = s_post_empty };
})
server m s s_post_empty = some (record {
  mem = record m { nempty = sem_post m.nempty };
  server = record s { at = s_wait_overflow };
})
server m s s_wait_overflow = elim (sem_wait m.noverflowmutex) [
  | none ↦ none
  | some v ↦
      some (record { mem = record m { noverflowmutex = v }; server = record s { at = s_overflow } })
]
server m s s_overflow =
    some (record { mem = m; server = record s { at = s_post_overflow; temp = to_int m.noverflow } })
server m s s_post_overflow = some (record {
  mem = record m { noverflowmutex = sem_post m.noverflowmutex };
  server = record s { at = s_report };
})
server m s s_report = some (record {
  mem = m;
  server =
      if s.temp == s.lastnoverflow
      then record s { at = s_wait_stored }
      else record s { at = s_wait_stored; reports = s.reports + 1; lastnoverflow = s.temp };
})

pub record System : Type 0 where
  pub mem : Shmstruct
  pub clients : ℕ → Client
  pub srv : Server

pub data Step (nloop n : ℕ) (s : System) : System → Type 0 where
  sends :
      (j : ℕ) {l : Sent}
      → j < n
      → client nloop j s.mem (s.clients j) (s.clients j).at ≡ some l
      → Step nloop n s (record s { mem = l.mem; clients = update s.clients j l.client })
  receives :
      {l : Received}
      → server s.mem s.srv s.srv.at ≡ some l
      → Step nloop n s (record s { mem = l.mem; srv = l.server })

-- `server2` after its initialisation of the shared memory.
abbrev pub initial : Shmstruct
initial = record {
  mutex = 1;
  nempty = nmesg;
  nstored = 0;
  nput = 0;
  noverflow = 0;
  noverflowmutex = 1;
  msgoff = λ k. k * mesgsize;
  msgdata = λ _. none;
}

abbrev pub main : (nloop : ℕ) → System
main nloop = record {
  mem = initial;
  clients = λ _. record {
    i = 0;
    at = if ltb 0 nloop then k_trywait else k_returned;
    offset = 0;
    sent = 0;
    log = λ _. 0;
  };
  srv = record {
    index = 0;
    at = s_wait_stored;
    lastnoverflow = 0;
    temp = 0;
    printed = 0;
    out = λ _. none;
    reports = 0;
  };
}

pub data Reach (nloop n : ℕ) : System → Type 0 where
  start : Reach nloop n (main nloop)
  later : {s t : System} → Reach nloop n s → Step nloop n s t → Reach nloop n t
