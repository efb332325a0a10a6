-- ===== src/FifoServer/Serial/Defs.antt =====
-- servern.c and the clients that write into its FIFO. `answers` says for a request whether the FIFO of its
-- client and its file can be opened.
use unpvol.Base.{
  ℕ, ◌+◌, ◌<◌, ◌≡◌, Bool, true, false, ◌&&◌, not, ◌==◌, leb, if◌then◌else◌, Option, none, some,
  List, [], ◌∷◌, ◌++◌, length,
}
use unpvol.Pipes.Channel.{Channel, Answer, blocks, gives, read_channel, write_channel, close_writer}
use unpvol.FifoServer.Once.Defs.{buf_size}

-- The next thing that the server does; `n_exited` is its exit where it cannot open what a request names.
pub data Pc : Type 0 where
  n_open n_opening n_read n_close n_answer n_exited : Pc

-- `reading` says that the server has the FIFO open, `seen` that a client has opened it since the server
-- began to. `written` are the requests of the clients, `served` those that the server has dealt with.
pub record State : Type 0 where
  pub channel : Channel
  pub reading : Bool
  pub seen : Bool
  pub buf : List ℕ
  pub at : Pc
  pub written : List (List ℕ)
  pub served : List (List ℕ)

-- What a FIFO holds when a descriptor has been closed: nothing, once none is open.
abbrev pub kept : (reading : Bool) → Channel → Channel
kept reading c = if not reading && (c.writers == 0) then record c { bytes = [] } else c

-- After the answer of `read`; at the end of the FIFO `buf` keeps what it had.
unfoldable pub after_read : State → Answer → Option State
after_read s blocks = none
after_read s (gives [] r) = some (record s { at = n_close })
after_read s (gives (b ∷ bs) r) =
    some (record s { at = n_close; buf = b ∷ bs; channel = record s.channel { bytes = r } })

-- A step of the server's loop.
unfoldable pub server : (answers : List ℕ → Bool) → State → Pc → Option State
unfolding after_read
server answers s n_open =
    some (record s { at = n_opening; reading = true; seen = leb 1 s.channel.writers })
server answers s n_opening = if s.seen then some (record s { at = n_read }) else none
server answers s n_read = after_read s (read_channel buf_size s.channel)
server answers s n_close =
    some (record s { at = n_answer; reading = false; channel = kept false s.channel })
server answers s n_answer = some (record s {
  served = s.served ++ (s.buf ∷ []);
  at = if answers s.buf then n_open else n_exited;
})
server answers s n_exited = none

-- A client opens the FIFO, writes its request at once, and closes the FIFO.
abbrev pub join : State → State
join s = record s { seen = true; channel = record s.channel { writers = s.channel.writers + 1 } }

abbrev pub request : (cap : ℕ) → List ℕ → State → Option State
request cap bytes s = elim (write_channel cap bytes s.channel) [
  | none ↦ none
  | some c ↦ some (record s { channel = c; written = s.written ++ (bytes ∷ []) })
]

abbrev pub leave : State → State
leave s = record s { channel = kept s.reading (close_writer s.channel) }

-- The steps in which clients write requests that `May` allows.
pub data Step (cap : ℕ) (answers : List ℕ → Bool) (May : List ℕ → Type 0) (s : State)
    : State → Type 0 where
  serves : {t : State} → server answers s s.at ≡ some t → Step cap answers May s t
  joins : Step cap answers May s (join s)
  requests :
      {t : State} (bytes : List ℕ)
      → length bytes ≡ buf_size
      → May bytes
      → s.reading ≡ true
      → 0 < s.channel.writers
      → request cap bytes s ≡ some t
      → Step cap answers May s t
  leaves : 0 < s.channel.writers → Step cap answers May s (leave s)

-- `main` after `mkfifo`.
abbrev pub main : State
main = record {
  channel = record { bytes = []; writers = 0 };
  reading = false;
  seen = false;
  buf = [];
  at = n_open;
  written = [];
  served = [];
}

pub data Runs (cap : ℕ) (answers : List ℕ → Bool) (May : List ℕ → Type 0) (s : State)
    : State → Type 0 where
  here : Runs cap answers May s s
  more :
      {t u : State} → Runs cap answers May s t → Step cap answers May t u → Runs cap answers May s u
