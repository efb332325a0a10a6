-- ===== src/Pipes/Spipe/Defs.antt =====
-- codes/4.PipeAndFifos/spipe.c: the client sends a path through one pipe, the server sends the file
-- back through the other.
use unpvol.Base.{ℕ, ◌-◌, ◌≡◌, Option, none, some, List, [], ◌∷◌, ◌++◌, length, take}
use unpvol.Pipes.Channel.{
  Channel, Answer, blocks, gives, read_channel, read_file, write_channel, close_writer,
}

-- The size of both buffers.
abbrev pub buf_size : ℕ
buf_size = 512

-- "openerror\n" and the zero after it, which the write of 11 bytes sends too.
abbrev pub open_error : List ℕ
open_error = 111 ∷ 112 ∷ 101 ∷ 110 ∷ 101 ∷ 114 ∷ 114 ∷ 111 ∷ 114 ∷ 10 ∷ 0 ∷ []

-- The next thing that the parent does; `c_eof` is its exit where standard input is at its end.
pub data Cpc : Type 0 where
  c_close c_input c_send c_read c_out c_exited c_eof : Cpc

-- The next thing that the child does; `s_broken` is past the write before the start of its buffer.
pub data Spc : Type 0 where
  s_close s_path s_open s_error s_read s_write s_exit s_exited s_broken : Spc

-- `out` is what the client has written to standard output, `rest` what the server has not yet read of
-- the file.
pub record State : Type 0 where
  pub p1 : Channel
  pub p2 : Channel
  pub c_at : Cpc
  pub c_buf : List ℕ
  pub out : List ℕ
  pub s_at : Spc
  pub s_buf : List ℕ
  pub rest : List ℕ

-- `buf[rnum-1] = '\0'`: the path is what was read but for its last byte.
abbrev pub path_of : List ℕ → List ℕ
path_of line = take (length line - 1) line

-- The client's loop, after the answer of its `read`.
unfoldable pub c_after_read : State → Answer → Option State
c_after_read s blocks = none
c_after_read s (gives [] r) = some (record s { c_at = c_exited; p1 = close_writer s.p1 })
c_after_read s (gives (b ∷ bs) r) =
    some (record s { c_at = c_out; c_buf = b ∷ bs; p2 = record s.p2 { bytes = r } })

-- The server, after the answer of its `read` of the path.
unfoldable pub s_after_path : State → Answer → Option State
s_after_path s blocks = none
s_after_path s (gives [] r) = some (record s { s_at = s_broken })
s_after_path s (gives (b ∷ bs) r) =
    some (record s { s_at = s_open; s_buf = path_of (b ∷ bs); p1 = record s.p1 { bytes = r } })

-- `answer` is what `open` and the file's contents are for a path.
unfoldable pub s_after_open : State → Option (List ℕ) → Option State
s_after_open s none = some (record s { s_at = s_error })
s_after_open s (some f) = some (record s { s_at = s_read; rest = f })

unfoldable pub s_after_read : State → Answer → Option State
s_after_read s blocks = none
s_after_read s (gives [] r) = some (record s { s_at = s_exit })
s_after_read s (gives (b ∷ bs) r) = some (record s { s_at = s_write; s_buf = b ∷ bs; rest = r })

-- A `write` into the second pipe, after which the server goes on at `next`.
unfoldable pub s_after_write : State → (next : Spc) → Option Channel → Option State
s_after_write s next none = none
s_after_write s next (some p) = some (record s { s_at = next; p2 = p })

module _ (size cap : ℕ) where
  -- The parent, `client`; `none` where it is blocked or has exited.
  unfoldable pub client : (input : List ℕ) → State → Cpc → Option State
  unfolding c_after_read
  client input s c_close = some (record s { c_at = c_input; p2 = close_writer s.p2 })
  client input s c_input = elim input [
    | [] ↦ some (record s { c_at = c_eof; p1 = close_writer s.p1 })
    | b ∷ bs ↦ some (record s { c_at = c_send; c_buf = b ∷ bs })
  ]
  client input s c_send = elim (write_channel cap s.c_buf s.p1) [
    | none ↦ none
    | some p ↦ some (record s { c_at = c_read; p1 = p })
  ]
  client input s c_read = c_after_read s (read_channel size s.p2)
  client input s c_out = some (record s { c_at = c_read; out = s.out ++ s.c_buf })
  client input s c_exited = none
  client input s c_eof = none

  -- The child, `server`.
  unfoldable pub server : (answer : List ℕ → Option (List ℕ)) → State → Spc → Option State
  unfolding s_after_path s_after_open s_after_read s_after_write
  server answer s s_close = some (record s { s_at = s_path; p1 = close_writer s.p1 })
  server answer s s_path = s_after_path s (read_channel size s.p1)
  server answer s s_open = s_after_open s (answer s.s_buf)
  server answer s s_error = s_after_write s s_exit (write_channel cap open_error s.p2)
  server answer s s_read = s_after_read s (read_file size s.rest)
  server answer s s_write = s_after_write s s_read (write_channel cap s.s_buf s.p2)
  server answer s s_exit = some (record s { s_at = s_exited; p2 = close_writer s.p2 })
  server answer s s_exited = none
  server answer s s_broken = none

-- `main` after the `fork`: both processes have both ends of both pipes.
abbrev pub main : State
main = record {
  p1 = record { bytes = []; writers = 2 };
  p2 = record { bytes = []; writers = 2 };
  c_at = c_close;
  c_buf = [];
  out = [];
  s_at = s_close;
  s_buf = [];
  rest = [];
}

module _ (size cap : ℕ) (input : List ℕ) (answer : List ℕ → Option (List ℕ)) where
  pub data Step (s : State) : State → Type 0 where
    clients : {t : State} → client size cap input s s.c_at ≡ some t → Step s t
    servers : {t : State} → server size cap answer s s.s_at ≡ some t → Step s t

  pub data Reach : State → Type 0 where
    start : Reach main
    later : {s t : State} → Reach s → Step s t → Reach t
