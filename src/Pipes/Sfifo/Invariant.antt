-- ===== src/Pipes/Sfifo/Invariant.antt =====
-- What the two processes of sfifo.c know of each other, and that no byte of the reply is lost.
use unpvol.Base.{ℕ, ◌+◌, ◌≡◌, Option, none, some, List, [], ◌++◌}
use unpvol.Pipes.Sfifo.Defs.{
  open_error, Cpc, c_input, c_send, c_out, c_exited, c_eof, Spc, s_path, s_open, s_error, s_read,
  s_write, s_exited, s_broken, State, path_of,
}

-- Whether the processes are there: each holds a descriptor for writing of each FIFO.
abbrev pub c_alive : Cpc → ℕ
c_alive c_exited = 0
c_alive c_eof = 0
c_alive _ = 1

abbrev pub s_alive : Spc → ℕ
s_alive s_exited = 0
s_alive _ = 1

-- Whether the client has sent its line.
abbrev pub has_sent : Cpc → ℕ
has_sent c_input = 0
has_sent c_send = 0
has_sent _ = 1

-- The reply to a line: the file, or the text of the error.
abbrev pub text_of : Option (List ℕ) → List ℕ
text_of none = open_error
text_of (some f) = f

abbrev pub reply : (answer : List ℕ → Option (List ℕ)) → List ℕ → List ℕ
reply answer input = text_of (answer (path_of input))

-- What of the reply is with the client, and what is still to come from the server.
abbrev pub held : (c_buf : List ℕ) → Cpc → List ℕ
held c_buf c_out = c_buf
held c_buf _ = []

abbrev pub to_come : (whole s_buf rest : List ℕ) → Spc → List ℕ
to_come whole s_buf rest s_path = whole
to_come whole s_buf rest s_open = whole
to_come whole s_buf rest s_error = open_error
to_come whole s_buf rest s_read = rest
to_come whole s_buf rest s_write = s_buf ++ rest
to_come whole s_buf rest _ = []

abbrev pub CKnows : (input c_buf : List ℕ) → Cpc → Type 0
CKnows input c_buf c_send = c_buf ≡ input
CKnows input c_buf c_eof = ⊥
CKnows input c_buf c_exited = ⊥
CKnows input c_buf _ = Unit

-- What the first FIFO holds is the line, from its sending to the server's reading of it.
abbrev pub SKnows : (input bytes s_buf : List ℕ) (sent : ℕ) → Spc → Type 0
SKnows input bytes s_buf sent s_path = (sent ≡ 0 → bytes ≡ []) × (sent ≡ 1 → bytes ≡ input)
SKnows input bytes s_buf sent s_open = (sent ≡ 1) × (s_buf ≡ path_of input)
SKnows input bytes s_buf sent s_broken = ⊥
SKnows input bytes s_buf sent _ = sent ≡ 1

pub record IsSound (input whole : List ℕ) (s : State) : Type 0 where
  pub w1 : s.f1.writers ≡ c_alive s.c_at + s_alive s.s_at
  pub w2 : s.f2.writers ≡ c_alive s.c_at + s_alive s.s_at
  pub c_knows : CKnows input s.c_buf s.c_at
  pub s_knows : SKnows input s.f1.bytes s.s_buf (has_sent s.c_at) s.s_at
  pub all :
      s.out ++ (held s.c_buf s.c_at ++ (s.f2.bytes ++ to_come whole s.s_buf s.rest s.s_at)) ≡ whole
