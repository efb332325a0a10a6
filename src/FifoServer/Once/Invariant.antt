-- ===== src/FifoServer/Once/Invariant.antt =====
-- What client.c and server.c know of each other, and that no byte of the reply is lost.
use unpvol.Base.{ℕ, ◌≡◌, Bool, true, false, Option, none, some, List, [], ◌++◌}
use unpvol.FifoServer.Once.Defs.{
  Cpc, c_make, c_open, c_opening, c_write, c_close, c_opening_reply, c_read, c_out, c_unlink,
  c_returned, c_failed, Vpc, v_make, v_open, v_opening, v_read, v_scan, v_close, v_open_reply,
  v_opening_reply, v_open_file, v_read_file, v_write, v_finish, v_unlink, v_returned, v_failed,
  State,
}

-- The client has opened the server's FIFO; has the descriptor; has written its request; has its own
-- FIFO made; has opened that.
abbrev pub c_opened : Cpc → Bool
c_opened c_make = false
c_opened c_open = false
c_opened c_failed = false
c_opened _ = true

abbrev pub c_holds : Cpc → ℕ
c_holds c_opening = 1
c_holds c_write = 1
c_holds c_close = 1
c_holds _ = 0

abbrev pub wrote : Cpc → Bool
wrote c_make = false
wrote c_open = false
wrote c_opening = false
wrote c_write = false
wrote c_failed = false
wrote _ = true

abbrev pub c_made : Cpc → Bool
c_made c_make = false
c_made c_returned = false
c_made c_failed = false
c_made _ = true

abbrev pub c_listens : Cpc → Bool
c_listens c_opening_reply = true
c_listens c_read = true
c_listens c_out = true
c_listens c_unlink = true
c_listens c_returned = true
c_listens _ = false

-- The server has opened its FIFO; has opened the client's; has the descriptor of that.
abbrev pub v_opened : Vpc → Bool
v_opened v_make = false
v_opened v_open = false
v_opened _ = true

abbrev pub v_replies : Vpc → Bool
v_replies v_opening_reply = true
v_replies v_open_file = true
v_replies v_read_file = true
v_replies v_write = true
v_replies v_finish = true
v_replies v_unlink = true
v_replies v_returned = true
v_replies v_failed = true
v_replies _ = false

abbrev pub v_holds : Vpc → ℕ
v_holds v_opening_reply = 1
v_holds v_open_file = 1
v_holds v_read_file = 1
v_holds v_write = 1
v_holds v_finish = 1
v_holds _ = 0

-- The reply to a path: the file, or nothing where it cannot be opened.
abbrev pub text_of : Option (List ℕ) → List ℕ
text_of none = []
text_of (some f) = f

-- What of the reply is with the client, and what is still to come from the server.
abbrev pub held : (c_buf : List ℕ) → Cpc → List ℕ
held c_buf c_out = c_buf
held c_buf _ = []

abbrev pub to_come : (whole v_buf rest : List ℕ) → Vpc → List ℕ
to_come whole v_buf rest v_read_file = rest
to_come whole v_buf rest v_write = v_buf ++ rest
to_come whole v_buf rest v_finish = []
to_come whole v_buf rest v_unlink = []
to_come whole v_buf rest v_returned = []
to_come whole v_buf rest v_failed = []
to_come whole v_buf rest _ = whole

-- What the client knows; `replies` says that the server has opened the client's FIFO,
-- `holds` is 1 while it has the descriptor.
abbrev pub CKnows : (whole out : List ℕ) (replies : Bool) (holds : ℕ) → Cpc → Type 0
CKnows whole out replies holds c_read = replies ≡ true
CKnows whole out replies holds c_out = replies ≡ true
CKnows whole out replies holds c_unlink = (replies ≡ true) × (holds ≡ 0) × (out ≡ whole)
CKnows whole out replies holds c_returned = (replies ≡ true) × (holds ≡ 0) × (out ≡ whole)
CKnows whole out replies holds _ = Unit

-- The request is in the server's FIFO from its writing to its reading.
abbrev pub InFifo : (request bytes : List ℕ) (sent : Bool) → Type 0
InFifo request bytes sent = (sent ≡ false → bytes ≡ []) × (sent ≡ true → bytes ≡ request)

abbrev pub VKnows :
    (request path : List ℕ) (pid : ℕ) (bytes v_buf pathname : List ℕ) (cpid : ℕ)
    (sent opened : Bool)
    → Vpc
    → Type 0
VKnows request path pid bytes v_buf pathname cpid sent opened v_make = InFifo request bytes sent
VKnows request path pid bytes v_buf pathname cpid sent opened v_open = InFifo request bytes sent
VKnows request path pid bytes v_buf pathname cpid sent opened v_opening = InFifo request bytes sent
VKnows request path pid bytes v_buf pathname cpid sent opened v_read =
    InFifo request bytes sent × (opened ≡ true)
VKnows request path pid bytes v_buf pathname cpid sent opened v_scan =
    (sent ≡ true) × (v_buf ≡ request)
VKnows request path pid bytes v_buf pathname cpid sent opened v_close =
    (sent ≡ true) × (cpid ≡ pid) × (pathname ≡ path)
VKnows request path pid bytes v_buf pathname cpid sent opened v_open_reply =
    (sent ≡ true) × (cpid ≡ pid) × (pathname ≡ path)
VKnows request path pid bytes v_buf pathname cpid sent opened v_opening_reply =
    (sent ≡ true) × (pathname ≡ path)
VKnows request path pid bytes v_buf pathname cpid sent opened v_open_file =
    (sent ≡ true) × (pathname ≡ path)
VKnows request path pid bytes v_buf pathname cpid sent opened _ = sent ≡ true

pub record IsSound (request path : List ℕ) (pid : ℕ) (whole : List ℕ) (s : State) : Type 0 where
  pub s_writers : s.sf.channel.writers ≡ c_holds s.c_at
  pub c_writers : s.cf.channel.writers ≡ v_holds s.v_at
  pub s_read : s.sf.read_opened ≡ v_opened s.v_at
  pub s_write : s.sf.write_opened ≡ c_opened s.c_at
  pub c_read : s.cf.read_opened ≡ c_listens s.c_at
  pub c_write : s.cf.write_opened ≡ v_replies s.v_at
  pub name : c_made s.c_at ≡ true → s.cf.made ≡ true
  pub c_knows : CKnows whole s.out (v_replies s.v_at) (v_holds s.v_at) s.c_at
  pub v_knows :
      VKnows request path pid s.sf.channel.bytes s.v_buf s.pathname s.cpid
        (wrote s.c_at)
        (c_opened s.c_at)
        s.v_at
  pub all :
      s.out ++ (held s.c_buf s.c_at ++ (s.cf.channel.bytes ++ to_come whole s.v_buf s.rest s.v_at))
      ≡ whole
