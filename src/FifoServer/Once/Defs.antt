-- ===== src/FifoServer/Once/Defs.antt =====
-- client.c and server.c of codes/4.PipeAndFifos/1snc. `snprintf` and `sscanf` are parameters: the 64
-- bytes of a request, and the process number and path that a request scans as.
use unpvol.Base.{
  ℕ, ◌+◌, ◌≡◌, Bool, true, false, ◌&&◌, ◌==◌, if◌then◌else◌, Option, none, some, List, [], ◌∷◌,
  ◌++◌,
}
use unpvol.Pipes.Channel.{
  Channel, Answer, blocks, gives, read_channel, read_file, write_channel, close_writer,
}

-- The size of `buf` and of a request.
abbrev pub buf_size : ℕ
buf_size = 64

-- A FIFO with one reader and one writer to come: whether its name is there, what it holds, and whether
-- it has been opened for reading and for writing. Each `open` waits for the other.
pub record Fifo : Type 0 where
  pub made : Bool
  pub channel : Channel
  pub read_opened : Bool
  pub write_opened : Bool

abbrev pub make : Fifo → Fifo
make f = record f { made = true }

abbrev pub unlink : Fifo → Fifo
unlink f = record f { made = false }

-- The two `open` calls up to where they wait.
abbrev pub open_read : Fifo → Fifo
open_read f = record f { read_opened = true }

abbrev pub open_write : Fifo → Fifo
open_write f = record f {
  write_opened = true;
  channel = record f.channel { writers = f.channel.writers + 1 };
}

abbrev pub on_channel : Fifo → Channel → Fifo
on_channel f c = record f { channel = c }

-- The next thing that the client does; `c_failed` is its exit where there is no server FIFO.
pub data Cpc : Type 0 where
  c_make c_open c_opening c_write c_close c_open_reply c_opening_reply c_read c_out : Cpc
  c_unlink c_returned c_failed : Cpc

-- The next thing that the server does; `v_failed` is any of its exits with -1.
pub data Vpc : Type 0 where
  v_make v_open v_opening v_read v_scan v_close v_open_reply v_opening_reply v_open_file : Vpc
  v_read_file v_write v_finish v_unlink v_returned v_failed : Vpc

-- `sf` is the server's FIFO and `cf` that of the client. `out` is what the client has written to standard
-- output, `rest` what the server has not yet read of the file.
pub record State : Type 0 where
  pub sf : Fifo
  pub cf : Fifo
  pub c_at : Cpc
  pub c_buf : List ℕ
  pub out : List ℕ
  pub v_at : Vpc
  pub v_buf : List ℕ
  pub cpid : ℕ
  pub pathname : List ℕ
  pub rest : List ℕ

-- The client after the answer of its `read`, and after a `write` of its request.
unfoldable pub c_after_read : State → Answer → Option State
c_after_read s blocks = none
c_after_read s (gives [] r) = some (record s { c_at = c_unlink })
c_after_read s (gives (b ∷ bs) r) = some (record s {
  c_at = c_out;
  c_buf = b ∷ bs;
  cf = on_channel s.cf (record s.cf.channel { bytes = r });
})

unfoldable pub c_after_write : State → Option Channel → Option State
c_after_write s none = none
c_after_write s (some c) = some (record s { c_at = c_close; sf = on_channel s.sf c })

-- The client, which has the bytes of its request.
unfoldable pub client : (size cap : ℕ) (request : List ℕ) → State → Cpc → Option State
unfolding c_after_read c_after_write
client size cap request s c_make = some (record s { c_at = c_open; cf = make s.cf })
client size cap request s c_open =
    if s.sf.made
    then some (record s { c_at = c_opening; sf = open_write s.sf })
    else some (record s { c_at = c_failed })
client size cap request s c_opening =
    if s.sf.read_opened then some (record s { c_at = c_write }) else none
client size cap request s c_write = c_after_write s (write_channel cap request s.sf.channel)
client size cap request s c_close =
    some (record s { c_at = c_open_reply; sf = on_channel s.sf (close_writer s.sf.channel) })
client size cap request s c_open_reply =
    some (record s { c_at = c_opening_reply; cf = open_read s.cf })
client size cap request s c_opening_reply =
    if s.cf.write_opened then some (record s { c_at = c_read }) else none
client size cap request s c_read = c_after_read s (read_channel size s.cf.channel)
client size cap request s c_out = some (record s { c_at = c_read; out = s.out ++ s.c_buf })
client size cap request s c_unlink = some (record s { c_at = c_returned; cf = unlink s.cf })
client size cap request s c_returned = none
client size cap request s c_failed = none

-- The server after its reading of a request, its scanning, its opening of the file, its reading of the
-- file, and its write of a part of it. An `exit` closes the FIFO of the client.
unfoldable pub v_after_request : State → Answer → Option State
v_after_request s blocks = none
v_after_request s (gives bs r) = some (record s {
  v_at = v_scan;
  v_buf = bs;
  sf = on_channel s.sf (record s.sf.channel { bytes = r });
})

unfoldable pub v_after_open : State → Option (List ℕ) → Option State
v_after_open s none =
    some (record s { v_at = v_failed; cf = on_channel s.cf (close_writer s.cf.channel) })
v_after_open s (some f) = some (record s { v_at = v_read_file; rest = f })

unfoldable pub v_after_read : State → Answer → Option State
v_after_read s blocks = none
v_after_read s (gives [] r) = some (record s { v_at = v_finish })
v_after_read s (gives (b ∷ bs) r) = some (record s { v_at = v_write; v_buf = b ∷ bs; rest = r })

unfoldable pub v_after_write : State → Option Channel → Option State
v_after_write s none = none
v_after_write s (some c) = some (record s { v_at = v_read_file; cf = on_channel s.cf c })

-- The server. `own` is the process number of the client whose FIFO `cf` is; another name is not there.
unfoldable pub server :
    (size cap own : ℕ) (scan : List ℕ → ℕ × List ℕ) (answer : List ℕ → Option (List ℕ))
    → State
    → Vpc
    → Option State
unfolding v_after_request v_after_open v_after_read v_after_write
server size cap own scan answer s v_make = some (record s { v_at = v_open; sf = make s.sf })
server size cap own scan answer s v_open = some (record s { v_at = v_opening; sf = open_read s.sf })
server size cap own scan answer s v_opening =
    if s.sf.write_opened then some (record s { v_at = v_read }) else none
server size cap own scan answer s v_read = v_after_request s (read_channel size s.sf.channel)
server size cap own scan answer s v_scan =
    some (record s { v_at = v_close; cpid = (scan s.v_buf).0; pathname = (scan s.v_buf).1 })
server size cap own scan answer s v_close = some (record s { v_at = v_open_reply })
server size cap own scan answer s v_open_reply =
    if s.cf.made && (s.cpid == own)
    then some (record s { v_at = v_opening_reply; cf = open_write s.cf })
    else some (record s { v_at = v_failed })
server size cap own scan answer s v_opening_reply =
    if s.cf.read_opened then some (record s { v_at = v_open_file }) else none
server size cap own scan answer s v_open_file = v_after_open s (answer s.pathname)
server size cap own scan answer s v_read_file = v_after_read s (read_file size s.rest)
server size cap own scan answer s v_write = v_after_write s (write_channel cap s.v_buf s.cf.channel)
server size cap own scan answer s v_finish =
    some (record s { v_at = v_unlink; cf = on_channel s.cf (close_writer s.cf.channel) })
server size cap own scan answer s v_unlink = some (record s { v_at = v_returned; sf = unlink s.sf })
server size cap own scan answer s v_returned = none
server size cap own scan answer s v_failed = none

-- Before the two start; the names may be there from an earlier run.
abbrev pub main : (server_made client_made : Bool) → State
main server_made client_made = record {
  sf = record {
    made = server_made;
    channel = record { bytes = []; writers = 0 };
    read_opened = false;
    write_opened = false;
  };
  cf = record {
    made = client_made;
    channel = record { bytes = []; writers = 0 };
    read_opened = false;
    write_opened = false;
  };
  c_at = c_make;
  c_buf = [];
  out = [];
  v_at = v_make;
  v_buf = [];
  cpid = 0;
  pathname = [];
  rest = [];
}

-- The client's number and request, and what the server makes of requests and paths.
pub record Setting : Type 0 where
  pub cap : ℕ
  pub pid : ℕ
  pub path : List ℕ
  pub request : ℕ → List ℕ → List ℕ
  pub scan : List ℕ → ℕ × List ℕ
  pub answer : List ℕ → Option (List ℕ)
  pub server_made : Bool
  pub client_made : Bool

pub data Step (e : Setting) (s : State) : State → Type 0 where
  clients :
      {t : State} → client buf_size e.cap (e.request e.pid e.path) s s.c_at ≡ some t → Step e s t
  servers : {t : State} → server buf_size e.cap e.pid e.scan e.answer s s.v_at ≡ some t → Step e s t

pub data Reach (e : Setting) : State → Type 0 where
  start : Reach e (main e.server_made e.client_made)
  later : {s t : State} → Reach e s → Step e s t → Reach e t
