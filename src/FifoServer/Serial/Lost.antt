-- ===== src/FifoServer/Serial/Lost.antt =====
-- A request that is in the FIFO of servern.c when the server closes it is lost.
use unpvol.Base.{ℕ, ◌+◌, ◌≤◌, ◌≡◌, ◌≢◌, Bool, true, false, List, [], ◌∷◌, length}
use unpvol.FifoServer.Once.Defs.{buf_size}
use unpvol.FifoServer.Serial.Defs.{Pc, n_close, State}

-- The server's FIFO with the two requests in it, one client in it or none.
module _ (cap : ℕ) (answers : List ℕ → Bool) (b : ℕ) (bs two : List ℕ)
    (h1 : length (b ∷ bs) ≡ buf_size) (h2 : length two ≡ buf_size) (ne : b ∷ bs ≢ two)
    (room : buf_size + buf_size ≤ cap) (ok : answers (b ∷ bs) ≡ true) where
  abbrev waits : (bytes : List ℕ) → Pc → (written : List (List ℕ)) → State
  waits bytes at written = record {
    channel = record { bytes = bytes; writers = 2 };
    reading = true;
    seen = true;
    buf = [];
    at = at;
    written = written;
    served = [];
  }

  abbrev has_read : (bytes : List ℕ) (writers : ℕ) → State
  has_read bytes writers = record {
    channel = record { bytes = bytes; writers = writers };
    reading = true;
    seen = true;
    buf = b ∷ bs;
    at = n_close;
    written = (b ∷ bs) ∷ two ∷ [];
    served = [];
  }

  abbrev has_closed : Pc → (served : List (List ℕ)) → State
  has_closed at served = record {
    channel = record { bytes = []; writers = 0 };
    reading = false;
    seen = true;
    buf = b ∷ bs;
    at = at;
    written = (b ∷ bs) ∷ two ∷ [];
    served = served;
  }
