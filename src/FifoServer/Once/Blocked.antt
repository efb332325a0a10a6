-- ===== src/FifoServer/Once/Blocked.antt =====
-- Where client.c and server.c wait, and that they do not wait for each other.
use unpvol.Base.{
  ℕ, ◌+◌, ◌≤◌, ◌<◌, ◌≡◌, ◌⊎◌, inl, inr, refl, arith, Bool, true, false, ◌&&◌, ◌==◌, if◌then◌else◌,
  Option, none, some, List, [], ◌∷◌, ◌++◌, length, length-take, dec_lt,
}
use unpvol.Pipes.Channel.{Answer, blocks, gives, read_channel, read_file}
use unpvol.FifoServer.Once.Defs.{
  on_channel, open_write, Cpc, c_make, c_open, c_opening, c_write, c_close, c_open_reply,
  c_opening_reply, c_read, c_out, c_unlink, c_returned, c_failed, Vpc, v_make, v_open, v_opening,
  v_read, v_scan, v_close, v_open_reply, v_opening_reply, v_open_file, v_read_file, v_write,
  v_finish, v_unlink, v_returned, v_failed, State, c_after_read, c_after_write, client,
  v_after_request, v_after_open, v_after_read, v_after_write, server,
}
use unpvol.FifoServer.Once.Invariant.{IsSound}

abbrev pub ShortWrite : (size : ℕ) → List ℕ → Vpc → Type 0
ShortWrite size v_buf v_write = length v_buf ≤ size
ShortWrite size v_buf _ = Unit

-- What the server writes at once is what it has read at once.
pub server-ShortWrite :
    (size cap own : ℕ) (scan : List ℕ → ℕ × List ℕ) (answer : List ℕ → Option (List ℕ)) (s : State)
    {t : State} (at : Vpc)
    → server size cap own scan answer s at ≡ some t
    → ShortWrite size t.v_buf t.v_at
unfolding server v_after_request v_after_open v_after_read v_after_write
server-ShortWrite size cap own scan answer s {t} v_read_file e =
    short (read_file size s.rest) refl e
  where
    short :
        (a : Answer)
        → read_file size s.rest ≡ a
        → v_after_read s a ≡ some t
        → ShortWrite size t.v_buf t.v_at
    short blocks k e = absurd (ground arith)
    short (gives [] r) k e = ground arith
    short (gives (b ∷ bs) r) k e = ground (arith, k, length-take size s.rest)
server-ShortWrite size cap own scan answer s {t} v_read e = away (read_channel size s.sf.channel) e
  where
    away : (a : Answer) → v_after_request s a ≡ some t → ShortWrite size t.v_buf t.v_at
    away blocks e = absurd (ground arith)
    away (gives bs r) e = ground arith
server-ShortWrite size cap own scan answer s v_make e = ground arith
server-ShortWrite size cap own scan answer s _ e = ground arith

pub client-same :
    (size cap : ℕ) (request : List ℕ) (s : State) {t : State} (at : Cpc)
    → client size cap request s at ≡ some t
    → (t.v_at ≡ s.v_at) × (t.v_buf ≡ s.v_buf)
unfolding client c_after_read c_after_write
client-same size cap request s {t} c_read e = same (read_channel size s.cf.channel) e
  where
    same : (a : Answer) → c_after_read s a ≡ some t → (t.v_at ≡ s.v_at) × (t.v_buf ≡ s.v_buf)
    same blocks e = absurd (ground arith)
    same (gives [] r) e = ground arith
    same (gives (b ∷ bs) r) e = ground arith
client-same size cap request s c_make e = ground arith
client-same size cap request s _ e = ground arith

-- Where a process stands still.
abbrev pub CBlocked : (cap : ℕ) → (request : List ℕ) → State → Cpc → Type 0
CBlocked cap request s c_opening = s.sf.read_opened ≡ false
CBlocked cap request s c_write = cap < length s.sf.channel.bytes + length request
CBlocked cap request s c_opening_reply = s.cf.write_opened ≡ false
CBlocked cap request s c_read = (s.cf.channel.bytes ≡ []) × (0 < s.cf.channel.writers)
CBlocked cap request s c_returned = Unit
CBlocked cap request s c_failed = Unit
CBlocked cap request s _ = ⊥

abbrev pub VBlocked : (cap : ℕ) → State → Vpc → Type 0
VBlocked cap s v_opening = s.sf.write_opened ≡ false
VBlocked cap s v_read = (s.sf.channel.bytes ≡ []) × (0 < s.sf.channel.writers)
VBlocked cap s v_opening_reply = s.cf.read_opened ≡ false
VBlocked cap s v_write = cap < length s.cf.channel.bytes + length s.v_buf
VBlocked cap s v_returned = Unit
VBlocked cap s v_failed = Unit
VBlocked cap s _ = ⊥

abbrev pub Goes : Option State → Type 0
Goes o = (t : State) × (o ≡ some t)

pub if-Goes : (b : Bool) (t : State) → Goes (if b then some t else none) ⊎ (b ≡ false)
if-Goes true t = inl (t, refl)
if-Goes false t = inr refl

pub client-Goes :
    (size cap : ℕ) (request : List ℕ) (s : State) (at : Cpc)
    → Goes (client size cap request s at) ⊎ CBlocked cap request s at
unfolding client c_after_read c_after_write
client-Goes size cap request s c_make = inl (_, refl)
client-Goes size cap request s c_open = opens s.sf.made
  where
    opens :
        (b : Bool)
        → Goes (
            if b
            then some (record s { c_at = c_opening; sf = open_write s.sf })
            else some (record s { c_at = c_failed }))
          ⊎ ⊥
    opens true = inl (_, refl)
    opens false = inl (_, refl)
client-Goes size cap request s c_opening = if-Goes s.sf.read_opened (record s { c_at = c_write })
client-Goes size cap request s c_write =
    elim (dec_lt cap (length s.sf.channel.bytes + length request)) [
      | yes h ↦ inr h
      | no h ↦ inl (
        record s {
          c_at = c_close;
          sf = on_channel s.sf (record s.sf.channel { bytes = s.sf.channel.bytes ++ request });
        },
        ground arith,
      )
    ]
client-Goes size cap request s c_close = inl (_, refl)
client-Goes size cap request s c_open_reply = inl (_, refl)
client-Goes size cap request s c_opening_reply =
    if-Goes s.cf.write_opened (record s { c_at = c_read })
client-Goes size cap request s c_read = looks (read_channel size s.cf.channel) refl
  where
    looks :
        (a : Answer)
        → read_channel size s.cf.channel ≡ a
        → Goes (c_after_read s a) ⊎ ((s.cf.channel.bytes ≡ []) × (0 < s.cf.channel.writers))
    looks blocks k = inr (ground arith)
    looks (gives [] r) k = inl (_, refl)
    looks (gives (b ∷ bs) r) k = inl (_, refl)
client-Goes size cap request s c_out = inl (_, refl)
client-Goes size cap request s c_unlink = inl (_, refl)
client-Goes size cap request s c_returned = inr tt
client-Goes size cap request s c_failed = inr tt

pub server-Goes :
    (size cap own : ℕ) (scan : List ℕ → ℕ × List ℕ) (answer : List ℕ → Option (List ℕ)) (s : State)
    (at : Vpc)
    → Goes (server size cap own scan answer s at) ⊎ VBlocked cap s at
unfolding server v_after_request v_after_open v_after_read v_after_write
server-Goes size cap own scan answer s v_make = inl (_, refl)
server-Goes size cap own scan answer s v_open = inl (_, refl)
server-Goes size cap own scan answer s v_opening =
    if-Goes s.sf.write_opened (record s { v_at = v_read })
server-Goes size cap own scan answer s v_read = looks (read_channel size s.sf.channel) refl
  where
    looks :
        (a : Answer)
        → read_channel size s.sf.channel ≡ a
        → Goes (v_after_request s a) ⊎ ((s.sf.channel.bytes ≡ []) × (0 < s.sf.channel.writers))
    looks blocks k = inr (ground arith)
    looks (gives bs r) k = inl (_, refl)
server-Goes size cap own scan answer s v_scan = inl (_, refl)
server-Goes size cap own scan answer s v_close = inl (_, refl)
server-Goes size cap own scan answer s v_open_reply = opens (s.cf.made && (s.cpid == own))
  where
    opens :
        (b : Bool)
        → Goes (
            if b
            then some (record s { v_at = v_opening_reply; cf = open_write s.cf })
            else some (record s { v_at = v_failed }))
          ⊎ ⊥
    opens true = inl (_, refl)
    opens false = inl (_, refl)
server-Goes size cap own scan answer s v_opening_reply =
    if-Goes s.cf.read_opened (record s { v_at = v_open_file })
server-Goes size cap own scan answer s v_open_file = opens (answer s.pathname)
  where
    opens : (o : Option (List ℕ)) → Goes (v_after_open s o) ⊎ ⊥
    opens none = inl (_, refl)
    opens (some f) = inl (_, refl)
server-Goes size cap own scan answer s v_read_file = looks (read_file size s.rest) refl
  where
    looks : (a : Answer) → read_file size s.rest ≡ a → Goes (v_after_read s a) ⊎ ⊥
    looks blocks k = absurd (ground arith)
    looks (gives [] r) k = inl (_, refl)
    looks (gives (b ∷ bs) r) k = inl (_, refl)
server-Goes size cap own scan answer s v_write =
    elim (dec_lt cap (length s.cf.channel.bytes + length s.v_buf)) [
      | yes h ↦ inr h
      | no h ↦ inl (
        record s {
          v_at = v_read_file;
          cf = on_channel s.cf (record s.cf.channel { bytes = s.cf.channel.bytes ++ s.v_buf });
        },
        ground arith,
      )
    ]
server-Goes size cap own scan answer s v_finish = inl (_, refl)
server-Goes size cap own scan answer s v_unlink = inl (_, refl)
server-Goes size cap own scan answer s v_returned = inr tt
server-Goes size cap own scan answer s v_failed = inr tt

-- Both have ended, or the client has found no server.
abbrev pub HaveEnded : State → Type 0
HaveEnded s =
    ((s.c_at ≡ c_returned) × ((s.v_at ≡ v_returned) ⊎ (s.v_at ≡ v_failed))) ⊎ (s.c_at ≡ c_failed)

pub both_blocked :
    {size cap pid : ℕ} {request path whole : List ℕ} {s : State}
    → IsSound request path pid whole s
    → ShortWrite size s.v_buf s.v_at
    → size ≤ cap
    → length request ≤ cap
    → CBlocked cap request s s.c_at
    → VBlocked cap s s.v_at
    → HaveEnded s
both_blocked {s = s} v short room fits a b = blocked s.c_at refl
  where
    blocked : (g : Cpc) → s.c_at ≡ g → HaveEnded s
    blocked c_opening q = absurd (ground (arith, v, a, b))
    blocked c_write q = absurd (ground (arith, v, a, b, short, room, fits))
    blocked c_opening_reply q = absurd (ground (arith, v, a, b))
    blocked c_read q = absurd (ground (arith, v, a, b, short, room))
    blocked c_returned q = ground (arith, v, a, b)
    blocked c_failed q = inr q
    blocked _ q = absurd (ground (arith, a))
