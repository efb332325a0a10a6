-- ===== src/FifoServer/Fork/Child.antt =====
-- The child of serverfork.c: it has a copy of the request in its buffer and answers it as server.c does,
-- but leaves the server's FIFO to its parent.
mod Tests
use unpvol.Base.{
  ℕ, zero, suc, ◌+◌, ◌≤◌, ◌<◌, ◌≡◌, ◌≢◌, ◌⊎◌, inl, inr, refl, arith, true, false, Option, none,
  some, List, [], ◌∷◌, ◌++◌, length,
}
use unpvol.Pipes.Channel.{Channel, Answer, blocks, gives, read_file, write_channel, close_writer}
use unpvol.FifoServer.Once.Defs.{
  buf_size, on_channel, Cpc, c_close, c_returned, c_failed, Vpc, v_make, v_open, v_opening, v_read,
  v_scan, v_close, v_open_reply, v_opening_reply, v_open_file, v_read_file, v_write, v_finish,
  v_unlink, v_returned, v_failed, State, client, server, v_after_open, v_after_read, v_after_write,
  Setting,
}
use unpvol.FifoServer.Once.Invariant.{text_of, IsSound}
use unpvol.FifoServer.Once.Client.{client-IsSound}
use unpvol.FifoServer.Once.Server.{server-IsSound}
use unpvol.FifoServer.Once.Blocked.{
  ShortWrite, server-ShortWrite, client-same, Goes, VBlocked, client-Goes, server-Goes, HaveEnded,
  both_blocked,
}
use unpvol.FifoServer.Once.Delivery.{IsFit, reply}

-- From `sscanf` to the `exit`; `v_finish` closes the FIFO of the client.
unfoldable pub child :
    (size cap own : ℕ) (scan : List ℕ → ℕ × List ℕ) (answer : List ℕ → Option (List ℕ))
    → State
    → Vpc
    → Option State
child size cap own scan answer s v_scan =
    some (record s { v_at = v_open_reply; cpid = (scan s.v_buf).0; pathname = (scan s.v_buf).1 })
child size cap own scan answer s v_open_reply = server size cap own scan answer s v_open_reply
child size cap own scan answer s v_opening_reply = server size cap own scan answer s v_opening_reply
child size cap own scan answer s v_open_file = server size cap own scan answer s v_open_file
child size cap own scan answer s v_read_file = server size cap own scan answer s v_read_file
child size cap own scan answer s v_write = server size cap own scan answer s v_write
child size cap own scan answer s v_finish =
    some (record s { v_at = v_returned; cf = on_channel s.cf (close_writer s.cf.channel) })
child size cap own scan answer s _ = none

-- After the `fork`, at the earliest: the client has written its request and not yet closed the FIFO.
abbrev pub forked : List ℕ → State
forked request = record {
  sf = record {
    made = true;
    channel = record { bytes = []; writers = 1 };
    read_opened = true;
    write_opened = true;
  };
  cf = record {
    made = true;
    channel = record { bytes = []; writers = 0 };
    read_opened = false;
    write_opened = false;
  };
  c_at = c_close;
  c_buf = [];
  out = [];
  v_at = v_scan;
  v_buf = request;
  cpid = 0;
  pathname = [];
  rest = [];
}

pub data Step (e : Setting) (s : State) : State → Type 0 where
  clients :
      {t : State} → client buf_size e.cap (e.request e.pid e.path) s s.c_at ≡ some t → Step e s t
  children : {t : State} → child buf_size e.cap e.pid e.scan e.answer s s.v_at ≡ some t → Step e s t

pub data Reach (e : Setting) : State → Type 0 where
  start : Reach e (forked (e.request e.pid e.path))
  later : {s t : State} → Reach e s → Step e s t → Reach e t

-- The places of a child.
abbrev InChild : Vpc → Type 0
InChild v_make = ⊥
InChild v_open = ⊥
InChild v_opening = ⊥
InChild v_read = ⊥
InChild v_close = ⊥
InChild v_unlink = ⊥
InChild _ = Unit

child-InChild :
    (size cap own : ℕ) (scan : List ℕ → ℕ × List ℕ) (answer : List ℕ → Option (List ℕ)) (s : State)
    {t : State} (at : Vpc)
    → child size cap own scan answer s at ≡ some t
    → InChild t.v_at
unfolding child server v_after_open v_after_read v_after_write
child-InChild size cap own scan answer s {t} v_open_file e = opens (answer s.pathname) e
  where
    opens : (o : Option (List ℕ)) → v_after_open s o ≡ some t → InChild t.v_at
    opens none e = ground arith
    opens (some f) e = ground arith
child-InChild size cap own scan answer s {t} v_read_file e = reads (read_file size s.rest) e
  where
    reads : (a : Answer) → v_after_read s a ≡ some t → InChild t.v_at
    reads blocks e = absurd (ground arith)
    reads (gives [] r) e = ground arith
    reads (gives (b ∷ bs) r) e = ground arith
child-InChild size cap own scan answer s _ e = ground arith

child-ShortWrite :
    (size cap own : ℕ) (scan : List ℕ → ℕ × List ℕ) (answer : List ℕ → Option (List ℕ)) (s : State)
    {t : State} (at : Vpc)
    → child size cap own scan answer s at ≡ some t
    → ShortWrite size t.v_buf t.v_at
unfolding child
child-ShortWrite size cap own scan answer s v_open_reply e =
    server-ShortWrite size cap own scan answer s v_open_reply e
child-ShortWrite size cap own scan answer s v_opening_reply e =
    server-ShortWrite size cap own scan answer s v_opening_reply e
child-ShortWrite size cap own scan answer s v_open_file e =
    server-ShortWrite size cap own scan answer s v_open_file e
child-ShortWrite size cap own scan answer s v_read_file e =
    server-ShortWrite size cap own scan answer s v_read_file e
child-ShortWrite size cap own scan answer s v_write e =
    server-ShortWrite size cap own scan answer s v_write e
child-ShortWrite size cap own scan answer s _ e = ground arith

child-IsSound :
    {request path : List ℕ} {pid : ℕ} {whole : List ℕ} {s t : State}
    (v : IsSound request path pid whole s) (size cap : ℕ) (scan : List ℕ → ℕ × List ℕ)
    (answer : List ℕ → Option (List ℕ)) (at : Vpc)
    → 0 < size
    → request ≢ []
    → length request ≤ size
    → scan request ≡ (pid, path)
    → whole ≡ text_of (answer path)
    → s.v_at ≡ at
    → child size cap pid scan answer s at ≡ some t
    → IsSound request path pid whole t
unfolding child
child-IsSound v size cap scan answer v_scan positive sr fits sc w q e = ground (arith, v, sc)
child-IsSound v size cap scan answer v_finish positive sr fits sc w q e = ground (arith, v)
child-IsSound v size cap scan answer v_open_reply positive sr fits sc w q e =
    server-IsSound v size cap scan answer v_open_reply positive sr fits sc w q e
child-IsSound v size cap scan answer v_opening_reply positive sr fits sc w q e =
    server-IsSound v size cap scan answer v_opening_reply positive sr fits sc w q e
child-IsSound v size cap scan answer v_open_file positive sr fits sc w q e =
    server-IsSound v size cap scan answer v_open_file positive sr fits sc w q e
child-IsSound v size cap scan answer v_read_file positive sr fits sc w q e =
    server-IsSound v size cap scan answer v_read_file positive sr fits sc w q e
child-IsSound v size cap scan answer v_write positive sr fits sc w q e =
    server-IsSound v size cap scan answer v_write positive sr fits sc w q e
child-IsSound v size cap scan answer _ positive sr fits sc w q e = absurd (ground arith)

child-Goes :
    (size cap own : ℕ) (scan : List ℕ → ℕ × List ℕ) (answer : List ℕ → Option (List ℕ)) (s : State)
    (at : Vpc)
    → InChild at
    → Goes (child size cap own scan answer s at) ⊎ VBlocked cap s at
unfolding child
child-Goes size cap own scan answer s v_scan h = inl (_, refl)
child-Goes size cap own scan answer s v_finish h = inl (_, refl)
child-Goes size cap own scan answer s v_open_reply h =
    server-Goes size cap own scan answer s v_open_reply
child-Goes size cap own scan answer s v_opening_reply h =
    server-Goes size cap own scan answer s v_opening_reply
child-Goes size cap own scan answer s v_open_file h =
    server-Goes size cap own scan answer s v_open_file
child-Goes size cap own scan answer s v_read_file h =
    server-Goes size cap own scan answer s v_read_file
child-Goes size cap own scan answer s v_write h = server-Goes size cap own scan answer s v_write
child-Goes size cap own scan answer s v_returned h = inr tt
child-Goes size cap own scan answer s v_failed h = inr tt
child-Goes size cap own scan answer s _ h = absurd h

module _ {e : Setting} where
  Reach-InChild : {s : State} → Reach e s → InChild s.v_at
  Reach-InChild start = tt
  Reach-InChild (later {s} r (clients k)) =
      let (a, b) = client-same buf_size e.cap (e.request e.pid e.path) s s.c_at k in
      rw a (Reach-InChild r)
  Reach-InChild (later {s} r (children k)) =
      child-InChild buf_size e.cap e.pid e.scan e.answer s s.v_at k

  Reach-ShortWrite : {s : State} → Reach e s → ShortWrite buf_size s.v_buf s.v_at
  Reach-ShortWrite start = tt
  Reach-ShortWrite (later {s} r (clients k)) =
      let (a, b) = client-same buf_size e.cap (e.request e.pid e.path) s s.c_at k in
      rw (a, b) (Reach-ShortWrite r)
  Reach-ShortWrite (later {s} r (children k)) =
      child-ShortWrite buf_size e.cap e.pid e.scan e.answer s s.v_at k

  Reach-IsSound :
      {s : State} → IsFit e → Reach e s → IsSound (e.request e.pid e.path) e.path e.pid (reply e) s
  Reach-IsSound f start = record {
    s_writers = refl;
    c_writers = refl;
    s_read = refl;
    s_write = refl;
    c_read = refl;
    c_write = refl;
    name = λ h. refl;
    c_knows = tt;
    v_knows = (refl, refl);
    all = refl;
  }
  Reach-IsSound f (later {s} r (clients k)) =
      client-IsSound (Reach-IsSound f r) buf_size e.cap s.c_at (omega arith) refl k
  Reach-IsSound f (later {s} r (children k)) =
      child-IsSound (Reach-IsSound f r) buf_size e.cap e.scan e.answer s.v_at (omega arith)
        (λ q. absurd (ground (arith, f.bytes, q))) (omega (arith, f.bytes)) f.scans refl refl k

-- A client of a child does not end for want of a server.
not_failed :
    {request path : List ℕ} {pid : ℕ} {whole : List ℕ} {s : State}
    → IsSound request path pid whole s
    → (at : Vpc) → s.v_at ≡ at
    → InChild at
    → s.c_at ≢ c_failed
not_failed v v_make q h c = absurd h
not_failed v v_open q h c = absurd h
not_failed v v_opening q h c = absurd h
not_failed v v_read q h c = absurd h
not_failed v _ q h c = ground (arith, v.v_knows)

-- For one client whose request a child of serverfork has been forked with, where the library formats and
-- scans the request as `IsFit` says and a FIFO holds 64 bytes at least: in a reachable state what the
-- client has written is the beginning of the reply (the contents of the file, or nothing where it cannot
-- be opened), and all of it once the client has returned; and one of the two can go on, or both have
-- ended, the client by its return.
pub child_answers :
    {e : Setting} {s : State}
    → IsFit e
    → Reach e s
    → ((later : List ℕ) × (s.out ++ later ≡ reply e))
      × (s.c_at ≡ c_returned → s.out ≡ reply e)
      × (((t : State) × Step e s t)
          ⊎ ((s.c_at ≡ c_returned) × ((s.v_at ≡ v_returned) ⊎ (s.v_at ≡ v_failed))))
child_answers {e} {s} f r =
    let v = Reach-IsSound f r in
    (
      (_, v.all),
      λ q. ground (arith, v.c_knows, q),
      elim (client-Goes buf_size e.cap (e.request e.pid e.path) s s.c_at) [
        | inl (t, k) ↦ inl (t, clients k)
        | inr a ↦
            elim (child-Goes buf_size e.cap e.pid e.scan e.answer s s.v_at (Reach-InChild r)) [
              | inl (t, k) ↦ inl (t, children k)
              | inr b ↦
                  elim (both_blocked v (Reach-ShortWrite r) f.room (omega (arith, f.room, f.bytes))
                    a b) [
                      | inl ended ↦ inr ended
                      | inr c ↦ absurd (not_failed v s.v_at refl (Reach-InChild r) c)
                    ]
            ]
      ],
    )
