-- ===== src/FifoServer/Once/Delivery.antt =====
-- What the client of one request gets, and that the two do not stop before.
use unpvol.Base.{ℕ, ◌≤◌, ◌≡◌, ◌⊎◌, inl, inr, refl, arith, List, ◌++◌, length}
use unpvol.FifoServer.Once.Defs.{
  buf_size, c_returned, State, Setting, Step, clients, servers, Reach, start, later,
}
use unpvol.FifoServer.Once.Invariant.{text_of, IsSound}
use unpvol.FifoServer.Once.Client.{client-IsSound}
use unpvol.FifoServer.Once.Server.{server-IsSound}
use unpvol.FifoServer.Once.Blocked.{
  ShortWrite, server-ShortWrite, client-same, client-Goes, server-Goes, HaveEnded, both_blocked,
}

-- What the code relies on of `snprintf` and `sscanf`: a request is written into 64 bytes, and scanning
-- gives back the number and the path of this one (which therefore fits, and has no blank).
pub record IsFit (e : Setting) : Type 0 where
  pub room : buf_size ≤ e.cap
  pub bytes : length (e.request e.pid e.path) ≡ buf_size
  pub scans : e.scan (e.request e.pid e.path) ≡ (e.pid, e.path)

-- What the reply to the request is.
abbrev pub reply : Setting → List ℕ
reply e = text_of (e.answer e.path)

module _ {e : Setting} where
  Reach-ShortWrite : {s : State} → Reach e s → ShortWrite buf_size s.v_buf s.v_at
  Reach-ShortWrite start = tt
  Reach-ShortWrite (later {s} r (clients k)) =
      let (a, b) = client-same buf_size e.cap (e.request e.pid e.path) s s.c_at k in
      rw (a, b) (Reach-ShortWrite r)
  Reach-ShortWrite (later {s} r (servers k)) =
      server-ShortWrite buf_size e.cap e.pid e.scan e.answer s s.v_at k

  Reach-IsSound :
      {s : State} → IsFit e → Reach e s → IsSound (e.request e.pid e.path) e.path e.pid (reply e) s
  Reach-IsSound f start = record {
    s_writers = refl;
    c_writers = refl;
    s_read = refl;
    s_write = refl;
    c_read = refl;
    c_write = refl;
    name = λ h. absurd (ground arith);
    c_knows = tt;
    v_knows = (λ h. refl, λ h. absurd (ground arith));
    all = refl;
  }
  Reach-IsSound f (later {s} r (clients k)) =
      client-IsSound (Reach-IsSound f r) buf_size e.cap s.c_at (omega arith) refl k
  Reach-IsSound f (later {s} r (servers k)) =
      server-IsSound (Reach-IsSound f r) buf_size e.cap e.scan e.answer s.v_at (omega arith)
        (λ q. absurd (ground (arith, f.bytes, q))) (omega (arith, f.bytes)) f.scans refl refl k

-- For one client and server.c, where the library formats and scans the request as `IsFit` says and a
-- FIFO holds 64 bytes at least, and whether or not the names of the two FIFOs were there before: in a
-- reachable state what the client has written is the beginning of the reply (the contents of the file,
-- or nothing where it cannot be opened), and all of it once the client has returned; and one of the two
-- can go on, or both have ended, or the client has ended because the server's FIFO was not there.
pub one_request_served :
    {e : Setting} {s : State}
    → IsFit e
    → Reach e s
    → ((later : List ℕ) × (s.out ++ later ≡ reply e))
      × (s.c_at ≡ c_returned → s.out ≡ reply e)
      × (((t : State) × Step e s t) ⊎ HaveEnded s)
one_request_served {e} {s} f r =
    let v = Reach-IsSound f r in
    (
      (_, v.all),
      λ q. ground (arith, v.c_knows, q),
      elim (client-Goes buf_size e.cap (e.request e.pid e.path) s s.c_at) [
        | inl (t, k) ↦ inl (t, clients k)
        | inr a ↦ elim (server-Goes buf_size e.cap e.pid e.scan e.answer s s.v_at) [
          | inl (t, k) ↦ inl (t, servers k)
          | inr b ↦
              inr (both_blocked v (Reach-ShortWrite r) f.room (omega (arith, f.room, f.bytes)) a b)
        ]
      ],
    )
