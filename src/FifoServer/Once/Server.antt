-- ===== src/FifoServer/Once/Server.antt =====
-- server.c keeps the invariant.
use unpvol.Base.{
  ℕ, ◌≤◌, ◌<◌, ◌≡◌, ◌≢◌, inl, inr, refl, arith, true, false, Option, none, some, List, [], ◌∷◌,
  ◌++◌, length, take, take-drop, take-empty, Bool-cases,
}
use mathlib.Core.List.{append_assoc}
use unpvol.Pipes.Channel.{
  Channel, Answer, blocks, gives, read_channel, read_file, write_channel, read_channel_all,
}
use unpvol.FifoServer.Once.Defs.{
  Cpc, c_make, c_unlink, c_returned, Vpc, v_make, v_open, v_opening, v_read, v_scan, v_close,
  v_open_reply, v_opening_reply, v_open_file, v_read_file, v_write, v_finish, v_unlink, State,
  v_after_request, v_after_open, v_after_read, v_after_write, server,
}
use unpvol.FifoServer.Once.Invariant.{c_opened, c_holds, wrote, text_of, IsSound}

module _ {request path : List ℕ} {pid : ℕ} {whole : List ℕ} {s : State}
    (v : IsSound request path pid whole s) where
  -- A client that has opened the FIFO and not written holds it.
  holds_until_written : (g : Cpc) → c_opened g ≡ true → wrote g ≡ false → 0 < c_holds g
  holds_until_written c_make h k = absurd (ground arith)
  holds_until_written _ h k = ground (arith, h, k)

  request-IsSound :
      {t : State} (size : ℕ) (a : Answer)
      → 0 < size
      → request ≢ []
      → length request ≤ size
      → s.v_at ≡ v_read
      → read_channel size s.sf.channel ≡ a
      → v_after_request s a ≡ some t
      → IsSound request path pid whole t
  unfolding v_after_request
  request-IsSound size blocks positive some_request fits q k e = absurd (ground arith)
  request-IsSound size (gives bs r) positive some_request fits q k e =
      let o : c_opened s.c_at ≡ true = ground (arith, v.v_knows, q) in
      elim (Bool-cases (wrote s.c_at)) [
        | inr n ↦
            let empty : s.sf.channel.bytes ≡ [] = ground (arith, v.v_knows, q, n) in
            let w : 0 < s.sf.channel.writers =
              omega (arith, v.s_writers, holds_until_written s.c_at o n) in
            absurd (ground (arith, empty, w, k))
        | inl y ↦
            let x : s.sf.channel.bytes ≡ request = ground (arith, v.v_knows, q, y) in
            let (line, left) = read_channel_all size s.sf.channel (ground (arith, x, fits)) k in
            ground (arith, v, x, line, left, y)
      ]

  open-IsSound :
      {t : State} (answer : List ℕ → Option (List ℕ)) (o : Option (List ℕ))
      → whole ≡ text_of (answer path)
      → s.v_at ≡ v_open_file
      → answer s.pathname ≡ o
      → v_after_open s o ≡ some t
      → IsSound request path pid whole t
  unfolding v_after_open
  open-IsSound answer none w q k e = ground (arith, v)
  open-IsSound answer (some f) w q k e = ground (arith, v)

  read-IsSound :
      {t : State} (size : ℕ) (a : Answer)
      → 0 < size
      → s.v_at ≡ v_read_file
      → read_file size s.rest ≡ a
      → v_after_read s a ≡ some t
      → IsSound request path pid whole t
  unfolding v_after_read
  read-IsSound size blocks positive q k e = absurd (ground arith)
  read-IsSound size (gives [] r) positive q k e =
      let x : take size s.rest ≡ [] = ground (arith, k) in
      ground (arith, v, take-empty size s.rest positive x)
  read-IsSound size (gives (b ∷ bs) r) positive q k e =
      let x : (b ∷ bs) ++ r ≡ s.rest = ground (arith, k, take-drop size s.rest) in
      ground (arith, v, x)

  write-IsSound :
      {t : State} (cap : ℕ) (o : Option Channel)
      → s.v_at ≡ v_write
      → write_channel cap s.v_buf s.cf.channel ≡ o
      → v_after_write s o ≡ some t
      → IsSound request path pid whole t
  unfolding v_after_write
  write-IsSound cap none q k e = absurd (ground arith)
  write-IsSound cap (some c) q k e =
      ground (arith, v, append_assoc s.cf.channel.bytes s.v_buf s.rest)

  -- While the server has not opened the client's FIFO its name is there.
  name_there : (g : Cpc) → s.c_at ≡ g → s.v_at ≡ v_open_reply → s.cf.made ≡ true
  name_there c_make q h = absurd (ground (arith, v.v_knows))
  name_there c_unlink q h = ground (arith, v.name)
  name_there c_returned q h = absurd (ground (arith, v.c_knows))
  name_there _ q h = ground (arith, v.name, v.v_knows)

  pub server-IsSound :
      {t : State} (size cap : ℕ) (scan : List ℕ → ℕ × List ℕ) (answer : List ℕ → Option (List ℕ))
      (at : Vpc)
      → 0 < size
      → request ≢ []
      → length request ≤ size
      → scan request ≡ (pid, path)
      → whole ≡ text_of (answer path)
      → s.v_at ≡ at
      → server size cap pid scan answer s at ≡ some t
      → IsSound request path pid whole t
  unfolding server
  server-IsSound size cap scan answer v_make positive sr fits sc w q e = ground (arith, v)
  server-IsSound size cap scan answer v_open positive sr fits sc w q e = ground (arith, v)
  server-IsSound size cap scan answer v_opening positive sr fits sc w q e = ground (arith, v)
  server-IsSound size cap scan answer v_read positive sr fits sc w q e =
      request-IsSound size (read_channel size s.sf.channel) positive sr fits q refl e
  server-IsSound size cap scan answer v_scan positive sr fits sc w q e = ground (arith, v, sc)
  server-IsSound size cap scan answer v_close positive sr fits sc w q e = ground (arith, v)
  server-IsSound size cap scan answer v_open_reply positive sr fits sc w q e =
      ground (arith, v, name_there s.c_at refl q)
  server-IsSound size cap scan answer v_opening_reply positive sr fits sc w q e = ground (arith, v)
  server-IsSound size cap scan answer v_open_file positive sr fits sc w q e =
      open-IsSound answer (answer s.pathname) w q refl e
  server-IsSound size cap scan answer v_read_file positive sr fits sc w q e =
      read-IsSound size (read_file size s.rest) positive q refl e
  server-IsSound size cap scan answer v_write positive sr fits sc w q e =
      write-IsSound cap (write_channel cap s.v_buf s.cf.channel) q refl e
  server-IsSound size cap scan answer v_finish positive sr fits sc w q e = ground (arith, v)
  server-IsSound size cap scan answer v_unlink positive sr fits sc w q e = ground (arith, v)
  server-IsSound size cap scan answer _ positive sr fits sc w q e = absurd (ground arith)
