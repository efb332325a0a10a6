-- ===== src/FifoServer/Once/Client.antt =====
-- client.c keeps the invariant.
use unpvol.Base.{ℕ, ◌<◌, ◌≡◌, refl, arith, true, false, Option, none, some, List, [], ◌∷◌, ◌++◌}
use mathlib.Core.List.{append_assoc, append-nil}
use unpvol.Pipes.Channel.{
  Channel, Answer, blocks, gives, read_channel, write_channel, read_channel-++, read_channel-end,
}
use unpvol.FifoServer.Once.Defs.{
  Cpc, c_make, c_open, c_opening, c_write, c_close, c_open_reply, c_opening_reply, c_read, c_out,
  c_unlink, Vpc, v_make, v_open, v_opening, v_read, State, c_after_read, c_after_write, client,
}
use unpvol.FifoServer.Once.Invariant.{v_replies, v_holds, to_come, VKnows, IsSound}

module _ {request path : List ℕ} {pid : ℕ} {whole : List ℕ} {s : State}
    (v : IsSound request path pid whole s) where
  after_read-IsSound :
      {t : State} (size : ℕ) (a : Answer)
      → 0 < size
      → s.c_at ≡ c_read
      → read_channel size s.cf.channel ≡ a
      → c_after_read s a ≡ some t
      → IsSound request path pid whole t
  unfolding c_after_read
  after_read-IsSound size blocks positive q k e = absurd (ground arith)
  after_read-IsSound size (gives [] r) positive q k e =
      let (no_bytes, no_writers) = read_channel-end size s.cf.channel positive k in
      let x : to_come whole s.v_buf s.rest s.v_at ≡ [] =
        nothing_left s.v_at (ground (arith, v.c_writers, no_writers))
          (ground (arith, v.c_knows, q)) in
      ground (arith, v, no_bytes, no_writers, x, append-nil s.out)
    where
      nothing_left :
          (g : Vpc) → v_holds g ≡ 0 → v_replies g ≡ true → to_come whole s.v_buf s.rest g ≡ []
      nothing_left v_make h k = absurd (ground arith)
      nothing_left _ h k = ground (arith, h, k)
  after_read-IsSound size (gives (b ∷ bs) r) positive q k e = ground (
    arith,
    v,
    read_channel-++ size s.cf.channel k,
    append_assoc (b ∷ bs) r (to_come whole s.v_buf s.rest s.v_at),
  )

  after_write-IsSound :
      {t : State} (cap : ℕ) (o : Option Channel)
      → s.c_at ≡ c_write
      → write_channel cap request s.sf.channel ≡ o
      → c_after_write s o ≡ some t
      → IsSound request path pid whole t
  unfolding c_after_write
  after_write-IsSound cap none q k e = absurd (ground arith)
  after_write-IsSound cap (some c) q k e =
      let x : VKnows request path pid c.bytes s.v_buf s.pathname s.cpid true true s.v_at =
        sent s.v_at refl in
      ground (arith, v, x)
    where
      sent :
          (g : Vpc)
          → s.v_at ≡ g
          → VKnows request path pid c.bytes s.v_buf s.pathname s.cpid true true g
      sent v_make h = ground (arith, v)
      sent v_open h = ground (arith, v)
      sent v_opening h = ground (arith, v)
      sent v_read h = ground (arith, v)
      sent _ h = absurd (ground (arith, v.v_knows))

  -- Opening the server's FIFO takes nothing from what the server knows.
  opened-VKnows :
      (g : Vpc)
      → VKnows request path pid s.sf.channel.bytes s.v_buf s.pathname s.cpid false false g
      → VKnows request path pid s.sf.channel.bytes s.v_buf s.pathname s.cpid false true g
  opened-VKnows v_read h = (h.0, refl)
  opened-VKnows v_make h = h
  opened-VKnows v_open h = h
  opened-VKnows v_opening h = h
  opened-VKnows _ h = absurd (ground arith)

  pub client-IsSound :
      {t : State} (size cap : ℕ) (at : Cpc)
      → 0 < size
      → s.c_at ≡ at
      → client size cap request s at ≡ some t
      → IsSound request path pid whole t
  unfolding client
  client-IsSound size cap c_make positive q e = ground (arith, v)
  client-IsSound size cap c_open positive q e = ground (arith, v, opened-VKnows s.v_at)
  client-IsSound size cap c_opening positive q e = ground (arith, v)
  client-IsSound size cap c_write positive q e =
      after_write-IsSound cap (write_channel cap request s.sf.channel) q refl e
  client-IsSound size cap c_close positive q e = ground (arith, v)
  client-IsSound size cap c_open_reply positive q e = ground (arith, v)
  client-IsSound size cap c_opening_reply positive q e = ground (arith, v)
  client-IsSound size cap c_read positive q e =
      after_read-IsSound size (read_channel size s.cf.channel) positive q refl e
  client-IsSound size cap c_out positive q e = ground (
    arith,
    v,
    append_assoc s.out s.c_buf (s.cf.channel.bytes ++ to_come whole s.v_buf s.rest s.v_at),
  )
  client-IsSound size cap c_unlink positive q e = ground (arith, v)
  client-IsSound size cap _ positive q e = absurd (ground arith)
