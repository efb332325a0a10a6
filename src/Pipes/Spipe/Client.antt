-- ===== src/Pipes/Spipe/Client.antt =====
-- The client of spipe.c keeps the invariant.
use unpvol.Base.{ℕ, ◌<◌, ◌≡◌, ◌≢◌, refl, arith, Option, none, some, List, [], ◌∷◌, ◌++◌}
use mathlib.Core.List.{append_assoc, append-nil}
use unpvol.Pipes.Channel.{
  Channel, Answer, blocks, gives, read_channel, write_channel, read_channel-++, read_channel-end,
}
use unpvol.Pipes.Spipe.Defs.{
  Cpc, c_close, c_input, c_send, c_read, c_out, Spc, s_close, s_exited, State, c_after_read, client,
}
use unpvol.Pipes.Spipe.Invariant.{IsSound, SKnows, to_come}

module _ {input whole : List ℕ} {s : State} (v : IsSound input whole s) where
  -- Where nobody can write the second pipe any more the server has exited.
  gone : (q : Spc) → s.s_at ≡ q → s.c_at ≡ c_read → s.p2.writers ≡ 0 → q ≡ s_exited
  gone s_exited e h w = refl
  gone s_close e h w = absurd (ground (arith, v.w2))
  gone _ e h w = absurd (ground (arith, v.w2))

  after_read-IsSound :
      {t : State} (size : ℕ) (a : Answer)
      → 0 < size
      → s.c_at ≡ c_read
      → read_channel size s.p2 ≡ a
      → c_after_read s a ≡ some t
      → IsSound input whole t
  unfolding c_after_read
  after_read-IsSound size blocks positive q k e = absurd (ground arith)
  after_read-IsSound size (gives [] r) positive q k e =
      let (no_bytes, no_writers) = read_channel-end size s.p2 positive k in
      let x : s.s_at ≡ s_exited = gone s.s_at refl q no_writers in
      ground (arith, v, no_bytes, no_writers, x, append-nil s.out)
  after_read-IsSound size (gives (b ∷ bs) r) positive q k e = ground (
    arith,
    v,
    read_channel-++ size s.p2 k,
    append_assoc (b ∷ bs) r (to_come whole s.s_buf s.rest s.s_at),
  )

  send-IsSound :
      {t : State} (cap : ℕ) (o : Option Channel)
      → s.c_at ≡ c_send
      → write_channel cap s.c_buf s.p1 ≡ o
      → (elim o [ none ↦ none | some p ↦ some (record s { c_at = c_read; p1 = p }) ]) ≡ some t
      → IsSound input whole t
  send-IsSound cap none q k e = absurd (ground arith)
  send-IsSound cap (some p) q k e =
      let x : SKnows input p.bytes s.s_buf 1 s.s_at = sent s.s_at refl in ground (arith, v, x)
    where
      sent : (g : Spc) → s.s_at ≡ g → SKnows input p.bytes s.s_buf 1 g
      sent s_close h = ground (arith, v)
      sent _ h = ground (arith, v)

  pub client-IsSound :
      {t : State} (size cap : ℕ) (at : Cpc)
      → input ≢ []
      → 0 < size
      → s.c_at ≡ at
      → client size cap input s at ≡ some t
      → IsSound input whole t
  unfolding client
  client-IsSound size cap c_close nonempty positive q e = ground (arith, v)
  client-IsSound size cap c_input nonempty positive q e = ground (arith, v)
  client-IsSound size cap c_send nonempty positive q e =
      send-IsSound cap (write_channel cap s.c_buf s.p1) q refl e
  client-IsSound size cap c_read nonempty positive q e =
      after_read-IsSound size (read_channel size s.p2) positive q refl e
  client-IsSound size cap c_out nonempty positive q e =
      ground
        (arith, v, append_assoc s.out s.c_buf (s.p2.bytes ++ to_come whole s.s_buf s.rest s.s_at))
  client-IsSound size cap _ nonempty positive q e = absurd (ground arith)
