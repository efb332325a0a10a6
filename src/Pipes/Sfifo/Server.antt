-- ===== src/Pipes/Sfifo/Server.antt =====
-- The server of sfifo.c keeps the invariant.
use unpvol.Base.{
  ℕ, ◌≤◌, ◌<◌, ◌≡◌, ◌≢◌, refl, arith, Option, none, some, List, [], ◌∷◌, ◌++◌, length, take,
  take-drop, take-empty, inl, inr, ◌⊎◌,
}
use mathlib.Core.List.{append_assoc, append-nil}
use unpvol.Pipes.Channel.{
  Channel, Answer, blocks, gives, read_channel, read_file, write_channel, read_channel-++,
  read_channel-end, read_channel_all,
}
use unpvol.Pipes.Sfifo.Defs.{
  open_error, Cpc, c_input, c_send, Spc, s_path, s_open, s_error, s_read, s_write, s_exit, State,
  s_after_path, s_after_open, s_after_read, s_after_write, server,
}
use unpvol.Pipes.Sfifo.Invariant.{IsSound, has_sent, reply}

module _ {input whole : List ℕ} {s : State} (v : IsSound input whole s) where
  sent_cases : (g : Cpc) → (has_sent g ≡ 0) ⊎ (has_sent g ≡ 1)
  sent_cases c_input = inl refl
  sent_cases c_send = inl refl
  sent_cases _ = inr refl

  path-IsSound :
      {t : State} (size : ℕ) (a : Answer)
      → 0 < size
      → input ≢ []
      → length input ≤ size
      → s.s_at ≡ s_path
      → read_channel size s.f1 ≡ a
      → s_after_path s a ≡ some t
      → IsSound input whole t
  unfolding s_after_path
  path-IsSound size blocks positive nonempty fits q k e = absurd (ground arith)
  path-IsSound size (gives [] r) positive nonempty fits q k e =
      let (no_bytes, no_writers) = read_channel-end size s.f1 positive k in
      absurd (ground (arith, v.w1, q, no_writers))
  path-IsSound size (gives (b ∷ bs) r) positive nonempty fits q k e = elim (sent_cases s.c_at) [
    | inl n ↦ absurd (ground (arith, v.s_knows, q, n, read_channel-++ size s.f1 k))
    | inr y ↦
        let x : s.f1.bytes ≡ input = ground (arith, v.s_knows, q, y) in
        let (line, left) = read_channel_all size s.f1 (ground (arith, x, fits)) k in
        ground (arith, v, x, line, left, y)
  ]

  open-IsSound :
      {t : State} (answer : List ℕ → Option (List ℕ)) (o : Option (List ℕ))
      → whole ≡ reply answer input
      → s.s_at ≡ s_open
      → answer s.s_buf ≡ o
      → s_after_open s o ≡ some t
      → IsSound input whole t
  unfolding s_after_open
  open-IsSound answer none w q k e = ground (arith, v)
  open-IsSound answer (some f) w q k e = ground (arith, v)

  read-IsSound :
      {t : State} (size : ℕ) (a : Answer)
      → 0 < size
      → s.s_at ≡ s_read
      → read_file size s.rest ≡ a
      → s_after_read s a ≡ some t
      → IsSound input whole t
  unfolding s_after_read
  read-IsSound size blocks positive q k e = absurd (ground arith)
  read-IsSound size (gives [] r) positive q k e =
      let x : take size s.rest ≡ [] = ground (arith, k) in
      ground (arith, v, take-empty size s.rest positive x)
  read-IsSound size (gives (b ∷ bs) r) positive q k e =
      let x : (b ∷ bs) ++ r ≡ s.rest = ground (arith, k, take-drop size s.rest) in
      ground (arith, v, x)

  write-IsSound :
      {t : State} (cap : ℕ) (o : Option Channel)
      → s.s_at ≡ s_write
      → write_channel cap s.s_buf s.f2 ≡ o
      → s_after_write s s_read o ≡ some t
      → IsSound input whole t
  unfolding s_after_write
  write-IsSound cap none q k e = absurd (ground arith)
  write-IsSound cap (some p) q k e = ground (arith, v, append_assoc s.f2.bytes s.s_buf s.rest)

  error-IsSound :
      {t : State} (cap : ℕ) (o : Option Channel)
      → s.s_at ≡ s_error
      → write_channel cap open_error s.f2 ≡ o
      → s_after_write s s_exit o ≡ some t
      → IsSound input whole t
  unfolding s_after_write
  error-IsSound cap none q k e = absurd (ground arith)
  error-IsSound cap (some p) q k e = ground (arith, v, append-nil (s.f2.bytes ++ open_error))

  pub server-IsSound :
      {t : State} (size cap : ℕ) (answer : List ℕ → Option (List ℕ)) (at : Spc)
      → input ≢ []
      → 0 < size
      → length input ≤ size
      → whole ≡ reply answer input
      → s.s_at ≡ at
      → server size cap answer s at ≡ some t
      → IsSound input whole t
  unfolding server
  server-IsSound size cap answer s_path nonempty positive fits w q e =
      path-IsSound size (read_channel size s.f1) positive nonempty fits q refl e
  server-IsSound size cap answer s_open nonempty positive fits w q e =
      open-IsSound answer (answer s.s_buf) w q refl e
  server-IsSound size cap answer s_error nonempty positive fits w q e =
      error-IsSound cap (write_channel cap open_error s.f2) q refl e
  server-IsSound size cap answer s_read nonempty positive fits w q e =
      read-IsSound size (read_file size s.rest) positive q refl e
  server-IsSound size cap answer s_write nonempty positive fits w q e =
      write-IsSound cap (write_channel cap s.s_buf s.f2) q refl e
  server-IsSound size cap answer s_exit nonempty positive fits w q e = ground (arith, v)
  server-IsSound size cap answer _ nonempty positive fits w q e = absurd (ground arith)
