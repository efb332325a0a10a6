-- ===== src/Pipes/Spipe/Delivery.antt =====
-- What spipe.c delivers, and that it does not stop before.
use unpvol.Base.{
  ℕ, ◌+◌, ◌≤◌, ◌<◌, ◌≡◌, ◌≢◌, refl, arith, Option, none, some, List, [], ◌∷◌, ◌++◌, length,
  length-take, dec_lt, inl, inr, ◌⊎◌,
}
use unpvol.Pipes.Channel.{Answer, blocks, gives, read_channel, read_file, write_channel}
use unpvol.Pipes.Spipe.Defs.{
  open_error, Cpc, c_close, c_input, c_send, c_read, c_out, c_exited, c_eof, Spc, s_close, s_path,
  s_open, s_error, s_read, s_write, s_exit, s_exited, s_broken, State, c_after_read, s_after_path,
  s_after_open, s_after_read, s_after_write, client, server, Step, clients, servers, Reach, start,
  later,
}
use unpvol.Pipes.Spipe.Invariant.{IsSound, reply}
use unpvol.Pipes.Spipe.Defs.{buf_size}
use unpvol.Pipes.Spipe.Client.{client-IsSound}
use unpvol.Pipes.Spipe.Server.{server-IsSound}

abbrev ShortWrite : (size : ℕ) → List ℕ → Spc → Type 0
ShortWrite size s_buf s_write = length s_buf ≤ size
ShortWrite size s_buf _ = Unit

-- What the server writes at once is what it has read at once.
server-ShortWrite :
    (size cap : ℕ) (answer : List ℕ → Option (List ℕ)) (s : State) {t : State} (at : Spc)
    → server size cap answer s at ≡ some t
    → ShortWrite size t.s_buf t.s_at
unfolding server s_after_path s_after_open s_after_read s_after_write
server-ShortWrite size cap answer s {t} s_read e = short (read_file size s.rest) refl e
  where
    short :
        (a : Answer)
        → read_file size s.rest ≡ a
        → s_after_read s a ≡ some t
        → ShortWrite size t.s_buf t.s_at
    short blocks k e = absurd (ground arith)
    short (gives [] r) k e = ground arith
    short (gives (b ∷ bs) r) k e = ground (arith, k, length-take size s.rest)
server-ShortWrite size cap answer s {t} s_path e = away (read_channel size s.p1) e
  where
    away : (a : Answer) → s_after_path s a ≡ some t → ShortWrite size t.s_buf t.s_at
    away blocks e = absurd (ground arith)
    away (gives [] r) e = ground arith
    away (gives (b ∷ bs) r) e = ground arith
server-ShortWrite size cap answer s s_close e = ground arith
server-ShortWrite size cap answer s _ e = ground arith

client-same :
    (size cap : ℕ) (input : List ℕ) (s : State) {t : State} (at : Cpc)
    → client size cap input s at ≡ some t
    → (t.s_at ≡ s.s_at) × (t.s_buf ≡ s.s_buf)
unfolding client c_after_read
client-same size cap input s {t} c_read e = same (read_channel size s.p2) e
  where
    same : (a : Answer) → c_after_read s a ≡ some t → (t.s_at ≡ s.s_at) × (t.s_buf ≡ s.s_buf)
    same blocks e = absurd (ground arith)
    same (gives [] r) e = ground arith
    same (gives (b ∷ bs) r) e = ground arith
client-same size cap input s c_close e = ground arith
client-same size cap input s _ e = ground arith

module _ {size cap : ℕ} {input : List ℕ} {answer : List ℕ → Option (List ℕ)} where
  Reach-ShortWrite : {s : State} → Reach size cap input answer s → ShortWrite size s.s_buf s.s_at
  Reach-ShortWrite start = tt
  Reach-ShortWrite (later {s} r (clients e)) =
      let (a, b) = client-same size cap input s s.c_at e in rw (a, b) (Reach-ShortWrite r)
  Reach-ShortWrite (later {s} r (servers e)) = server-ShortWrite size cap answer s s.s_at e

  Reach-IsSound :
      {s : State}
      → input ≢ []
      → 0 < size
      → length input ≤ size
      → Reach size cap input answer s
      → IsSound input (reply answer input) s
  Reach-IsSound nonempty positive fits start = record {
    w1 = refl;
    w2 = refl;
    c_knows = tt;
    s_knows = (λ h. refl, λ h. absurd (omega arith));
    all = refl;
    done = λ h. absurd (ground arith);
  }
  Reach-IsSound nonempty positive fits (later {s} r (clients e)) =
      client-IsSound (Reach-IsSound nonempty positive fits r) size cap s.c_at nonempty positive refl
        e
  Reach-IsSound nonempty positive fits (later {s} r (servers e)) =
      server-IsSound (Reach-IsSound nonempty positive fits r) size cap answer s.s_at nonempty
        positive fits refl refl e

-- Where a process stands still.
abbrev CBlocked : (cap : ℕ) → State → Cpc → Type 0
CBlocked cap s c_send = cap < length s.p1.bytes + length s.c_buf
CBlocked cap s c_read = (s.p2.bytes ≡ []) × (0 < s.p2.writers)
CBlocked cap s c_exited = Unit
CBlocked cap s c_eof = Unit
CBlocked cap s _ = ⊥

abbrev SBlocked : (cap : ℕ) → State → Spc → Type 0
SBlocked cap s s_path = (s.p1.bytes ≡ []) × (0 < s.p1.writers)
SBlocked cap s s_error = cap < length s.p2.bytes + 11
SBlocked cap s s_write = cap < length s.p2.bytes + length s.s_buf
SBlocked cap s s_exited = Unit
SBlocked cap s s_broken = Unit
SBlocked cap s _ = ⊥

abbrev Goes : Option State → Type 0
Goes o = (t : State) × (o ≡ some t)

write-Goes :
    (s : State) (next : Spc) (cap : ℕ) (xs : List ℕ)
    → Goes (s_after_write s next (write_channel cap xs s.p2))
      ⊎ (cap < length s.p2.bytes + length xs)
unfolding s_after_write
write-Goes s next cap xs = elim (dec_lt cap (length s.p2.bytes + length xs)) [
  | yes h ↦ inr h
  | no h ↦
      inl (record s { s_at = next; p2 = record s.p2 { bytes = s.p2.bytes ++ xs } }, ground arith)
]

client-Goes :
    (size cap : ℕ) (input : List ℕ) (s : State) (at : Cpc)
    → Goes (client size cap input s at) ⊎ CBlocked cap s at
unfolding client c_after_read
client-Goes size cap input s c_close = inl (_, refl)
client-Goes size cap [] s c_input = inl (_, refl)
client-Goes size cap (b ∷ bs) s c_input = inl (_, refl)
client-Goes size cap input s c_send = elim (dec_lt cap (length s.p1.bytes + length s.c_buf)) [
  | yes h ↦ inr h
  | no h ↦
      inl (
        record s { c_at = c_read; p1 = record s.p1 { bytes = s.p1.bytes ++ s.c_buf } },
        ground arith,
      )
]
client-Goes size cap input s c_read = looks (read_channel size s.p2) refl
  where
    looks :
        (a : Answer)
        → read_channel size s.p2 ≡ a
        → Goes (c_after_read s a) ⊎ ((s.p2.bytes ≡ []) × (0 < s.p2.writers))
    looks blocks k = inr (ground arith)
    looks (gives [] r) k = inl (_, refl)
    looks (gives (b ∷ bs) r) k = inl (_, refl)
client-Goes size cap input s c_out = inl (_, refl)
client-Goes size cap input s c_exited = inr tt
client-Goes size cap input s c_eof = inr tt

server-Goes :
    (size cap : ℕ) (answer : List ℕ → Option (List ℕ)) (s : State) (at : Spc)
    → Goes (server size cap answer s at) ⊎ SBlocked cap s at
unfolding server s_after_path s_after_open s_after_read
server-Goes size cap answer s s_close = inl (_, refl)
server-Goes size cap answer s s_path = looks (read_channel size s.p1) refl
  where
    looks :
        (a : Answer)
        → read_channel size s.p1 ≡ a
        → Goes (s_after_path s a) ⊎ ((s.p1.bytes ≡ []) × (0 < s.p1.writers))
    looks blocks k = inr (ground arith)
    looks (gives [] r) k = inl (_, refl)
    looks (gives (b ∷ bs) r) k = inl (_, refl)
server-Goes size cap answer s s_open = opens (answer s.s_buf)
  where
    opens : (o : Option (List ℕ)) → Goes (s_after_open s o) ⊎ ⊥
    opens none = inl (_, refl)
    opens (some f) = inl (_, refl)
server-Goes size cap answer s s_error = write-Goes s s_exit cap open_error
server-Goes size cap answer s s_read = looks (read_file size s.rest) refl
  where
    looks : (a : Answer) → read_file size s.rest ≡ a → Goes (s_after_read s a) ⊎ ⊥
    looks blocks k = absurd (ground arith)
    looks (gives [] r) k = inl (_, refl)
    looks (gives (b ∷ bs) r) k = inl (_, refl)
server-Goes size cap answer s s_write = write-Goes s s_read cap s.s_buf
server-Goes size cap answer s s_exit = inl (_, refl)
server-Goes size cap answer s s_exited = inr tt
server-Goes size cap answer s s_broken = inr tt

both_blocked :
    {size cap : ℕ} {input whole : List ℕ} {s : State}
    → IsSound input whole s
    → input ≢ []
    → ShortWrite size s.s_buf s.s_at
    → length input ≤ size
    → size ≤ cap
    → 11 ≤ cap
    → CBlocked cap s s.c_at
    → SBlocked cap s s.s_at
    → (s.c_at ≡ c_exited) × (s.s_at ≡ s_exited)
both_blocked v nonempty short fits room room' a b = ground (arith, v)

-- With the buffers of 512 bytes, pipes that hold as much, and a line of 1 to 512 bytes on standard
-- input, in a reachable state of the two processes of spipe: what the client has written is the
-- beginning of the reply (the contents of the file whose path the line has, or the text of the
-- error), and all of it once the client has exited; the server has not written before its buffer; and
-- one of the two can go on, or both have exited.
pub reply_arrives :
    {cap : ℕ} {input : List ℕ} {answer : List ℕ → Option (List ℕ)} {s : State}
    → buf_size ≤ cap
    → input ≢ []
    → length input ≤ buf_size
    → Reach buf_size cap input answer s
    → ((later : List ℕ) × (s.out ++ later ≡ reply answer input))
      × (s.c_at ≡ c_exited → s.out ≡ reply answer input)
      × (s.s_at ≢ s_broken)
      × (((t : State) × Step buf_size cap input answer s t)
          ⊎ ((s.c_at ≡ c_exited) × (s.s_at ≡ s_exited)))
reply_arrives {cap} {input} {answer} {s} room nonempty fits r =
    let v = Reach-IsSound nonempty (omega arith) fits r in
    (
      (_, v.all),
      λ q. (v.done q).1,
      λ q. absurd (ground (arith, v.s_knows)),
      elim (client-Goes buf_size cap input s s.c_at) [
        | inl (t, e) ↦ inl (t, clients e)
        | inr a ↦ elim (server-Goes buf_size cap answer s s.s_at) [
          | inl (t, e) ↦ inl (t, servers e)
          | inr b ↦
              inr (both_blocked v nonempty (Reach-ShortWrite r) fits room (omega (arith, room)) a b)
        ]
      ],
    )

-- Where standard input of spipe is empty a state can be reached in which the server has written before
-- its buffer, whatever the files hold.
pub empty_line_breaks :
    {cap : ℕ} {answer : List ℕ → Option (List ℕ)}
    → (s : State) × Reach buf_size cap [] answer s × (s.s_at ≡ s_broken)
unfolding client server s_after_path
empty_line_breaks = (
  _,
  later (later (later (later start (clients refl)) (clients refl)) (servers refl)) (servers refl),
  refl,
)
