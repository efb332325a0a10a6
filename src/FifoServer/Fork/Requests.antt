-- ===== src/FifoServer/Fork/Requests.antt =====
-- The parent of serverfork.c: it reads requests from its FIFO and forks a child for each.
use unpvol.Base.{
  ℕ, Bool, true, false, ◌+◌, ◌≡◌, inl, inr, subst, refl, arith, Option, none, some, List, [], ◌∷◌,
  ◌++◌, length, ◌∙◌, ap, sym, leb,
}
use mathlib.Core.List.{append_assoc}
use unpvol.Pipes.Channel.{Channel, Answer, blocks, gives, read_channel, write_channel, close_writer}
use unpvol.FifoServer.Once.Defs.{buf_size}
use unpvol.FifoServer.Whole.{flatten, AllOf, flatten-++, AllOf-++, read_request, read_none}

-- The server's FIFO, which stays open for reading; the buffers that the children were forked with and
-- the requests that clients have written, the oldest first.
pub record State : Type 0 where
  pub channel : Channel
  pub children : List (List ℕ)
  pub written : List (List ℕ)

-- The parent after the answer of its `read`: with 0 bytes, when no client has the FIFO open, it reads
-- again.
unfoldable pub after_read : State → Answer → Option State
after_read s blocks = none
after_read s (gives [] r) = some s
after_read s (gives (b ∷ bs) r) = some (record s {
  children = s.children ++ ((b ∷ bs) ∷ []);
  channel = record s.channel { bytes = r };
})

-- A round of the loop of `main`.
abbrev pub serve : (size : ℕ) → State → Option State
serve size s = after_read s (read_channel size s.channel)

-- A client writes the `size` bytes of its request at once.
abbrev pub request : (cap : ℕ) → List ℕ → State → Option State
request cap bytes s = elim (write_channel cap bytes s.channel) [
  | none ↦ none
  | some c ↦ some (record s { channel = c; written = s.written ++ (bytes ∷ []) })
]

pub data Step (cap : ℕ) (s : State) : State → Type 0 where
  serves : {t : State} → serve buf_size s ≡ some t → Step cap s t
  requests :
      {t : State} (bytes : List ℕ)
      → length bytes ≡ buf_size
      → request cap bytes s ≡ some t
      → Step cap s t
  opens : Step cap s (record s { channel = record s.channel { writers = s.channel.writers + 1 } })
  closes : Step cap s (record s { channel = close_writer s.channel })

-- After `open` of the server's FIFO, which waits for a first client.
abbrev pub main : State
main = record { channel = record { bytes = []; writers = 1 }; children = []; written = [] }

pub data Reach (cap : ℕ) : State → Type 0 where
  start : Reach cap main
  later : {s t : State} → Reach cap s → Step cap s t → Reach cap t

-- What is in the FIFO are whole requests, those that no child has.
pub record IsWhole (s : State) : Type 0 where
  pub waiting : List (List ℕ)
  pub order : s.written ≡ s.children ++ waiting
  pub in_fifo : s.channel.bytes ≡ flatten waiting
  pub whole : AllOf buf_size waiting
  pub taken : AllOf buf_size s.children

serve-IsWhole : {s t : State} → IsWhole s → serve buf_size s ≡ some t → IsWhole t
unfolding after_read
serve-IsWhole {s} {t} g e = first g.waiting g.order g.in_fifo g.whole
  where
    first :
        (xss : List (List ℕ))
        → s.written ≡ s.children ++ xss
        → s.channel.bytes ≡ flatten xss
        → AllOf buf_size xss
        → IsWhole t
    first [] o f w = elim (read_none buf_size s.channel f) [
      | inl q ↦ absurd (nothing_read q)
      | inr q ↦ subst IsWhole (reads_again q) g
    ]
      where
        nothing_read : ¬ (read_channel buf_size s.channel ≡ blocks)
        nothing_read q = cc (ap (after_read s) q, e)

        reads_again : read_channel buf_size s.channel ≡ gives [] [] → s ≡ t
        reads_again q = cc (ap (after_read s) q, e)
    first ([] ∷ xss) o f w = absurd (omega (arith, w.0))
    first ((x ∷ xs) ∷ xss) o f w = subst IsWhole takes (record {
      waiting = xss;
      order = o ∙ sym (append_assoc s.children ((x ∷ xs) ∷ []) xss);
      in_fifo = refl;
      whole = w.1;
      taken = AllOf-++ buf_size s.children (x ∷ xs) g.taken w.0;
    })
      where
        takes :
            record s {
              children = s.children ++ ((x ∷ xs) ∷ []);
              channel = record s.channel { bytes = flatten xss };
            }
            ≡ t
        takes = cc (
          ap (after_read s) (read_request buf_size s.channel (x ∷ xs) xss (omega arith) w.0 f),
          e,
        )

request-IsWhole :
    (cap : ℕ) {s t : State} (bytes : List ℕ)
    → IsWhole s
    → length bytes ≡ buf_size
    → request cap bytes s ≡ some t
    → IsWhole t
request-IsWhole cap {s} {t} bytes g h e =
    room (leb (length s.channel.bytes + length bytes) cap) refl
  where
    added :
        record s {
          channel = record s.channel { bytes = s.channel.bytes ++ bytes };
          written = s.written ++ (bytes ∷ []);
        }
          ≡ t
        → IsWhole t
    added q = subst IsWhole q (record {
      waiting = g.waiting ++ (bytes ∷ []);
      order = ap (λ w. w ++ (bytes ∷ [])) g.order ∙ append_assoc s.children g.waiting (bytes ∷ []);
      in_fifo = ap (λ b. b ++ bytes) g.in_fifo ∙ sym (flatten-++ g.waiting bytes);
      whole = AllOf-++ buf_size g.waiting bytes g.whole h;
      taken = g.taken;
    })

    room : (b : Bool) → leb (length s.channel.bytes + length bytes) cap ≡ b → IsWhole t
    room true k = added (ground (arith, k, e))
    room false k = absurd (ground (arith, k, e))

Reach-IsWhole : {cap : ℕ} {s : State} → Reach cap s → IsWhole s
Reach-IsWhole start = record { waiting = []; order = refl; in_fifo = refl; whole = tt; taken = tt }
Reach-IsWhole (later r (serves e)) = serve-IsWhole (Reach-IsWhole r) e
Reach-IsWhole {cap} (later r (requests bytes h e)) = request-IsWhole cap bytes (Reach-IsWhole r) h e
Reach-IsWhole (later r opens) =
    let g = Reach-IsWhole r in
    record {
      waiting = g.waiting;
      order = g.order;
      in_fifo = g.in_fifo;
      whole = g.whole;
      taken = g.taken;
    }
Reach-IsWhole (later r closes) =
    let g = Reach-IsWhole r in
    record {
      waiting = g.waiting;
      order = g.order;
      in_fifo = g.in_fifo;
      whole = g.whole;
      taken = g.taken;
    }

-- In a state that the parent of serverfork reaches, where each request is written in one piece of 64
-- bytes: the children's buffers are the first requests written, whole and in the order of writing,
-- and the FIFO holds the others; while one is waiting the next round gives it to a child; and with none
-- waiting and no client at the FIFO a round changes nothing, so that the loop does not end.
pub requests_in_order :
    {cap : ℕ} {s : State}
    → Reach cap s
    → (waiting : List (List ℕ)) × (s.written ≡ s.children ++ waiting)
      × (s.channel.bytes ≡ flatten waiting)
      × AllOf buf_size s.children
      × ((xs : List ℕ) (xss : List (List ℕ))
          → waiting ≡ xs ∷ xss
          → (t : State) × (serve buf_size s ≡ some t) × (t.children ≡ s.children ++ (xs ∷ [])))
      × (waiting ≡ [] → s.channel.writers ≡ 0 → serve buf_size s ≡ some s)
unfolding after_read
requests_in_order {cap} {s} r =
    let g = Reach-IsWhole r in (g.waiting, g.order, g.in_fifo, g.taken, next g, spins g)
  where
    taking :
        (xs : List ℕ) (xss : List (List ℕ))
        → length xs ≡ buf_size
        → s.channel.bytes ≡ xs ++ flatten xss
        → (t : State) × (serve buf_size s ≡ some t) × (t.children ≡ s.children ++ (xs ∷ []))
    taking [] xss h f = absurd (omega (arith, h))
    taking (x ∷ xs) xss h f = (
      _,
      ap (after_read s) (read_request buf_size s.channel (x ∷ xs) xss (omega arith) h f),
      refl,
    )

    next :
        (g : IsWhole s)
        → (xs : List ℕ) (xss : List (List ℕ)) → g.waiting ≡ xs ∷ xss
        → (t : State) × (serve buf_size s ≡ some t) × (t.children ≡ s.children ++ (xs ∷ []))
    next g xs xss e = taking xs xss (subst (AllOf buf_size) e g.whole).0 (g.in_fifo ∙ ap flatten e)

    spins : (g : IsWhole s) → g.waiting ≡ [] → s.channel.writers ≡ 0 → serve buf_size s ≡ some s
    spins g e z = ground (arith, g.in_fifo, ap flatten e, z)
