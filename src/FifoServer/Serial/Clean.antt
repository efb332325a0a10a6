-- ===== src/FifoServer/Serial/Clean.antt =====
-- Of which requests the FIFO, the buffer and the answers of servern.c are made.
use unpvol.Base.{
  ℕ, ◌+◌, ◌≡◌, ◌⊎◌, inl, inr, refl, arith, Bool, true, false, ◌&&◌, not, ◌==◌, leb, if◌then◌else◌,
  none, some, List, [], ◌∷◌, ◌++◌, length, sym, ap, subst, ◌∙◌,
}
use unpvol.Pipes.Channel.{Channel, blocks, gives, read_channel, close_writer}
use unpvol.FifoServer.Once.Defs.{buf_size}
use unpvol.FifoServer.Whole.{flatten, AllOf, flatten-++, AllOf-++, read_request, read_none}
use unpvol.FifoServer.Serial.Defs.{
  Pc, n_open, n_opening, n_read, n_close, n_answer, n_exited, State, kept, after_read, server,
  request, serves, joins, requests, leaves, Runs, here, more,
}

abbrev pub Each : (P : List ℕ → Type 0) → List (List ℕ) → Type 0
Each P [] = Unit
Each P (xs ∷ xss) = P xs × Each P xss

Each-++ :
    (P : List ℕ → Type 0) (xss : List (List ℕ)) (ys : List ℕ)
    → Each P xss
    → P ys
    → Each P (xss ++ (ys ∷ []))
Each-++ P [] ys h k = (k, tt)
Each-++ P (xs ∷ xss) ys h k = (h.0, Each-++ P xss ys h.1 k)

-- Only requests that satisfy `P` are in the FIFO, in the buffer, and served.
pub record IsClean (P : List ℕ → Type 0) (s : State) : Type 0 where
  pub waiting : List (List ℕ)
  pub in_fifo : s.channel.bytes ≡ flatten waiting
  pub whole : AllOf buf_size waiting
  pub clean : Each P waiting
  pub held : P s.buf
  pub done : Each P s.served

-- A state with the same buffer and served requests, and a FIFO with as much or nothing.
IsClean-kept :
    (P : List ℕ → Type 0) (s t : State)
    → IsClean P s
    → (t.channel.bytes ≡ s.channel.bytes) ⊎ (t.channel.bytes ≡ [])
    → t.buf ≡ s.buf
    → t.served ≡ s.served
    → IsClean P t
IsClean-kept P s t g (inl same) b d = record {
  waiting = g.waiting;
  in_fifo = same ∙ g.in_fifo;
  whole = g.whole;
  clean = g.clean;
  held = subst P (sym b) g.held;
  done = subst (Each P) (sym d) g.done;
}
IsClean-kept P s t g (inr empty) b d = record {
  waiting = [];
  in_fifo = empty;
  whole = tt;
  clean = tt;
  held = subst P (sym b) g.held;
  done = subst (Each P) (sym d) g.done;
}

kept-bytes :
    (reading : Bool) (c : Channel)
    → ((kept reading c).bytes ≡ c.bytes) ⊎ ((kept reading c).bytes ≡ [])
kept-bytes reading c = by_test (not reading && (c.writers == 0))
  where
    by_test :
        (b : Bool)
        → ((if b then record c { bytes = [] } else c).bytes ≡ c.bytes)
          ⊎ ((if b then record c { bytes = [] } else c).bytes ≡ [])
    by_test true = inr refl
    by_test false = inl refl

module _ (P : List ℕ → Type 0) {s : State} (g : IsClean P s) where
  read-IsClean : {t : State} → after_read s (read_channel buf_size s.channel) ≡ some t → IsClean P t
  unfolding after_read
  read-IsClean {t} e = first g.waiting g.in_fifo g.whole g.clean
    where
      first :
          (xss : List (List ℕ))
          → s.channel.bytes ≡ flatten xss
          → AllOf buf_size xss
          → Each P xss
          → IsClean P t
      first [] f w c = elim (read_none buf_size s.channel f) [
        | inl q ↦ absurd (nothing_read q)
        | inr q ↦
            subst (IsClean P) (at_end q)
              (IsClean-kept P s (record s { at = n_close }) g (inl refl) refl refl)
      ]
        where
          nothing_read : ¬ (read_channel buf_size s.channel ≡ blocks)
          nothing_read q = cc (ap (after_read s) q, e)

          at_end : read_channel buf_size s.channel ≡ gives [] [] → record s { at = n_close } ≡ t
          at_end q = cc (ap (after_read s) q, e)
      first ([] ∷ xss) f w c = absurd (omega (arith, w.0))
      first ((x ∷ xs) ∷ xss) f w c = subst (IsClean P) takes (record {
        waiting = xss;
        in_fifo = refl;
        whole = w.1;
        clean = c.1;
        held = c.0;
        done = g.done;
      })
        where
          takes :
              record s {
                at = n_close;
                buf = x ∷ xs;
                channel = record s.channel { bytes = flatten xss };
              }
              ≡ t
          takes = cc (
            ap (after_read s) (read_request buf_size s.channel (x ∷ xs) xss (omega arith) w.0 f),
            e,
          )

  -- A step that gives a clean state.
  gives-IsClean : {u t : State} → IsClean P u → some u ≡ some t → IsClean P t
  gives-IsClean v e = subst (IsClean P) (ground arith) v

  server-IsClean :
      (answers : List ℕ → Bool) {t : State} (at : Pc) → server answers s at ≡ some t → IsClean P t
  unfolding server
  server-IsClean answers n_open e = gives-IsClean (IsClean-kept P s _ g (inl refl) refl refl) e
  server-IsClean answers {t} n_opening e = opens s.seen e
    where
      opens :
          (b : Bool) → (if b then some (record s { at = n_read }) else none) ≡ some t → IsClean P t
      opens true e = gives-IsClean (IsClean-kept P s _ g (inl refl) refl refl) e
      opens false e = absurd (ground arith)
  server-IsClean answers n_read e = read-IsClean e
  server-IsClean answers n_close e =
      gives-IsClean (IsClean-kept P s _ g (kept-bytes false s.channel) refl refl) e
  server-IsClean answers n_answer e =
      gives-IsClean
        (record {
          waiting = g.waiting;
          in_fifo = g.in_fifo;
          whole = g.whole;
          clean = g.clean;
          held = g.held;
          done = Each-++ P s.served s.buf g.done g.held;
        })
        e
  server-IsClean answers n_exited e = absurd (ground arith)

  request-IsClean :
      (cap : ℕ) {t : State} (bytes : List ℕ)
      → length bytes ≡ buf_size
      → P bytes
      → request cap bytes s ≡ some t
      → IsClean P t
  request-IsClean cap {t} bytes h p e = room (leb (length s.channel.bytes + length bytes) cap) refl
    where
      added :
          record s {
            channel = record s.channel { bytes = s.channel.bytes ++ bytes };
            written = s.written ++ (bytes ∷ []);
          }
            ≡ t
          → IsClean P t
      added q = subst (IsClean P) q (record {
        waiting = g.waiting ++ (bytes ∷ []);
        in_fifo = ap (λ b. b ++ bytes) g.in_fifo ∙ sym (flatten-++ g.waiting bytes);
        whole = AllOf-++ buf_size g.waiting bytes g.whole h;
        clean = Each-++ P g.waiting bytes g.clean p;
        held = g.held;
        done = g.done;
      })

      room : (b : Bool) → leb (length s.channel.bytes + length bytes) cap ≡ b → IsClean P t
      room true k = added (ground (arith, k, e))
      room false k = absurd (ground (arith, k, e))

pub Runs-IsClean :
    (P : List ℕ → Type 0) (cap : ℕ) (answers : List ℕ → Bool) {s t : State}
    → IsClean P s
    → Runs cap answers P s t
    → IsClean P t
Runs-IsClean P cap answers g here = g
Runs-IsClean P cap answers g (more {t} r (serves e)) =
    server-IsClean P (Runs-IsClean P cap answers g r) answers t.at e
Runs-IsClean P cap answers g (more {t} r joins) =
    IsClean-kept P t _ (Runs-IsClean P cap answers g r) (inl refl) refl refl
Runs-IsClean P cap answers g (more r (requests bytes h p q o e)) =
    request-IsClean P (Runs-IsClean P cap answers g r) cap bytes h p e
Runs-IsClean P cap answers g (more {t} r (leaves o)) =
    IsClean-kept P t _ (Runs-IsClean P cap answers g r)
      (kept-bytes t.reading (close_writer t.channel)) refl refl
