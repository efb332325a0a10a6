-- ===== src/Pipes/Channel.antt =====
-- A pipe or FIFO as the programs of codes/4.PipeAndFifos use it.
use unpvol.Base.{
  ℕ, zero, suc, ◌+◌, ◌-◌, ◌≤◌, ◌<◌, ◌≡◌, arith, leb, if◌then◌else◌, Option, none, some, List, [],
  ◌∷◌, ◌++◌, length, take, drop, take-drop, take-nonempty, take_all,
}

-- The bytes written and not read, and how many descriptors are open for writing.
pub record Channel : Type 0 where
  pub bytes : List ℕ
  pub writers : ℕ

-- What `read` answers: it blocks, or gives bytes and leaves others. No bytes are the end.
pub data Answer : Type 0 where
  blocks : Answer
  gives : List ℕ → List ℕ → Answer

-- `read` of at most `size` bytes from a channel.
abbrev pub read_channel : (size : ℕ) → Channel → Answer
read_channel size c = elim c.bytes [
  | [] ↦ elim c.writers [ zero ↦ gives [] [] | suc _ ↦ blocks ]
  | b ∷ bs ↦ gives (take size (b ∷ bs)) (drop size (b ∷ bs))
]

-- `read` of at most `size` bytes from a file of which `rest` is unread.
abbrev pub read_file : (size : ℕ) → (rest : List ℕ) → Answer
read_file size rest = gives (take size rest) (drop size rest)

-- `write` into a channel of capacity `cap`; `none` blocks. The writes here are short enough to be
-- made whole.
abbrev pub write_channel : (cap : ℕ) → List ℕ → Channel → Option Channel
write_channel cap xs c =
    if leb (length c.bytes + length xs) cap then some (record c { bytes = c.bytes ++ xs }) else none

-- One descriptor for writing is closed.
abbrev pub close_writer : Channel → Channel
close_writer c = record c { writers = c.writers - 1 }

-- What is given and what is left make up what was there.
pub read_channel-++ :
    (size : ℕ) (c : Channel) {xs ys : List ℕ}
    → read_channel size c ≡ gives xs ys
    → xs ++ ys ≡ c.bytes
read_channel-++ size c {xs} {ys} e = whole c.bytes e
  where
    whole :
        (bs : List ℕ)
        → (elim bs [
          | [] ↦ elim c.writers [ zero ↦ gives [] [] | suc _ ↦ blocks ]
          | b ∷ bs ↦ gives (take size (b ∷ bs)) (drop size (b ∷ bs))
        ])
          ≡ gives xs ys
        → xs ++ ys ≡ bs
    whole [] e = none_left c.writers e
      where
        none_left :
            (w : ℕ) → (elim w [ zero ↦ gives [] [] | suc _ ↦ blocks ]) ≡ gives xs ys → xs ++ ys ≡ []
        none_left zero e = ground arith
        none_left (suc w) e = absurd (ground arith)
    whole (b ∷ bs) e = ground (arith, take-drop size (b ∷ bs))

-- The end comes when nothing is left and nobody can write.
pub read_channel-end :
    (size : ℕ) (c : Channel) {ys : List ℕ}
    → 0 < size
    → read_channel size c ≡ gives [] ys
    → (c.bytes ≡ []) × (c.writers ≡ 0)
read_channel-end size c {ys} h e = end c.bytes e
  where
    end :
        (bs : List ℕ)
        → (elim bs [
          | [] ↦ elim c.writers [ zero ↦ gives [] [] | suc _ ↦ blocks ]
          | b ∷ bs ↦ gives (take size (b ∷ bs)) (drop size (b ∷ bs))
        ])
          ≡ gives [] ys
        → (bs ≡ []) × (c.writers ≡ 0)
    end [] e = ground arith
    end (b ∷ bs) e = absurd (ground (arith, e, take-nonempty size b bs h))

-- Where the bytes are no more than the read takes, it takes all.
pub read_channel_all :
    (size : ℕ) (c : Channel) {xs ys : List ℕ}
    → length c.bytes ≤ size
    → read_channel size c ≡ gives xs ys
    → (xs ≡ c.bytes) × (ys ≡ [])
read_channel_all size c {xs} {ys} h e = whole c.bytes h e
  where
    whole :
        (bs : List ℕ)
        → length bs ≤ size
        → (elim bs [
          | [] ↦ elim c.writers [ zero ↦ gives [] [] | suc _ ↦ blocks ]
          | b ∷ bs ↦ gives (take size (b ∷ bs)) (drop size (b ∷ bs))
        ])
          ≡ gives xs ys
        → (xs ≡ bs) × (ys ≡ [])
    whole [] h e = ground arith
    whole (b ∷ bs) h e = ground (arith, take_all size (b ∷ bs) h)
