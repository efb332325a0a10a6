-- ===== src/FifoServer/Whole.antt =====
-- A FIFO that holds whole requests, for the servers of codes/4.PipeAndFifos/1snc that read many.
use unpvol.Base.{
  ℕ, zero, suc, ◌<◌, ◌≡◌, ◌⊎◌, inl, inr, refl, arith, List, [], ◌∷◌, ◌++◌, length, take-first,
  drop-first,
}
use mathlib.Core.List.{append_assoc, append-nil}
use unpvol.Pipes.Channel.{Channel, blocks, gives, read_channel}

abbrev pub flatten : List (List ℕ) → List ℕ
flatten [] = []
flatten (xs ∷ xss) = xs ++ flatten xss

abbrev pub AllOf : (size : ℕ) → List (List ℕ) → Type 0
AllOf size [] = Unit
AllOf size (xs ∷ xss) = (length xs ≡ size) × AllOf size xss

pub flatten-++ :
    (xss : List (List ℕ)) (ys : List ℕ) → flatten (xss ++ (ys ∷ [])) ≡ flatten xss ++ ys
flatten-++ [] ys = append-nil ys
flatten-++ (xs ∷ xss) ys = ground (arith, flatten-++ xss ys, append_assoc xs (flatten xss) ys)

pub AllOf-++ :
    (size : ℕ) (xss : List (List ℕ)) (ys : List ℕ)
    → AllOf size xss
    → length ys ≡ size
    → AllOf size (xss ++ (ys ∷ []))
AllOf-++ size [] ys h k = (k, tt)
AllOf-++ size (xs ∷ xss) ys h k = (h.0, AllOf-++ size xss ys h.1 k)

-- The answer of a read where whole requests are waiting is the first of them.
pub read_request :
    (size : ℕ) (c : Channel) (xs : List ℕ) (xss : List (List ℕ))
    → 0 < size
    → length xs ≡ size
    → c.bytes ≡ xs ++ flatten xss
    → read_channel size c ≡ gives xs (flatten xss)
read_request size c [] xss positive h e = absurd (omega (arith, h, positive))
read_request size c (x ∷ xs) xss positive h e =
    ground
      (arith, e, take-first size (x ∷ xs) (flatten xss) h, drop-first size (x ∷ xs) (flatten xss) h)

-- Where none are waiting, the read blocks or is at the end.
pub read_none :
    (size : ℕ) (c : Channel)
    → c.bytes ≡ []
    → (read_channel size c ≡ blocks) ⊎ (read_channel size c ≡ gives [] [])
read_none size c e = by_writers c.writers refl
  where
    by_writers :
        (w : ℕ)
        → c.writers ≡ w
        → (read_channel size c ≡ blocks) ⊎ (read_channel size c ≡ gives [] [])
    by_writers zero h = inr (ground (arith, e, h))
    by_writers (suc w) h = inl (ground (arith, e, h))
