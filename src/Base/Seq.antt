-- ===== src/Base/Seq.antt =====
-- Lists counted by the native numbers.
use Prim.Native.Nat.{ℕ, zero, suc, ◌+◌, ◌-◌, ◌≤◌, ◌<◌}
use mathlib.Core.Path.{◌≡◌, refl, ap, ◌∙◌}
use mathlib.Core.Logic.{◌≢◌}
use mathlib.Core.List.{List, [], ◌∷◌, ◌++◌}
use native.Mathlib.Omega.{arith}

module _ {ℓ} {A : Type ℓ} where
  abbrev pub length : List A → ℕ
  length [] = 0
  length (x ∷ xs) = suc (length xs)

  abbrev pub take : ℕ → List A → List A
  take zero xs = []
  take (suc n) [] = []
  take (suc n) (x ∷ xs) = x ∷ take n xs

  abbrev pub drop : ℕ → List A → List A
  drop zero xs = xs
  drop (suc n) [] = []
  drop (suc n) (x ∷ xs) = drop n xs

  -- A prefix that the bound lets through stays whole.
  pub take-++ :
      (n : ℕ) (xs ys : List A) → length xs ≤ n → take n (xs ++ ys) ≡ xs ++ take (n - length xs) ys
  take-++ n [] ys h = ap (λ k. take k ys) (omega arith)
  take-++ zero (x ∷ xs) ys h = absurd (omega arith)
  take-++ (suc n) (x ∷ xs) ys h =
      ap (λ zs. x ∷ zs) (take-++ n xs ys (omega arith))
      ∙ ap (λ k. x ∷ (xs ++ take k ys)) (omega arith)

  pub take-drop : (n : ℕ) (xs : List A) → take n xs ++ drop n xs ≡ xs
  take-drop zero xs = refl
  take-drop (suc n) [] = refl
  take-drop (suc n) (x ∷ xs) = ap (λ zs. x ∷ zs) (take-drop n xs)

  pub take-nonempty : (n : ℕ) (x : A) (xs : List A) → 0 < n → take n (x ∷ xs) ≢ []
  take-nonempty zero x xs h e = absurd (omega (arith, h))
  take-nonempty (suc n) x xs h e = ground (arith, e)

  pub take-empty : (n : ℕ) (xs : List A) → 0 < n → take n xs ≡ [] → xs ≡ []
  take-empty n [] h e = refl
  take-empty n (x ∷ xs) h e = absurd (take-nonempty n x xs h e)

  -- A list within the bound is taken whole.
  pub take_all : (n : ℕ) (xs : List A) → length xs ≤ n → (take n xs ≡ xs) × (drop n xs ≡ [])
  take_all zero [] h = (refl, refl)
  take_all zero (x ∷ xs) h = absurd (omega arith)
  take_all (suc n) [] h = (refl, refl)
  take_all (suc n) (x ∷ xs) h = let e = take_all n xs (omega arith) in (ap (λ zs. x ∷ zs) e.0, e.1)

  pub length-++ : (xs ys : List A) → length (xs ++ ys) ≡ length xs + length ys
  length-++ [] ys = omega arith
  length-++ (x ∷ xs) ys = omega (arith, length-++ xs ys)

  pub length-take : (n : ℕ) (xs : List A) → length (take n xs) ≤ n
  length-take zero xs = omega arith
  length-take (suc n) [] = omega arith
  length-take (suc n) (x ∷ xs) = omega (arith, length-take n xs)

  -- Where the first list has the length that is taken.
  pub take-first : (n : ℕ) (xs ys : List A) → length xs ≡ n → take n (xs ++ ys) ≡ xs
  take-first zero [] ys h = refl
  take-first (suc n) [] ys h = absurd (omega (arith, h))
  take-first zero (x ∷ xs) ys h = absurd (omega (arith, h))
  take-first (suc n) (x ∷ xs) ys h = ap (λ zs. x ∷ zs) (take-first n xs ys (omega arith))

  pub drop-first : (n : ℕ) (xs ys : List A) → length xs ≡ n → drop n (xs ++ ys) ≡ ys
  drop-first zero [] ys h = refl
  drop-first (suc n) [] ys h = absurd (omega (arith, h))
  drop-first zero (x ∷ xs) ys h = absurd (omega (arith, h))
  drop-first (suc n) (x ∷ xs) ys h = drop-first n xs ys (omega arith)
