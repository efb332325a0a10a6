-- ===== src/Base/Threads.antt =====
-- Families indexed by thread: the update of one thread, and the number of threads below a bound
-- that satisfy a weight, with what an update or a pointwise map does to it.
use Prim.Native.Nat.{ℕ, zero, suc, ◌+◌, ◌≤◌, ◌<◌}
use mathlib.Core.Path.{◌≡◌, refl}
use mathlib.Core.Logic.{◌≢◌}
use native.Mathlib.Decide.{dec_lt, ℕ_discrete}
use native.Mathlib.Omega.{arith}
use unpvol.Base.Tests.{◌==◌, if◌then◌else◌}

-- The family with `new` at the index `at`.
abbrev pub update {ℓ} : {A : Type ℓ} (family : ℕ → A) (at : ℕ) (new : A) → (index : ℕ) → A
update family at new index = if at == index then new else family index

module _ {ℓ} {A : Type ℓ} (weight : A → ℕ) where
  unfoldable pub total : ℕ → (ℕ → A) → ℕ
  total zero family = 0
  total (suc bound) family = weight (family bound) + total bound family

  -- Only the indices below `bound` matter.
  pub total-ext :
      (bound : ℕ) (family g : ℕ → A)
      → ((j : ℕ) → j < bound → weight (family j) ≡ weight (g j))
      → total bound family ≡ total bound g
  unfolding total
  total-ext zero family g h = refl
  total-ext (suc bound) family g h =
      omega (arith, h bound (omega arith), total-ext bound family g (λ j lt. h j (omega arith)))

  pub total-update :
      (bound : ℕ) (family : ℕ → A) (at : ℕ) (new : A)
      → at < bound
      → total bound (update family at new) + weight (family at) ≡ total bound family + weight new
  unfolding total
  total-update zero family at new inside = absurd (omega arith)
  total-update (suc bound) family at new inside = elim (ℕ_discrete at bound) [
    | yes top ↦
        ground (arith, total-ext bound (update family at new) family (λ j lower. ground arith))
    | no under ↦
        let smaller : at < bound = omega arith in
        ground (arith, total-update bound family at new smaller)
  ]

  -- A thread's own weight is part of the total, and so are those of two threads.
  pub le-total :
      (bound : ℕ) (family : ℕ → A) (i : ℕ) → i < bound → weight (family i) ≤ total bound family
  unfolding total
  le-total zero family i h = absurd (omega arith)
  le-total (suc bound) family i h = elim (dec_lt i bound) [
    | yes p ↦ omega (arith, le-total bound family i p)
    | no p ↦ ground arith
  ]

  pub le-total_two :
      (bound : ℕ) (family : ℕ → A) (i j : ℕ)
      → i < bound
      → j < bound
      → i ≢ j
      → weight (family i) + weight (family j) ≤ total bound family
  unfolding total
  le-total_two zero family i j hi hj ne = absurd (omega arith)
  le-total_two (suc bound) family i j hi hj ne = elim (dec_lt i bound) [
    | yes p ↦ elim (dec_lt j bound) [
      | yes q ↦ omega (arith, le-total_two bound family i j p q ne)
      | no q ↦ ground (arith, le-total bound family i p)
    ]
    | no p ↦ ground (arith, le-total bound family j (omega arith))
  ]

  -- A positive total has a thread of positive weight.
  pub total-pos :
      (bound : ℕ) (family : ℕ → A)
      → 0 < total bound family
      → (i : ℕ) × (i < bound) × (0 < weight (family i))
  unfolding total
  total-pos zero family h = absurd (omega arith)
  total-pos (suc bound) family h = elim (dec_lt 0 (weight (family bound))) [
    | yes p ↦ (bound, omega arith, p)
    | no p ↦ let (i, lt, q) = total-pos bound family (omega arith) in (i, omega arith, q)
  ]

  pub total-const : (bound : ℕ) (a : A) → weight a ≡ 0 → total bound (λ _. a) ≡ 0
  unfolding total
  total-const zero a h = refl
  total-const (suc bound) a h = omega (arith, h, total-const bound a h)

  pub total-zero :
      (bound : ℕ) (family : ℕ → A)
      → ((j : ℕ) → j < bound → weight (family j) ≡ 0)
      → total bound family ≡ 0
  unfolding total
  total-zero zero family h = refl
  total-zero (suc bound) family h =
      omega (arith, h bound (omega arith), total-zero bound family (λ j lt. h j (omega arith)))

-- A weight that splits into two, along a map of the threads.
pub total-sum {ℓ} :
    {A : Type ℓ} (w u v : A → ℕ) (g : A → A)
    → ((a : A) → w (g a) ≡ u a + v a)
    → (n : ℕ) (f : ℕ → A) → total w n (λ j. g (f j)) ≡ total u n f + total v n f
unfolding total
total-sum w u v g h zero f = refl
total-sum w u v g h (suc n) f = omega (arith, h (f n), total-sum w u v g h n f)

pub total_mono {ℓ} :
    {A : Type ℓ} (w u v : A → ℕ)
    → ((a : A) → w a ≤ u a + v a)
    → (n : ℕ) (f : ℕ → A) → total w n f ≤ total u n f + total v n f
unfolding total
total_mono w u v h zero f = omega arith
total_mono w u v h (suc n) f = omega (arith, h (f n), total_mono w u v h n f)
