-- ===== src/SharedBytes/Pattern.antt =====
-- What shmwrite.c writes, and that shmread.c finds exactly the bytes that differ from it.
use unpvol.Base.{
  some, ap, ◌∙◌, ℕ, zero, suc, ◌+◌, ◌%◌, ◌<◌, ◌≤◌, ◌≡◌, refl, arith, [], update, dec_lt, ℕ_discrete,
}
use unpvol.SharedBytes.Defs.{int_max, write_from, shmwrite, read_from, shmread}

write_from_below : (left i : ℕ) (mem : ℕ → ℕ) (j : ℕ) → j < i → write_from left i mem j ≡ mem j
unfolding write_from
write_from_below zero i mem j h = refl
write_from_below (suc left) i mem j h =
    ground (arith, write_from_below left (i + 1) (update mem i (i % 256)) j)

write_from_inside :
    (left i : ℕ) (mem : ℕ → ℕ) (j : ℕ) → i ≤ j → j < i + left → write_from left i mem j ≡ j % 256
unfolding write_from
write_from_inside zero i mem j lo hi = absurd (omega arith)
write_from_inside (suc left) i mem j lo hi = elim (dec_lt i j) [
  | yes h ↦ write_from_inside left (i + 1) (update mem i (i % 256)) j (omega arith) (omega arith)
  | no h ↦
      let x : j ≡ i = omega arith in
      ground (arith, write_from_below left (i + 1) (update mem i (i % 256)) j)
]

write_from_outside :
    (left i : ℕ) (mem : ℕ → ℕ) (j : ℕ) → i + left ≤ j → write_from left i mem j ≡ mem j
unfolding write_from
write_from_outside zero i mem j h = refl
write_from_outside (suc left) i mem j h =
    ground (arith, write_from_outside left (i + 1) (update mem i (i % 256)) j)

read_from_silent :
    (left i : ℕ) (mem : ℕ → ℕ)
    → ((j : ℕ) → i ≤ j → j < i + left → mem j ≡ j % 256)
    → read_from left i mem ≡ []
unfolding read_from
read_from_silent zero i mem h = refl
read_from_silent (suc left) i mem h =
    ground
      (arith, h i, read_from_silent left (i + 1) mem (λ j lo hi. h j (omega arith) (omega arith)))

silent-read_from :
    (left i : ℕ) (mem : ℕ → ℕ)
    → read_from left i mem ≡ []
    → (j : ℕ) → i ≤ j
    → j < i + left
    → mem j ≡ j % 256
unfolding read_from
silent-read_from zero i mem h j lo hi = absurd (omega arith)
silent-read_from (suc left) i mem h j lo hi = elim (ℕ_discrete (mem i) (i % 256)) [
  | yes e ↦ elim (dec_lt i j) [
    | yes g ↦ silent-read_from left (i + 1) mem (ground (arith, h)) j (omega arith) (omega arith)
    | no g ↦ let x : j ≡ i = omega arith in ground arith
  ]
  | no ne ↦ absurd (ground (arith, h))
]

shmwrite-some :
    (size : ℕ) (mem : ℕ → ℕ) → size ≤ int_max → shmwrite size mem ≡ some (write_from size 0 mem)
unfolding shmwrite
shmwrite-some size mem h = ground arith

shmread-some :
    (size : ℕ) (mem : ℕ → ℕ) → size ≤ int_max → shmread size mem ≡ some (read_from size 0 mem)
unfolding shmread
shmread-some size mem h = ground arith

-- Over an object of a size that an `int` can count to: shmwrite ends; shmread prints nothing over what it
-- has written; it has changed no byte outside the object; and on any memory on which shmread prints
-- nothing the object holds what shmwrite would write.
pub shmread-shmwrite :
    (size : ℕ) (mem : ℕ → ℕ)
    → size ≤ int_max
    → (written : ℕ → ℕ) × (shmwrite size mem ≡ some written)
      × (shmread size written ≡ some [])
      × ((j : ℕ) → size ≤ j → written j ≡ mem j)
      × (shmread size mem ≡ some [] → (j : ℕ) → mem j ≡ written j)
shmread-shmwrite size mem fits = (
  write_from size 0 mem,
  shmwrite-some size mem fits,
  shmread-some size (write_from size 0 mem) fits
      ∙ ap some (
          read_from_silent size 0 (write_from size 0 mem)
            (λ j lo hi. write_from_inside size 0 mem j (omega arith) (omega arith))),
  λ j h. write_from_outside size 0 mem j (omega arith),
  λ h j. elim (dec_lt j size) [
    | yes g ↦
        let silent : read_from size 0 mem ≡ [] = cc (shmread-some size mem fits, h) in
        omega (
          arith,
          silent-read_from size 0 mem silent j (omega arith) (omega arith),
          write_from_inside size 0 mem j (omega arith) (omega arith),
        )
    | no g ↦ omega (arith, write_from_outside size 0 mem j (omega arith))
  ],
)
