-- ===== src/SharedBytes/Defs.antt =====
-- The loops of shmwrite.c and shmread.c over the mapped object, whose size `fstat` has given.
use unpvol.Base.{
  leb, Option, none, some, ℕ, zero, suc, ◌+◌, ◌%◌, ◌==◌, if◌then◌else◌, update, List, [], ◌∷◌,
}

-- `left` rounds from `i` on; `*ptr++ = i % 256` with `ptr` at the byte `i` of the object.
unfoldable pub write_from : (left i : ℕ) → (ℕ → ℕ) → ℕ → ℕ
write_from zero i mem = mem
write_from (suc left) i mem = write_from left (i + 1) (update mem i (i % 256))

-- The largest `int`. Both programs compare an `int` with the `off_t` that is the size.
abbrev pub int_max : ℕ
int_max = 2_147_483_647

-- `main` of shmwrite.c after the mapping; `none` where `i` overflows before it reaches the size.
unfoldable pub shmwrite : (size : ℕ) → (ℕ → ℕ) → Option (ℕ → ℕ)
shmwrite size mem = if leb size int_max then some (write_from size 0 mem) else none

-- A line `ptr[i] = c` that shmread.c prints.
pub record Line : Type 0 where
  pub i : ℕ
  pub c : ℕ

-- `left` rounds from `i` on, and the lines that they print, in order.
unfoldable pub read_from : (left i : ℕ) → (ℕ → ℕ) → List Line
read_from zero i mem = []
read_from (suc left) i mem =
    let rest = read_from left (i + 1) mem in
    if mem i == i % 256 then rest else (record { i = i; c = mem i }) ∷ rest

-- `main` of shmread.c after the mapping; `none` where `i` overflows.
unfoldable pub shmread : (size : ℕ) → (ℕ → ℕ) → Option (List Line)
shmread size mem = if leb size int_max then some (read_from size 0 mem) else none
