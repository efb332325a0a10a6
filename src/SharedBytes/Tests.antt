-- ===== src/SharedBytes/Tests.antt =====
-- shmread-shmwrite at an object of 300 bytes.
use unpvol.Base.{ℕ, ◌≤◌, ◌≡◌, arith, some, []}
use unpvol.SharedBytes.Defs.{shmwrite, shmread}
use unpvol.SharedBytes.Pattern.{shmread-shmwrite}

shmread-shmwrite_example :
    (written : ℕ → ℕ) × (shmwrite 300 (λ _. 7) ≡ some written)
    × (shmread 300 written ≡ some [])
    × ((j : ℕ) → 300 ≤ j → written j ≡ 7)
    × (shmread 300 (λ _. 7) ≡ some [] → (j : ℕ) → 7 ≡ written j)
shmread-shmwrite_example = shmread-shmwrite 300 (λ _. 7) (omega arith)
