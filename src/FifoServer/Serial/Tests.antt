-- ===== src/FifoServer/Serial/Tests.antt =====
-- The theorem on servern.c at two requests.
use unpvol.Base.{ℕ, zero, suc, Bool, true, List, [], ◌∷◌}

abbrev copies : ℕ → ℕ → List ℕ
copies zero x = []
copies (suc n) x = x ∷ copies n x

abbrev all_open : List ℕ → Bool
all_open r = true

first_of : List ℕ → ℕ
first_of [] = 0
first_of (b ∷ bs) = b
