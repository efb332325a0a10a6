-- ===== src/Semaphore/Sem.antt =====
-- A POSIX semaphore as the programs of codes/10.Semaphore and codes/13.PosixSharedMemory use it:
-- a number that `sem_wait` takes one from, where it can, and `sem_post` adds one to.
use unpvol.Base.{ℕ, zero, suc, ◌+◌, ◌≡◌, arith, Option, none, some}

-- `none` is a caller that blocks: the value is 0.
abbrev pub sem_wait : ℕ → Option ℕ
sem_wait zero = none
sem_wait (suc v) = some v

pub sem_wait_free : (v : ℕ) → sem_wait (v + 1) ≡ some v
sem_wait_free v = ground arith

abbrev pub sem_post : ℕ → ℕ
sem_post v = v + 1
