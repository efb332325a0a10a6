-- ===== src/Mutex/Sync.antt =====
-- A pthread mutex as the programs of codes/7.Mutex_ConditionVariable use it: it is free or held.
use unpvol.Base.{Option, none, some, ℕ, zero, suc}

-- The number of threads that may still take it: 1 or 0. `none` is a caller that blocks.
abbrev pub mutex_lock : ℕ → Option ℕ
mutex_lock zero = none
mutex_lock (suc v) = some v

abbrev pub mutex_unlock : ℕ → ℕ
mutex_unlock v = suc v
