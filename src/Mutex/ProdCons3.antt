-- ===== src/Mutex/ProdCons3.antt =====
-- codes/7.Mutex_ConditionVariable/prodcons3.c: producers and a consumer that looks again and again.
pub mod Defs
pub mod Counts
pub mod Invariant
pub mod Good
pub mod Safety
mod Tests
