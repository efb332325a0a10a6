-- ===== src/Mutex/ProdCons2.antt =====
-- codes/7.Mutex_ConditionVariable/prodcons2.c: producers, and a consumer after they are joined.
pub mod Defs
pub mod Counts
pub mod Invariant
pub mod Good
pub mod Safety
mod Tests
