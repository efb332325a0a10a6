-- ===== src/Mutex/ProdCons6.antt =====
-- codes/7.Mutex_ConditionVariable/prodcons6.c: a condition variable between the producers and the
-- consumer.
pub mod Defs
pub mod Counts
pub mod Invariant
pub mod Items
pub mod Blocked
pub mod Safety
mod Tests
