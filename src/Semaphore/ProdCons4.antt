-- ===== src/Semaphore/ProdCons4.antt =====
-- codes/10.Semaphore/prodcons4.c: any number of producers and of consumers.
pub mod Defs
pub mod Counts
pub mod Invariant
pub mod Items
pub mod Good
pub mod Safety
pub mod Blocked
pub mod Progress
mod Tests
