-- ===== src/Semaphore/ProdCons3.antt =====
-- codes/10.Semaphore/prodcons3.c: any number of producers and one consumer over a ring.
pub mod Defs
pub mod Counts
pub mod Invariant
pub mod Good
pub mod Safety
pub mod Progress
mod Tests
