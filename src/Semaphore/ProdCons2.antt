-- ===== src/Semaphore/ProdCons2.antt =====
-- codes/10.Semaphore/prodcons2.c, one producer and one consumer (and prodcons1.c, the same two
-- thread functions over named semaphores).
pub mod Defs
pub mod Invariant
pub mod Safety
mod Tests
