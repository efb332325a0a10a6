-- ===== src/Semaphore.antt =====
-- The programs of codes/10.Semaphore: producers and consumers over one ring of slots.
pub mod Sem
pub mod ProdCons2
pub mod ProdCons4
pub mod MyCat2
pub mod ProdCons3
