-- ===== src/Mutex.antt =====
-- The programs of codes/7.Mutex_ConditionVariable: producers and a consumer over one array.
mod Sync
pub mod ProdCons6
pub mod ProdCons2
pub mod ProdCons3
