-- ===== src/Rwlock.antt =====
-- The read-write lock of codes/8.Read_Write_Locks/my_rwlock.
pub mod Defs
pub mod System
pub mod Counts
pub mod Invariant
pub mod Wakeup
pub mod Safety
pub mod Granted
pub mod Refine
pub mod Preference
pub mod Ops
mod Tests
