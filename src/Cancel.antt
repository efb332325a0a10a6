-- ===== src/Cancel.antt =====
-- codes/8.Read_Write_Locks/my_rwlock/testcancel.c: a waiting writer is cancelled.
pub mod Defs
pub mod Invariant
pub mod Lost
mod Tests
