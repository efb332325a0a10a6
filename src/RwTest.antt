-- ===== src/RwTest.antt =====
-- codes/8.Read_Write_Locks/my_rwlock/test1.c (and rwlock.c beside the folder, which is the same
-- program over the pthread lock): reader and writer threads that check one another.
pub mod Defs
pub mod Counts
pub mod Safety
pub mod Program
pub mod Linked
pub mod Checks
pub mod Entered
pub mod Progress
mod Tests
