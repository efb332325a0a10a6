-- ===== src/Counter.antt =====
-- The programs that count a shared number up under a lock:
-- codes/13.PosixSharedMemory/client1.c and codes/9.Record_Locking/lockmain.c.
pub mod Loop
pub mod Invariant
pub mod Result
pub mod FileLock
pub mod Server1
mod Tests
