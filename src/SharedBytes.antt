-- ===== src/SharedBytes.antt =====
-- codes/13.PosixSharedMemory/shmwrite.c and shmread.c: a pattern written into a shared memory object
-- and checked there.
pub mod Defs
pub mod Pattern
mod Tests
