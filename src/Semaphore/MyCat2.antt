-- ===== src/Semaphore/MyCat2.antt =====
-- codes/10.Semaphore/mycat2.c: a file copied to the standard output through a ring of buffers.
pub mod Defs
pub mod Copy
pub mod Output
mod Tests
