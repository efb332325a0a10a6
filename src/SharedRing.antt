-- ===== src/SharedRing.antt =====
-- codes/13.PosixSharedMemory/client2.c, server2.c and cliserv2.h: clients that put messages into a
-- ring in shared memory, and a server that prints them.
pub mod Defs
pub mod OneClient
pub mod Race
mod Tests
