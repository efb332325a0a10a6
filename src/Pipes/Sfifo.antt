-- ===== src/Pipes/Sfifo.antt =====
-- codes/4.PipeAndFifos/sfifo.c
pub mod Defs
pub mod Invariant
pub mod Client
pub mod Server
pub mod Delivery
mod Tests
