-- ===== src/Pipes/Spipe.antt =====
-- codes/4.PipeAndFifos/spipe.c
pub mod Defs
pub mod Invariant
pub mod Client
pub mod Server
pub mod Delivery
mod Tests
