-- ===== src/FifoServer/Once.antt =====
-- codes/4.PipeAndFifos/1snc/client.c and server.c: one request.
pub mod Defs
pub mod Invariant
pub mod Client
pub mod Server
pub mod Blocked
pub mod Delivery
mod Tests
