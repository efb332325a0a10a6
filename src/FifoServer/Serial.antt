-- ===== src/FifoServer/Serial.antt =====
-- codes/4.PipeAndFifos/1snc/servern.c: one request after another.
pub mod Defs
pub mod Clean
pub mod Lost
mod Tests
