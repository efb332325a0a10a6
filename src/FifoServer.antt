-- ===== src/FifoServer.antt =====
-- codes/4.PipeAndFifos/1snc: a client and its servers.
pub mod Once
pub mod Whole
pub mod Fork
pub mod Serial
