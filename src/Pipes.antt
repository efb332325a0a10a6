-- ===== src/Pipes.antt =====
-- The programs of codes/4.PipeAndFifos.
pub mod Channel
pub mod Spipe
pub mod Sfifo
