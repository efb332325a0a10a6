-- ===== src/FifoServer/Fork.antt =====
-- codes/4.PipeAndFifos/1snc/serverfork.c: a child for each request.
mod Requests
pub mod Child
mod Tests
