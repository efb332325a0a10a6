-- ===== src/MqNotify.antt =====
-- The programs of codes/5.MessageQueue that a message queue notifies, by a signal or by a thread.
pub mod Priority
pub mod Queue
pub mod Defs
pub mod SigWait
pub mod SelectPipe
pub mod Handler
pub mod Threads
pub mod Drained
pub mod Stuck
mod Tests
