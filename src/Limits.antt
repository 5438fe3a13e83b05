-- ===== src/Limits.antt =====
-- src/limits: the listeners that enforce the limits on time, memory, output and threads.
pub mod Time
pub mod Memory
pub mod Output
pub mod Threads
mod Examples
