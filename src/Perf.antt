-- ===== src/Perf.antt =====
-- perf/PerfListener.cc: the counting of instructions.
pub mod Config
pub mod Devices
pub mod Counter
mod Examples
