-- ===== src/Tracer.antt =====
-- src/tracer: tracing with ptrace. ProcessTree models ProcessInfo.cc, Tracee the class of that
-- name, Signals what is done with the signals of a tracee, and TraceExecutor the rest.
pub mod Action
pub mod ProcessTree
pub mod Tracee
pub mod Signals
pub mod TraceExecutor
mod Examples
