-- ===== src/Seccomp.antt =====
-- src/seccomp: filters, actions, rules, the ids that the kernel hands back, and the listener that
-- chooses an action for a traced call.
pub mod Library
pub mod Filter
pub mod Action
pub mod Context
pub mod Listener
pub mod Policy
pub mod Rules
pub mod TimeRandomizer
mod Examples
