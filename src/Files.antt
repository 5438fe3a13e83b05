-- ===== src/Files.antt =====
-- common/FD.cc and files/: descriptors, and which of them the child keeps.
pub mod Descriptor
pub mod Closing
mod Examples
