-- ===== src/Namespaces.antt =====
-- ns/: the namespaces of the child. Each listener's callback is a sequence of checked calls; the
-- flags are those of the Linux headers.
pub mod Mount
pub mod User
pub mod Uts
pub mod Net
pub mod Ipc
pub mod Pid
mod Examples
use sio2jail.Common.{ℕ}

abbrev pub clone_newns : ℕ
clone_newns = 0x00020000

abbrev pub clone_newuts : ℕ
clone_newuts = 0x04000000

abbrev pub clone_newipc : ℕ
clone_newipc = 0x08000000

abbrev pub clone_newuser : ℕ
clone_newuser = 0x10000000

abbrev pub clone_newpid : ℕ
clone_newpid = 0x20000000

abbrev pub clone_newnet : ℕ
clone_newnet = 0x40000000
