-- ===== src/Namespaces/Ipc.antt =====
-- ns/IPCNamespaceListener.cc.
use sio2jail.Common.{[]}
use sio2jail.System.{M, with_errno_check_, unshare}
use sio2jail.Namespaces.{clone_newipc}

unfoldable pub on_post_fork_child : M (Unit {0})
unfolding with_errno_check_
on_post_fork_child = with_errno_check_ [] (unshare clone_newipc)
