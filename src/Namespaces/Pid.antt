-- ===== src/Namespaces/Pid.antt =====
-- ns/PIDNamespaceListener.cc.
use sio2jail.Common.{[]}
use sio2jail.System.{M, with_errno_check_, unshare}
use sio2jail.Namespaces.{clone_newpid}

unfoldable pub on_pre_fork : M (Unit {0})
unfolding with_errno_check_
on_pre_fork = with_errno_check_ [] (unshare clone_newpid)
