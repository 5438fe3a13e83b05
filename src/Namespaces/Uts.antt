-- ===== src/Namespaces/Uts.antt =====
-- ns/UTSNamespaceListener.cc.
use sio2jail.Common.{codes, []}
use sio2jail.System.{M, ◌>>◌, with_errno_check_, unshare, sethostname, setdomainname}
use sio2jail.Namespaces.{clone_newuts}

unfoldable pub on_post_fork_child : M (Unit {0})
unfolding with_errno_check_
on_post_fork_child = do
  with_errno_check_ [] (unshare clone_newuts)
  with_errno_check_ [] (sethostname (codes "sio2jail"))
  with_errno_check_ [] (setdomainname (codes "sio2jail"))
