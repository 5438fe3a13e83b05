-- ===== src/Namespaces/User.antt =====
-- ns/UserNamespaceListener.cc: the maps of user and group ids.
use sio2jail.Common.{ℕ, ◌+◌, ◌==◌, if◌then◌else◌, Text, codes, show, [], ◌++◌, minus_one}
use sio2jail.System.{
  M, ◌>>=◌, ◌>>◌, pure, invoke, getuid, getgid, unshare, close, with_errno_check_,
}
use sio2jail.Files.Descriptor.{open_descriptor, write_text}
use sio2jail.Namespaces.{clone_newuser}

pub record UserNamespace : Type 0 where
  pub root_outside_uid : ℕ
  pub root_outside_gid : ℕ
  pub child_outside_uid : ℕ
  pub child_outside_gid : ℕ

-- The default constructor; an id of -1 stands for none.
unfoldable pub make : UserNamespace
make = record {
  root_outside_uid = minus_one;
  root_outside_gid = minus_one;
  child_outside_uid = minus_one;
  child_outside_gid = minus_one;
}

unfoldable pub map_text : ℕ → ℕ → Text
map_text root child =
    let first : Text = codes "0 " ++ (show root ++ codes " 1\n") in
    if child == minus_one then first else first ++ (codes "1 " ++ (show child ++ codes " 1\n"))

abbrev pub o_wronly_cloexec : ℕ
o_wronly_cloexec = 1 + 0x80000

-- A file is opened, written by one call and closed, whatever the closing says.
unfoldable pub write_file : Text → Text → M (Unit {0})
unfolding open_descriptor write_text
write_file path text = do
  fd ← open_descriptor path o_wronly_cloexec
  whole ← write_text fd text
  r ← invoke (close fd)
  pure tt

unfoldable pub write_uid_gid_map : Text → ℕ → ℕ → M (Unit {0})
unfolding write_file map_text
write_uid_gid_map file root child = write_file (codes "/proc/self/" ++ file) (map_text root child)

unfoldable pub write_set_groups : M (Unit {0})
unfolding write_file
write_set_groups = write_file (codes "/proc/self/setgroups") (codes "deny")

unfoldable pub own_id : ℕ → M ℕ → M ℕ
own_id id ask = if id == minus_one then ask else pure id

unfoldable pub ask_uid : M ℕ
ask_uid = do r ← invoke getuid; pure r.value

unfoldable pub ask_gid : M ℕ
ask_gid = do r ← invoke getgid; pure r.value

unfoldable pub on_pre_fork : UserNamespace → M (Unit {0})
unfolding own_id ask_uid ask_gid with_errno_check_ write_uid_gid_map write_set_groups
on_pre_fork l = do
  uid ← own_id l.root_outside_uid ask_uid
  gid ← own_id l.root_outside_gid ask_gid
  with_errno_check_ [] (unshare clone_newuser)
  write_uid_gid_map (codes "uid_map") uid l.child_outside_uid
  write_set_groups
  write_uid_gid_map (codes "gid_map") gid l.child_outside_gid
