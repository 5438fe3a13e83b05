-- ===== src/Namespaces/Mount.antt =====
-- ns/MountNamespaceListener.cc: the bind mounts and the change of the root.
pub mod Calls
use Prim.Native.Nat.{bit_or}
use sio2jail.Common.{
  ℕ, Bool, true, false, if◌then◌else◌, Text, codes, text_eq, List, [], ◌∷◌, ◌++◌, none, some,
}
use sio2jail.System.{
  M, ◌>>=◌, ◌>>◌, pure, Outcome, done, threw, exception, Syscall, with_errno_check_, eexist,
  unshare, mount, umount2, pivot_root, chdir, chroot, mkdir,
}
use sio2jail.Namespaces.{clone_newns}

pub data Mode : Type 0 where
  mode_ro mode_rw : Mode

pub record BindMount : Type 0 where
  pub source_path : Text
  pub target_path : Text
  pub mode : Mode
  pub dev : Bool

pub record MountNamespace : Type 0 where
  pub new_root : BindMount
  pub executable_path : Text
  pub bind_mounts : List BindMount
  pub mount_proc : Bool
  pub bind_executable : Bool

abbrev pub new_executable_path : Text
new_executable_path = codes "/exe"

abbrev pub ms_rdonly : ℕ
ms_rdonly = 1

abbrev pub ms_nosuid : ℕ
ms_nosuid = 2

abbrev pub ms_nodev : ℕ
ms_nodev = 4

abbrev pub ms_noexec : ℕ
ms_noexec = 8

abbrev pub ms_remount : ℕ
ms_remount = 32

abbrev pub ms_bind : ℕ
ms_bind = 4096

abbrev pub ms_rec : ℕ
ms_rec = 16384

abbrev pub ms_private : ℕ
ms_private = 0x40000

abbrev pub mnt_detach : ℕ
mnt_detach = 2

unfoldable pub flags : BindMount → ℕ
flags b =
    let nosuid : ℕ = ms_nosuid in
    let rdonly : ℕ = elim b.mode [ mode_ro ↦ bit_or nosuid ms_rdonly | mode_rw ↦ nosuid ] in
    if b.dev then rdonly else bit_or rdonly ms_nodev

unfoldable pub target_under : Text → BindMount → Text
target_under root b = root ++ codes "/" ++ b.target_path

unfoldable pub mount_bind : Text → BindMount → M (Unit {0})
unfolding with_errno_check_ target_under flags
mount_bind root b = do
  with_errno_check_ [] (mount b.source_path (target_under root b) (some []) ms_bind)
  with_errno_check_ [] (
      mount (codes "none") (target_under root b) none
        (bit_or (bit_or ms_remount ms_bind) (flags b)))

unfoldable pub umount_bind : Text → BindMount → M (Unit {0})
unfolding with_errno_check_ target_under
umount_bind root b = with_errno_check_ [] (umount2 (target_under root b) mnt_detach)

-- The first of the bind mounts has to be that of the root.
unfoldable pub with_root : Text → Bool → Bool → List BindMount → Outcome MountNamespace
unfolding text_eq
with_root executable_path mount_proc bind_executable [] = threw exception
with_root executable_path mount_proc bind_executable (first ∷ rest) =
    if text_eq first.target_path (codes "/")
    then done (record {
      new_root = first;
      executable_path = executable_path;
      bind_mounts = rest;
      mount_proc = mount_proc;
      bind_executable = bind_executable;
    })
    else threw exception

-- The constructor, of the settings' bind mounts and of whether the executable is bound.
unfoldable pub make : List BindMount → Bool → Text → Bool → Outcome MountNamespace
unfolding with_root
make bind_mounts bind_executable executable_path mount_proc =
    let exe : BindMount = record {
      source_path = executable_path;
      target_path = new_executable_path;
      mode = mode_ro;
      dev = false;
    } in
    with_root executable_path mount_proc bind_executable
      (if bind_executable then bind_mounts ++ exe ∷ [] else bind_mounts)

unfoldable pub mount_all : Text → List BindMount → M (Unit {0})
unfolding mount_bind
mount_all root [] = pure tt
mount_all root (b ∷ bs) = do mount_bind root b; mount_all root bs

-- An error of mkdir other than EEXIST is thrown with its errno, as a checked call throws it.
unfoldable pub mount_new_proc : Bool → M (Unit {0})
unfolding with_errno_check_
mount_new_proc false = pure tt
mount_new_proc true = do
  with_errno_check_ (eexist ∷ []) (mkdir (codes "proc") 493)
  with_errno_check_ [] (
      mount (codes "proc") (codes "proc") (some (codes "proc"))
        (bit_or (bit_or ms_nosuid ms_nodev) ms_noexec))

-- The listener of the mounts is the executor: the result is the name of the program that it will
-- execute, of the name that it had.
unfoldable pub on_post_fork_child : MountNamespace → Text → M Text
unfolding with_errno_check_ mount_all mount_new_proc flags
on_post_fork_child m program_name = do
  with_errno_check_ [] (unshare clone_newns)
  with_errno_check_ [] (mount (codes "none") (codes "/") none (bit_or ms_private ms_rec))
  with_errno_check_ [] (mount m.new_root.source_path m.new_root.source_path (some []) ms_bind)
  mount_all m.new_root.source_path m.bind_mounts
  with_errno_check_ [] (chdir m.new_root.source_path)
  with_errno_check_ [] (pivot_root (codes ".") (codes "."))
  with_errno_check_ [] (chroot (codes "."))
  mount_new_proc m.mount_proc
  with_errno_check_ [] (umount2 (codes "/") mnt_detach)
  with_errno_check_ [] (
      mount (codes "none") (codes "/") none (bit_or (bit_or ms_remount ms_bind) (flags m.new_root)))
  pure (if m.bind_executable then new_executable_path else program_name)
