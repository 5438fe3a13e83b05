-- ===== src/Namespaces/Mount/Calls.antt =====
-- The calls that the change of the root consists of, with their flags as numbers.
use Prim.Native.Nat.{bit_or}
use sio2jail.Common.{
  ℕ, ◌+◌, ◌≡◌, refl, sym, ap, ◌∙◌, Bool, true, false, if◌then◌else◌, Text, codes, List, [], ◌∷◌,
  ◌++◌, none, some,
}
use sio2jail.System.{
  Kernel, World, ◌>>◌, pure, done, Syscall, unshare, mount, umount2, pivot_root, chdir, chroot,
  mkdir, eexist, with_errno_check_,
}
use sio2jail.System.Sequence.{
  checked-∷, checked-++, checked-[], >>_pure, checked, history_after, Succeeds, checked-append,
  checked-pure-done,
}
use sio2jail.Namespaces.Mount.{
  Mode, mode_ro, mode_rw, BindMount, MountNamespace, flags, target_under, mount_bind, mount_all,
  mount_new_proc, on_post_fork_child,
}

-- MS_REMOUNT | MS_BIND | MS_NOSUID, with MS_RDONLY for a read-only mount and MS_NODEV for one without
-- devices.
abbrev pub remount_flags : BindMount → ℕ
remount_flags b =
    32 + 4096 + 2 + (elim b.mode [ mode_ro ↦ 1 | mode_rw ↦ 0 ]) + (if b.dev then 0 else 4)

abbrev pub bind_calls : Text → List BindMount → List (List ℕ × Syscall)
bind_calls root [] = []
bind_calls root (b ∷ bs) =
    ([], mount b.source_path (root ++ codes "/" ++ b.target_path) (some []) 4096)
    ∷ ([], mount (codes "none") (root ++ codes "/" ++ b.target_path) none (remount_flags b))
    ∷ bind_calls root bs

abbrev pub proc_calls : Bool → List (List ℕ × Syscall)
proc_calls false = []
proc_calls true =
    (eexist ∷ [], mkdir (codes "proc") 493)
    ∷ ([], mount (codes "proc") (codes "proc") (some (codes "proc")) (2 + 4 + 8))
    ∷ []

abbrev pub calls : MountNamespace → List (List ℕ × Syscall)
calls m =
    let root = m.new_root.source_path in
    ([], unshare 0x00020000)
    ∷ ([], mount (codes "none") (codes "/") none (0x40000 + 16384))
    ∷ ([], mount root root (some []) 4096)
    ∷ (bind_calls root m.bind_mounts
        ++ ([], chdir root)
          ∷ ([], pivot_root (codes ".") (codes "."))
          ∷ ([], chroot (codes "."))
          ∷ (proc_calls m.mount_proc
              ++ ([], umount2 (codes "/") 2)
                ∷ ([], mount (codes "none") (codes "/") none (remount_flags m.new_root))
                ∷ []))

flags_lem :
    (s t : Text) (mode : Mode) (dev : Bool)
    → bit_or
        (bit_or 32 4096)
        (flags (record { source_path = s; target_path = t; mode = mode; dev = dev }))
      ≡ remount_flags (record { source_path = s; target_path = t; mode = mode; dev = dev })
unfolding flags
flags_lem s t mode_ro false = refl
flags_lem s t mode_ro true = refl
flags_lem s t mode_rw false = refl
flags_lem s t mode_rw true = refl

mount_bind_lem :
    (root : Text) (b : BindMount) → mount_bind root b ≡ checked (bind_calls root (b ∷ []))
unfolding mount_bind checked target_under
mount_bind_lem root b =
    let bind = with_errno_check_ [] (mount b.source_path (target_under root b) (some []) 4096) in
    ap (λ n. bind >> with_errno_check_ [] (mount (codes "none") (target_under root b) none n))
      (flags_lem b.source_path b.target_path b.mode b.dev)
    ∙ sym (ap (λ m. bind >> m) (>>_pure _))

mount_all_lem :
    (root : Text) (bs : List BindMount) → mount_all root bs ≡ checked (bind_calls root bs)
unfolding mount_all checked
mount_all_lem root [] = refl
mount_all_lem root (b ∷ bs) =
    ap (λ m. m >> mount_all root bs) (mount_bind_lem root b)
    ∙ ap (λ m. checked (bind_calls root (b ∷ [])) >> m) (mount_all_lem root bs)
    ∙ sym (checked-append (bind_calls root (b ∷ [])) (bind_calls root bs))

mount_new_proc_lem : (b : Bool) → mount_new_proc b ≡ checked (proc_calls b)
unfolding mount_new_proc checked
mount_new_proc_lem false = refl
mount_new_proc_lem true =
    sym (ap (λ m. with_errno_check_ (eexist ∷ []) (mkdir (codes "proc") 493) >> m) (>>_pure _))

renamed : MountNamespace → Text → Text
renamed m name = if m.bind_executable then codes "/exe" else name

on_post_fork_child_lem :
    (m : MountNamespace) (name : Text)
    → on_post_fork_child m name ≡ (checked (calls m) >> pure (renamed m name))
unfolding on_post_fork_child renamed
on_post_fork_child_lem m name =
    rw
      (
        mount_all_lem m.new_root.source_path m.bind_mounts,
        mount_new_proc_lem m.mount_proc,
        flags_lem m.new_root.source_path m.new_root.target_path m.new_root.mode m.new_root.dev,
      )
      (simp (checked-∷, checked-++, checked-[]))

-- If the change of the root returns, then it made exactly these calls, in this order, and each one
-- succeeded, apart from a mkdir that finds its directory: a mount namespace of its own, everything
-- private, the binds of the root and of the others, each remounted without setuid, read-only and
-- without devices unless it was asked for, the change to the new root, the new proc if it was asked
-- for, the detaching of the old root and only then the remount of the new one; the program's name
-- changes exactly where the executable is bound.
pub on_post_fork_child-done :
    (m : MountNamespace) (name new : Text) (k : Kernel) (w w' : World)
    → on_post_fork_child m name k w ≡ done (new, w')
    → Succeeds k (calls m) w.history
      × (w' ≡ record w { history = history_after (calls m) w.history })
      × ((if m.bind_executable then codes "/exe" else name) ≡ new)
unfolding renamed
on_post_fork_child-done m name new k w w' h =
    checked-pure-done (calls m) (renamed m name) new k w w'
      (ap (λ f. f k w) (sym (on_post_fork_child_lem m name)) ∙ h)
