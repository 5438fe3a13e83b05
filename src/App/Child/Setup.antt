-- ===== src/App/Child/Setup.antt =====
-- Each listener's part of the child's set-up.
use sio2jail.Common.{
  ℕ, ◌≡◌, subst, refl, ap, ◌∙◌, true, List, [], ◌∷◌, ◌++◌, Text, In, inl, inr, Bool-cases,
}
use sio2jail.System.{Kernel, World, M, ◌>>=◌, ◌>>◌, pure, done, Syscall}
use sio2jail.System.Sequence.{Succeeds}
use sio2jail.App.Features.{mount_namespace, capability_drop}
use sio2jail.Namespaces.Mount
use sio2jail.Namespaces.Mount.Calls
use sio2jail.Namespaces.Mount.Calls.{on_post_fork_child-done}
use sio2jail.Privileges
use sio2jail.Privileges.Dropped
use sio2jail.Privileges.Dropped.{on_post_fork_child_drops}
use sio2jail.System.Checks.{>>=-eq-done}
use sio2jail.App.Settings.{Settings}
use sio2jail.App.Wiring.{
  Component, mount_ns, priv, registered, created, for_each_listener, executor_listeners,
}
use sio2jail.App.Child.{Forked, post_fork_child, set_up, change_directory, before_execv}

-- The listener's part ran from one world to another, after the parts of those before it and before
-- the parts of those behind it.
abbrev pub RanBetween :
    Kernel
    → Forked
    → List Component
    → Component
    → List Component
    → Text
    → World
    → Text
    → World
    → Type 0
RanBetween k f front c back name w name' w' =
    ((a : Text) × (v : World) × (b : Text) × (v' : World) × (set_up f front name k w ≡ done (a, v))
      × (post_fork_child f c a k v ≡ done (b, v'))
      × (set_up f back b k v' ≡ done (name', w')))

set_up-append :
    (f : Forked) (front : List Component) (c : Component) (back : List Component)
    (name name' : Text) (k : Kernel) (w w' : World)
    → set_up f (front ++ c ∷ back) name k w ≡ done (name', w')
    → RanBetween k f front c back name w name' w'
unfolding set_up
set_up-append f [] c back name name' k w w' h =
    let (b, v', e, rest) =
      >>=-eq-done (post_fork_child f c name) (set_up f back) {k = k} {w = w} h in
    (name, w, b, v', refl, e, rest)
set_up-append f (first ∷ front) c back name name' k w w' h =
    let (a, v, e, rest) =
      >>=-eq-done (post_fork_child f first name) (set_up f (front ++ c ∷ back)) {k = k} {w = w} h in
    let (a', u, b, u', before, here, after) = set_up-append f front c back a name' k v w' rest in
    (a', u, b, u', rw (e, ◌>>=◌) before, here, after)

for_each_listener-In :
    (s : Settings) (c : Component) (cs : List Component)
    → created s c ≡ true
    → In c cs
    → In c (for_each_listener s cs)
unfolding for_each_listener
for_each_listener-In s c [] h i = i
for_each_listener-In s c (first ∷ cs) h (inl same) = rw (ap (created s) same ∙ h) (inl same)
for_each_listener-In s c (first ∷ cs) h (inr i) = elim (Bool-cases (created s first)) [
  | inl on ↦ rw on (inr (for_each_listener-In s c cs h i))
  | inr off ↦ rw off (for_each_listener-In s c cs h i)
]

In-split :
    (c : Component) (cs : List Component)
    → In c cs
    → (front : List Component) × (back : List Component) × (cs ≡ front ++ c ∷ back)
In-split c [] i = absurd i
In-split c (first ∷ cs) (inl same) = ([], cs, ap (λ d. d ∷ cs) same)
In-split c (first ∷ cs) (inr i) =
    let (front, back, e) = In-split c cs i in (first ∷ front, back, ap (λ ds. first ∷ ds) e)

-- The listener was reached in the order of registration, by a set-up that returned, and each of its
-- calls from there on succeeded or failed with an errno that is let pass for it.
abbrev pub Passed :
    Kernel → Forked → Settings → World → Component → List (List ℕ × Syscall) → Type 0
Passed k f s w c calls =
    ((front : List Component) × (back : List Component) × (a : Text) × (v : World)
      × (executor_listeners s ≡ front ++ c ∷ back)
      × (set_up f front s.program_name k w ≡ done (a, v))
      × Succeeds k calls v.history)

chdir_then : Settings → Text → M Text
chdir_then s name = change_directory s.program_working_dir >> pure name

-- In its turn, a listener's calls succeed, or fail as is let pass.
abbrev Turn : Kernel → Forked → Component → List (List ℕ × Syscall) → Type 0
Turn k f c calls =
    (a b : Text) (v v' : World)
    → post_fork_child f c a k v ≡ done (b, v')
    → Succeeds k calls v.history

mount-Turn : (f : Forked) (k : Kernel) → Turn k f mount_ns (Mount.Calls.calls f.mounts)
unfolding post_fork_child
mount-Turn f k a b v v' e = (on_post_fork_child-done f.mounts a b k v v' e).0

priv-Turn :
    (f : Forked) (k : Kernel)
    → Turn k f priv (Privileges.Dropped.calls f.cap_last_cap f.since_4_3 f.secure_bits)
unfolding post_fork_child
priv-Turn f k a b v v' e =
    let (bits, u, drops, rest) =
      >>=-eq-done (Privileges.on_post_fork_child f.cap_last_cap f.since_4_3 f.secure_bits)
        (λ bits. pure a) {k = k} {w = v} e in
    (on_post_fork_child_drops f.cap_last_cap f.since_4_3 f.secure_bits bits k v u drops).0

passed :
    (s : Settings) (f : Forked) (c : Component) (calls : List (List ℕ × Syscall)) (name : Text)
    (k : Kernel) (w w' : World)
    → set_up f (executor_listeners s) s.program_name k w ≡ done (name, w')
    → In c (executor_listeners s)
    → Turn k f c calls
    → Passed k f s w c calls
passed s f c calls name k w w' h i turn =
    let (front, back, e) = In-split c (executor_listeners s) i in
    let (a, v, b, v', before, here, after) =
      set_up-append f front c back s.program_name name k w w'
        (subst (λ cs. set_up f cs s.program_name k w ≡ done (name, w')) e h) in
    (front, back, a, v, e, before, turn a b v v' here)

-- If the child reaches the execution of the program, and the features of the mount namespace and of
-- the dropping of capabilities are on, then both listeners had their turn, in the order of
-- registration. All their calls were made, in the order that is given for each, and each call
-- succeeded or failed with an errno that is let pass for it: an mkdir of what exists (EEXIST), the
-- drop of an unknown capability (EINVAL), and the locking of the secure bits, where that is refused
-- (EPERM).
pub before_execv_confines :
    (s : Settings) (f : Forked) (name : Text) (k : Kernel) (w w' : World)
    → before_execv s f k w ≡ done (name, w')
    → s.features mount_namespace ≡ true
    → s.features capability_drop ≡ true
    → Passed k f s w mount_ns (Mount.Calls.calls f.mounts)
      × Passed k f s w priv (Privileges.Dropped.calls f.cap_last_cap f.since_4_3 f.secure_bits)
unfolding before_execv chdir_then executor_listeners created
before_execv_confines s f name k w w' h hm hp =
    let (n, v, e, rest) =
      >>=-eq-done (set_up f (executor_listeners s) s.program_name) (chdir_then s) {k = k} {w = w}
        h in
    (
      passed s f mount_ns (Mount.Calls.calls f.mounts) n k w v e
          (for_each_listener-In s mount_ns registered hm
            (inr (inr (inr (inr (inr (inr (inr (inr (inr (inr (inr (inr (inl refl))))))))))))))
          (mount-Turn f k),
      passed s f priv (Privileges.Dropped.calls f.cap_last_cap f.since_4_3 f.secure_bits) n k w v e
          (for_each_listener-In s priv registered hp (
            inr (inr (inr (inr (inr (inr (inr (inr (inr (inr (inr (inr (inr (inl refl)))))))))))))))
          (priv-Turn f k),
    )
