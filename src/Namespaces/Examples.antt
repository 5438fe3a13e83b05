-- ===== src/Namespaces/Examples.antt =====
-- The theorem on the change of the root at a kernel where every call succeeds.
use sio2jail.Common.{◌≡◌, refl, true, false, if◌then◌else◌, Text, codes, [], ◌∷◌}
use sio2jail.System.{World}
use sio2jail.System.Sample.{sample_kernel, sample_world}
use sio2jail.System.Sequence.{Succeeds, history_after}
use sio2jail.Namespaces.Mount.{mode_ro, mode_rw, BindMount, MountNamespace, on_post_fork_child}
use sio2jail.Namespaces.Mount.Calls.{calls, on_post_fork_child-done}

abbrev bind : Text → Text → BindMount
bind source target = record {
  source_path = source;
  target_path = target;
  mode = mode_ro;
  dev = false;
}

abbrev sample_mounts : MountNamespace
sample_mounts = record {
  new_root = bind (codes "/box") (codes "/");
  executable_path = codes "/home/a.out";
  bind_mounts =
      record (bind (codes "/lib") (codes "/lib")) { mode = mode_rw }
      ∷ bind (codes "/home/a.out") (codes "/exe")
      ∷ [];
  mount_proc = true;
  bind_executable = true;
}

abbrev mounted_world : World
mounted_world = record sample_world {
  history = history_after (calls sample_mounts) sample_world.history;
}

on_post_fork_child-done_example :
    Succeeds sample_kernel (calls sample_mounts) sample_world.history
    × (mounted_world ≡ record sample_world {
      history = history_after (calls sample_mounts) sample_world.history;
    })
    × ((if sample_mounts.bind_executable then codes "/exe" else codes "/home/a.out") ≡ codes "/exe")
unfolding on_post_fork_child
on_post_fork_child-done_example =
    on_post_fork_child-done sample_mounts (codes "/home/a.out") (codes "/exe") sample_kernel
      sample_world mounted_world refl
