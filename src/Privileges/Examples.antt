-- ===== src/Privileges/Examples.antt =====
-- The theorem on the dropped privileges at a kernel where every call succeeds.
use sio2jail.Common.{◌≡◌, refl, true}
use sio2jail.System.{World}
use sio2jail.System.Sample.{sample_kernel, sample_world}
use sio2jail.System.Sequence.{Succeeds, history_after}
use sio2jail.Privileges.{on_post_fork_child}
use sio2jail.Privileges.Dropped.{calls, secured, final_bits, on_post_fork_child_drops}

abbrev dropped_world : World
dropped_world = record sample_world {
  history = history_after (calls 1 true 0) sample_world.history;
}

on_post_fork_child_drops_example :
    Succeeds sample_kernel (calls 1 true 0) sample_world.history
    × (dropped_world
        ≡ record sample_world { history = history_after (calls 1 true 0) sample_world.history })
    × (secured 3 (final_bits true 0) ≡ 195)
unfolding on_post_fork_child
on_post_fork_child_drops_example =
    on_post_fork_child_drops 1 true 0 195 sample_kernel sample_world dropped_world refl
