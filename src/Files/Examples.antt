-- ===== src/Files/Examples.antt =====
-- The theorems on descriptors at a kernel where every call succeeds.
use sio2jail.Common.{
  refl, true, false, Text, codes, List, [], ◌∷◌, inl, inr, arith, is_digit, read_digits,
}
use sio2jail.System.{World, opendir, open_file, dup2, close}
use sio2jail.System.Sample.{sample_kernel, sample_world}
use sio2jail.Files.Descriptor.Whole.{Delivers, write_loop-Delivers}
use sio2jail.Files.Closing.{FilesListener, stoi, stays_open, on_pre_fork, on_post_fork_child}
use sio2jail.Files.Closing.Closed.{Closed, on_post_fork_child_closes}

write_loop-Delivers_example : Delivers 3 1 true (codes "ab") sample_kernel sample_world
write_loop-Delivers_example =
    write_loop-Delivers 3 1 true (codes "ab") sample_kernel sample_world (omega arith)
      (λ h t c. (refl, omega arith))

abbrev names : List Text
names = codes "." ∷ codes "2" ∷ codes "5" ∷ []

abbrev fresh : FilesListener
fresh = record { suppress_stderr = true; fds = []; devnull = 0 }

abbrev gathered : FilesListener
gathered = record { suppress_stderr = true; fds = 5 ∷ []; devnull = 7 }

abbrev forked_world : World
forked_world = record sample_world {
  history = open_file (codes "/dev/null") 1 ∷ opendir (codes "/proc/self/fd/") ∷ [];
}

abbrev closed_world : World
closed_world = record sample_world { history = close 5 ∷ close 7 ∷ dup2 7 2 ∷ forked_world.history }

on_post_fork_child_closes_example : Closed sample_kernel 5 closed_world.history
unfolding on_pre_fork on_post_fork_child stoi is_digit read_digits stays_open
on_post_fork_child_closes_example =
    on_post_fork_child_closes (λ fd. false) names (codes "5") 5 3 fresh gathered sample_kernel
      sample_world forked_world forked_world closed_world refl refl (inr (inr (inl refl))) refl refl
