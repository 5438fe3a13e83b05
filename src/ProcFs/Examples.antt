-- ===== src/ProcFs/Examples.antt =====
-- The reading of a memory field at a concrete status file.
use sio2jail.Common.{◌≡◌, refl, [], ◌∷◌, codes, arith, show, is_digit}
use sio2jail.ProcFs.{read_proc_fs, vm_size, label, starts_with, skip_blanks}
use sio2jail.ProcFs.Lookup.{read_proc_fs-memory}
use sio2jail.System.{done, read_status}
use sio2jail.System.Sample.{sample_kernel, sample_world}

read_proc_fs-memory_example :
    read_proc_fs 100 vm_size sample_kernel sample_world
    ≡ done (2048, record sample_world { history = read_status 100 ∷ [] })
unfolding label starts_with skip_blanks show is_digit
read_proc_fs-memory_example =
    read_proc_fs-memory vm_size (codes "Name: a" ∷ codes "VmPeak:  4096 kB" ∷ []) [] (codes " ")
      (codes " kB") 2048 100 sample_kernel sample_world (λ e. ground (arith, e)) (refl, (refl, tt))
      (refl, tt) (omega arith) refl refl
