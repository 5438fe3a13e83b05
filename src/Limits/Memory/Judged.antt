-- ===== src/Limits/Memory/Judged.antt =====
-- The memory listener keeps its peak within the limit, or gives a kill reason.
use sio2jail.Common.{
  ℕ, u64, ◌+◌, ◌-◌, ◌/◌, ◌^◌, ◌≡◌, ◌⊎◌, ◌≤◌, not, ◌&&◌, leb, ◌==◌, if◌then◌else◌, arith,
}
use Prim.Native.Nat.{bit_and}
use sio2jail.Executor.Event.{ExecuteAction}
use sio2jail.Printer.{set_kill_reason, set_memory_peak}
use sio2jail.ProcFs.{vm_size, vm_peak, lift, read_proc_fs}
use sio2jail.ProcFs.Kept.{lift-Keeps, read_proc_fs-Keeps}
use sio2jail.System.{M, ◌>>=◌, pure}
use sio2jail.System.Kept.{Judges, bind-Judges, pure-Judges, aside, if-Judges}
use sio2jail.Tracer.Action.{TraceAction}
use sio2jail.Tracer.Tracee.{Tracee, get_syscall_argument}
use sio2jail.Limits.Memory.{
  MemoryLimit, mremap_dontunmap, account_allocation, handle_memory_allocation, on_mmap, on_mremap,
  account_peak, on_execute_event,
}
use sio2jail.Limits.Memory.Rules.{mmap_handler, mremap_handler}

-- The limit is kept, and the peak is within it, if there is one.
abbrev pub Within : ℕ → MemoryLimit → Type 0
Within limit m = (m.memory_limit_kb ≡ limit) × ((limit ≡ 0) ⊎ (m.memory_peak_kb ≤ limit))

-- The same, beside what the listener does not touch.
abbrev pub Beside : ℕ → Type 0 → MemoryLimit → Type 0
Beside limit R m = Within limit m × R

module _ (limit : ℕ) (R : Type 0) where
  account_allocation-Judges :
      (usage : ℕ) (m : MemoryLimit)
      → Judges (Beside limit R) m (account_allocation usage m) (λ r. r.1)
  unfolding account_allocation set_kill_reason set_memory_peak
  account_allocation-Judges usage m = record { judges = λ k w w' a j e. ground arith }

  account_peak-Judges :
      (peak : ℕ) (m : MemoryLimit) → Judges (Beside limit R) m (account_peak peak m) (λ r. r.1)
  unfolding account_peak set_kill_reason set_memory_peak
  account_peak-Judges peak m = record { judges = λ k w w' a j e. ground arith }

  handle_memory_allocation-Judges :
      (allocated : ℕ) (m : MemoryLimit)
      → Judges (Beside limit R) m (handle_memory_allocation allocated m) (λ r. r.1)
  unfolding handle_memory_allocation
  handle_memory_allocation-Judges allocated m =
      bind-Judges (Beside limit R) m (read_proc_fs m.child_pid vm_size)
        (λ usage. account_allocation (u64 (usage + allocated)) m) (λ usage. m) (λ r. r.1)
        (aside (Beside limit R) m _ (read_proc_fs-Keeps m.child_pid vm_size))
        (λ usage. account_allocation-Judges (u64 (usage + allocated)) m)

  idle :
      (m : MemoryLimit)
      → Judges {A = TraceAction × MemoryLimit}
          (Beside limit R)
          m
          (pure (TraceAction.continue, m))
          (λ r. r.1)
  idle m =
      pure-Judges (Beside limit R) {A = TraceAction × MemoryLimit} (TraceAction.continue, m)
        (λ r. r.1)

  on_mmap-Judges :
      (size : ℕ) (m : MemoryLimit) → Judges (Beside limit R) m (on_mmap size m) (λ r. r.1)
  unfolding on_mmap
  on_mmap-Judges size m =
      if-Judges (Beside limit R) m (not m.vm_peak_valid) (pure (TraceAction.continue, m))
        (handle_memory_allocation (size / 1024) m) (λ r. r.1) (idle m)
        (handle_memory_allocation-Judges (size / 1024) m)

  on_mremap-Judges :
      (old_size new_size flags : ℕ) (m : MemoryLimit)
      → Judges (Beside limit R) m (on_mremap old_size new_size flags m) (λ r. r.1)
  unfolding on_mremap
  on_mremap-Judges old_size new_size flags m =
      let doesnt_unmap = bit_and flags mremap_dontunmap == mremap_dontunmap in
      let allocated = if doesnt_unmap then new_size else u64 (new_size + 2 ^ 64 - old_size) in
      let growing = handle_memory_allocation (allocated / 1024) m in
      if-Judges (Beside limit R) m (not m.vm_peak_valid) (pure (TraceAction.continue, m))
        (if not doesnt_unmap && leb new_size old_size
          then pure (TraceAction.continue, m)
          else growing)
        (λ r. r.1) (idle m)
        (if-Judges (Beside limit R) m (not doesnt_unmap && leb new_size old_size)
          (pure (TraceAction.continue, m)) growing (λ r. r.1) (idle m)
          (handle_memory_allocation-Judges (allocated / 1024) m))

  pub on_execute_event-Judges :
      (m : MemoryLimit) → Judges (Beside limit R) m (on_execute_event m) (λ r. r.1)
  unfolding on_execute_event
  on_execute_event-Judges m =
      if-Judges (Beside limit R) m (not m.vm_peak_valid) (pure (ExecuteAction.continue, m))
        (read_proc_fs m.child_pid vm_peak >>= λ peak. account_peak peak m) (λ r. r.1)
        (pure-Judges (Beside limit R) (ExecuteAction.continue, m) (λ r. r.1))
        (bind-Judges (Beside limit R) m (read_proc_fs m.child_pid vm_peak)
          (λ peak. account_peak peak m) (λ peak. m) (λ r. r.1)
          (aside (Beside limit R) m _ (read_proc_fs-Keeps m.child_pid vm_peak))
          (λ peak. account_peak-Judges peak m))

  -- What a handler makes of the answer of the listener.
  answered :
      (tracee : Tracee) (m : MemoryLimit) (c : M (TraceAction × MemoryLimit))
      → Judges (Beside limit R) m c (λ r. r.1)
      → Judges {A = TraceAction × Tracee × MemoryLimit}
          (Beside limit R)
          m
          (c >>= λ r. pure (r.0, tracee, r.1))
          (λ r. r.2)
  answered tracee m c h =
      bind-Judges (Beside limit R) m c (λ r. pure (r.0, tracee, r.1)) (λ r. r.1) (λ r. r.2) h
        (λ r. pure-Judges (Beside limit R) (r.0, tracee, r.1) (λ q. q.2))

  argument :
      (tracee : Tracee) (index : ℕ) (m : MemoryLimit)
      (f : ℕ → M (TraceAction × Tracee × MemoryLimit))
      → ((a : ℕ) → Judges (Beside limit R) m (f a) (λ r. r.2))
      → Judges (Beside limit R) m (lift (get_syscall_argument tracee index) >>= f) (λ r. r.2)
  argument tracee index m f h =
      bind-Judges (Beside limit R) m (lift (get_syscall_argument tracee index)) f (λ a. m)
        (λ r. r.2) (aside (Beside limit R) m _ (lift-Keeps (get_syscall_argument tracee index))) h

  resized : Tracee → MemoryLimit → ℕ → ℕ → ℕ → M (TraceAction × Tracee × MemoryLimit)
  resized tracee m old_size new_size flags =
      on_mremap old_size new_size flags m >>= λ r. pure (r.0, tracee, r.1)

  pub handlers-Judges :
      (tracee : Tracee) (m : MemoryLimit)
      → Judges (Beside limit R) m (mmap_handler tracee m) (λ r. r.2)
        × Judges (Beside limit R) m (mremap_handler tracee m) (λ r. r.2)
  unfolding mmap_handler mremap_handler resized
  handlers-Judges tracee m = (
    if-Judges (Beside limit R) m (not m.vm_peak_valid) (pure (TraceAction.continue, tracee, m))
        (lift (get_syscall_argument tracee 1) >>= λ size.
          on_mmap size m >>= λ r. pure (r.0, tracee, r.1))
        (λ r. r.2) (pure-Judges (Beside limit R) (TraceAction.continue, tracee, m) (λ r. r.2))
        (argument tracee 1 m (λ size. on_mmap size m >>= λ r. pure (r.0, tracee, r.1))
          (λ size. answered tracee m (on_mmap size m) (on_mmap-Judges size m))),
    argument tracee 1 m
        (λ old_size. lift (get_syscall_argument tracee 2) >>= λ new_size.
          lift (get_syscall_argument tracee 3) >>= resized tracee m old_size new_size)
        (λ old_size.
          argument tracee 2 m
            (λ new_size.
              lift (get_syscall_argument tracee 3) >>= resized tracee m old_size new_size)
            (λ new_size. argument tracee 3 m (resized tracee m old_size new_size) (λ flags.
              answered tracee m (on_mremap old_size new_size flags m)
                (on_mremap-Judges old_size new_size flags m)))),
  )
