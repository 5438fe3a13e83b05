-- ===== src/Limits/Memory.antt =====
-- limits/MemoryLimitListener.cc: the limit on the address space. The handlers of the traced system
-- calls mmap, mmap2 and mremap take the values of the call's arguments.
pub mod Peak
pub mod Judged
pub mod Allocation
pub mod Rules
use Prim.Native.Nat.{max, bit_and}
use sio2jail.Common.{
  ℕ, ◌+◌, ◌-◌, ◌*◌, ◌/◌, ◌^◌, Bool, true, false, not, ◌&&◌, ltb, leb, ◌==◌, if◌then◌else◌, Text,
  codes, List, [], u64, minus_one,
}
use sio2jail.Executor.Event.{ExecuteAction}
use sio2jail.Tracer.Action.{TraceAction}
use sio2jail.Printer.{KillReason, set_kill_reason, set_memory_peak}
use sio2jail.ProcFs.{vm_peak, vm_size, read_proc_fs}
use sio2jail.System.{
  M, ◌>>=◌, ◌>>◌, pure, report, with_errno_check_, setrlimit, rlimit_as, rlimit_stack,
}

pub record MemoryLimit : Type 0 where
  pub memory_peak_kb : ℕ
  pub memory_limit_kb : ℕ
  pub vm_peak_valid : Bool
  pub child_pid : ℕ

abbrev pub memory_limit_margin : ℕ
memory_limit_margin = 8 * 1024 * 1024

abbrev pub mremap_dontunmap : ℕ
mremap_dontunmap = 4

unfoldable pub make : ℕ → MemoryLimit
make memory_limit_kb = record {
  memory_peak_kb = 0;
  memory_limit_kb = memory_limit_kb;
  vm_peak_valid = false;
  child_pid = minus_one;
}

unfoldable pub exceeds_limit : MemoryLimit → ℕ → Bool
exceeds_limit m usage = ltb 0 m.memory_limit_kb && ltb m.memory_limit_kb usage

-- What follows the reading of the current size in handleMemoryAllocation.
unfoldable pub account_allocation : ℕ → MemoryLimit → M (TraceAction × MemoryLimit)
unfolding exceeds_limit
account_allocation memory_usage m = do
  let m' = record m { memory_peak_kb = max m.memory_peak_kb memory_usage }
  report (set_memory_peak m'.memory_peak_kb)
  if exceeds_limit m memory_usage
      then (do
        report (set_kill_reason KillReason.mle (codes "memory limit exceeded"))
        pure (TraceAction.kill, m'))
      else pure (TraceAction.continue, m')

unfoldable pub handle_memory_allocation : ℕ → MemoryLimit → M (TraceAction × MemoryLimit)
handle_memory_allocation allocated_memory_kb m = do
  usage ← read_proc_fs m.child_pid vm_size
  account_allocation (u64 (usage + allocated_memory_kb)) m

-- The handler of mmap and mmap2, given the requested length.
unfoldable pub on_mmap : ℕ → MemoryLimit → M (TraceAction × MemoryLimit)
on_mmap size m =
    if not m.vm_peak_valid
    then pure (TraceAction.continue, m)
    else handle_memory_allocation (size / 1024) m

unfoldable pub on_mremap : ℕ → ℕ → ℕ → MemoryLimit → M (TraceAction × MemoryLimit)
on_mremap old_size new_size flags m =
    let doesnt_unmap = bit_and flags mremap_dontunmap == mremap_dontunmap in
    let allocated = if doesnt_unmap then new_size else u64 (new_size + 2 ^ 64 - old_size) in
    if not m.vm_peak_valid
    then pure (TraceAction.continue, m)
    else if not doesnt_unmap && leb new_size old_size
    then pure (TraceAction.continue, m)
    else handle_memory_allocation (allocated / 1024) m

unfoldable pub on_post_fork_child : MemoryLimit → M (Unit {0})
on_post_fork_child m =
    let limit = u64 (m.memory_limit_kb * 1024 + memory_limit_margin) in
    let infinity = 2 ^ 64 - 1 in
    if ltb 0 m.memory_limit_kb
    then (do
      with_errno_check_ [] (setrlimit rlimit_as limit limit)
      with_errno_check_ [] (setrlimit rlimit_stack infinity infinity))
    else pure tt

unfoldable pub on_post_fork_parent : ℕ → MemoryLimit → MemoryLimit
on_post_fork_parent child_pid m = record m { child_pid = child_pid }

unfoldable pub on_post_exec : MemoryLimit → TraceAction × MemoryLimit
on_post_exec m = (TraceAction.continue, record m { vm_peak_valid = true })

-- What follows the reading of the peak in onExecuteEvent.
unfoldable pub account_peak : ℕ → MemoryLimit → M (ExecuteAction × MemoryLimit)
unfolding exceeds_limit
account_peak peak m = do
  let m' = record m { memory_peak_kb = max m.memory_peak_kb peak }
  report (set_memory_peak m'.memory_peak_kb)
  if exceeds_limit m m'.memory_peak_kb
      then (do
        report (set_kill_reason KillReason.mle (codes "memory limit exceeded"))
        pure (ExecuteAction.kill, m'))
      else pure (ExecuteAction.continue, m')

unfoldable pub on_execute_event : MemoryLimit → M (ExecuteAction × MemoryLimit)
on_execute_event m =
    if not m.vm_peak_valid
    then pure (ExecuteAction.continue, m)
    else (do peak ← read_proc_fs m.child_pid vm_peak; account_peak peak m)
