-- ===== src/Limits/Memory/Allocation.antt =====
-- What a traced allocation and a stop of the child do, once the kernel has told the size.
use Prim.Native.Nat.{max, bit_and}
use sio2jail.Common.{
  ℕ, ◌+◌, ◌-◌, ◌/◌, ◌^◌, ◌<◌, ◌≡◌, ◌≢◌, ◌↔◌, ◌⊎◌, refl, true, u64, arith, codes, if◌then◌else◌,
  ≢→==, lt→leb,
}
use sio2jail.Executor.Event.{ExecuteAction}
use sio2jail.Tracer.Action.{TraceAction}
use sio2jail.Printer.{KillReason, set_kill_reason, set_memory_peak}
use sio2jail.ProcFs.{vm_peak, vm_size, read_proc_fs}
use sio2jail.System.{Kernel, World, done}
use sio2jail.Limits.Memory.{
  MemoryLimit, exceeds_limit, account_allocation, handle_memory_allocation, on_mremap, account_peak,
  on_execute_event, mremap_dontunmap,
}

-- A limit of 0 is none.
abbrev pub OverLimit : MemoryLimit → ℕ → Type 0
OverLimit m kb = (0 < m.memory_limit_kb) × (m.memory_limit_kb < kb)

-- What the next theorem says of a handled allocation.
abbrev pub AllocationAccounted : ℕ → ℕ → MemoryLimit → Kernel → World → World → Type 0
AllocationAccounted allocated usage m k w w₁ =
    (a : TraceAction) × (m' : MemoryLimit) × (w' : World) × (handle_memory_allocation allocated m k
        w
      ≡ done ((a, m'), w'))
    × ((a ≡ TraceAction.kill) ↔ OverLimit m (u64 (usage + allocated)))
    × (m' ≡ record m { memory_peak_kb = max m.memory_peak_kb (u64 (usage + allocated)) })
    × (w'.output.memory_peak_kb ≡ m'.memory_peak_kb)
    × ((a ≡ TraceAction.continue) ⊎ (w'.output.kill_reason ≢ KillReason.none))
    × (w'.history ≡ w₁.history)

-- For a child whose size the kernel tells, an allocation is killed exactly when the size with the
-- allocated part, in 64 bits, is over the limit. In either case the peak is raised to that size and
-- reported; a killed allocation leaves a kill reason; no other call is made.
pub handle_memory_allocation_lem :
    (allocated usage : ℕ) (m : MemoryLimit) (k : Kernel) (w w₁ : World)
    → read_proc_fs m.child_pid vm_size k w ≡ done (usage, w₁)
    → AllocationAccounted allocated usage m k w w₁
unfolding handle_memory_allocation account_allocation set_kill_reason set_memory_peak
handle_memory_allocation_lem allocated usage m k w w₁ e =
    let total = u64 (usage + allocated) in
    let over = exceeds_limit m total in
    let measured = set_memory_peak (max m.memory_peak_kb total) w₁.output in
    (
      if over then TraceAction.kill else TraceAction.continue,
      record m { memory_peak_kb = max m.memory_peak_kb total },
      record w₁ {
        output =
            if over
            then set_kill_reason KillReason.mle (codes "memory limit exceeded") measured
            else measured;
      },
      ground (arith, e),
      (ground arith, ground arith),
      refl,
      ground arith,
      ground arith,
      refl,
    )

-- What the next theorem says of a handled stop.
abbrev pub StopAccounted : ℕ → MemoryLimit → Kernel → World → World → Type 0
StopAccounted peak m k w w₁ =
    (a : ExecuteAction) × (m' : MemoryLimit) × (w' : World) × (on_execute_event m k w
      ≡ done ((a, m'), w'))
    × ((a ≡ ExecuteAction.kill) ↔ OverLimit m (max m.memory_peak_kb peak))
    × (m' ≡ record m { memory_peak_kb = max m.memory_peak_kb peak })
    × (w'.output.memory_peak_kb ≡ m'.memory_peak_kb)
    × ((a ≡ ExecuteAction.continue) ⊎ (w'.output.kill_reason ≢ KillReason.none))
    × (w'.history ≡ w₁.history)

-- At a stop of a child that has called execve and whose peak the kernel tells, a kill is asked for
-- exactly when the greatest peak so far is over the limit. In either case that peak is kept and
-- reported; a kill leaves a kill reason; no other call is made.
pub on_execute_event_lem :
    (peak : ℕ) (m : MemoryLimit) (k : Kernel) (w w₁ : World)
    → m.vm_peak_valid ≡ true
    → read_proc_fs m.child_pid vm_peak k w ≡ done (peak, w₁)
    → StopAccounted peak m k w w₁
unfolding on_execute_event account_peak set_kill_reason set_memory_peak
on_execute_event_lem peak m k w w₁ valid e =
    let top = max m.memory_peak_kb peak in
    let over = exceeds_limit m top in
    let measured = set_memory_peak top w₁.output in
    (
      if over then ExecuteAction.kill else ExecuteAction.continue,
      record m { memory_peak_kb = top },
      record w₁ {
        output =
            if over
            then set_kill_reason KillReason.mle (codes "memory limit exceeded") measured
            else measured;
      },
      ground (arith, e, valid),
      (ground arith, ground arith),
      refl,
      ground arith,
      ground arith,
      refl,
    )

-- A growing mremap, with sizes of 64 bits and the old mapping removed, counts exactly the growth,
-- in whole kilobytes; the subtraction does not wrap.
pub on_mremap-grows :
    (old_size new_size flags : ℕ) (m : MemoryLimit)
    → m.vm_peak_valid ≡ true
    → bit_and flags mremap_dontunmap ≢ mremap_dontunmap
    → old_size < new_size
    → new_size < 2 ^ 64
    → on_mremap old_size new_size flags m
      ≡ handle_memory_allocation ((new_size - old_size) / 1024) m
unfolding on_mremap
on_mremap-grows old_size new_size flags m valid unmaps grows fits =
    let exact : u64 (new_size + 2 ^ 64 - old_size) ≡ new_size - old_size = omega arith in
    rw (valid, ≢→== _ _ unmaps, lt→leb _ _ grows, exact)
