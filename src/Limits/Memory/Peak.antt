-- ===== src/Limits/Memory/Peak.antt =====
-- The states of the memory listener while the program is let go on.
use sio2jail.Common.{ℕ, u64, ◌+◌, ◌-◌, ◌/◌, ◌^◌, ◌≤◌, ◌≡◌, ◌⊎◌, arith}
use sio2jail.Executor.Event.{ExecuteAction}
use sio2jail.Tracer.Action.{TraceAction}
use sio2jail.System.{Kernel, World, done}
use sio2jail.Limits.Memory.{
  MemoryLimit, make, account_allocation, handle_memory_allocation, on_mmap, on_mremap,
  on_post_fork_parent, on_post_exec, account_peak, on_execute_event,
}
use sio2jail.Limits.Memory.Judged.{Within}

-- One call of the listener that does not ask for a kill.
pub data Step (k : Kernel) (m m' : MemoryLimit) : Type 0 where
  mmap :
      (size : ℕ) (w w' : World)
      → on_mmap size m k w ≡ done ((TraceAction.continue, m'), w')
      → Step k m m'
  mremap :
      (old_size new_size flags : ℕ) (w w' : World)
      → on_mremap old_size new_size flags m k w ≡ done ((TraceAction.continue, m'), w')
      → Step k m m'
  event :
      (w w' : World)
      → on_execute_event m k w ≡ done ((ExecuteAction.continue, m'), w')
      → Step k m m'
  exec : m' ≡ (on_post_exec m).1 → Step k m m'
  fork : (child : ℕ) → m' ≡ on_post_fork_parent child m → Step k m m'

pub data Reach (k : Kernel) (limit : ℕ) : MemoryLimit → Type 0 where
  start : Reach k limit (make limit)
  next : {m m' : MemoryLimit} → Reach k limit m → Step k m m' → Reach k limit m'

account_allocation-Within :
    (limit usage : ℕ) (m m' : MemoryLimit) (k : Kernel) (w w' : World)
    → account_allocation usage m k w ≡ done ((TraceAction.continue, m'), w')
    → Within limit m
    → Within limit m'
unfolding account_allocation
account_allocation-Within limit usage m m' k w w' e h = ground arith

handle-Within :
    (limit allocated : ℕ) (m m' : MemoryLimit) (k : Kernel) (w w' : World)
    → handle_memory_allocation allocated m k w ≡ done ((TraceAction.continue, m'), w')
    → Within limit m
    → Within limit m'
unfolding handle_memory_allocation account_allocation
handle-Within limit allocated m m' k w w' e h = ground arith

Step-Within :
    (k : Kernel) (limit : ℕ) (m m' : MemoryLimit) → Step k m m' → Within limit m → Within limit m'
unfolding on_mmap on_mremap on_execute_event account_peak on_post_exec on_post_fork_parent
Step-Within k limit m m' (mmap size w w' e) h =
    ground (arith, handle-Within limit (size / 1024) m m' k w w')
Step-Within k limit m m' (mremap old_size new_size flags w w' e) h = ground (
  arith,
  handle-Within limit (new_size / 1024) m m' k w w',
  handle-Within limit (u64 (new_size + 2 ^ 64 - old_size) / 1024) m m' k w w',
)
Step-Within k limit m m' (event w w' e) h = ground arith
Step-Within k limit m m' (exec e) h = ground arith
Step-Within k limit m m' (fork child e) h = ground arith

Reach-Within : (k : Kernel) (limit : ℕ) {m : MemoryLimit} → Reach k limit m → Within limit m
unfolding make
Reach-Within k limit start = ground arith
Reach-Within k limit (next {m = m} {m' = m'} r s) =
    Step-Within k limit m m' s (Reach-Within k limit r)

-- While the listener asks for no kill, whatever is allocated, stopped and executed, every size and
-- peak that it has measured is within the limit, if there is one.
pub Reach-peak_within :
    (k : Kernel) (limit : ℕ) (m : MemoryLimit)
    → Reach k limit m
    → (limit ≡ 0) ⊎ (m.memory_peak_kb ≤ limit)
Reach-peak_within k limit m r = (Reach-Within k limit r).1
