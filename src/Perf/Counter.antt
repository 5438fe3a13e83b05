-- ===== src/Perf/Counter.antt =====
-- perf/PerfListener.cc: the listener. What a counter holds when it is read is a parameter, of the
-- calls made before and of the descriptor.
pub mod Limit
pub mod Kept
use Prim.Native.Nat.{bit_or}
use sio2jail.Common.{
  ℕ, zero, suc, ◌+◌, ◌/◌, ◌^◌, Bool, true, false, not, ◌&&◌, leb, ◌==◌, if◌then◌else◌, Text, codes,
  u64, List, [], ◌∷◌, ◌++◌, ℤ, pos, negsuc, Option, none, some,
}
use sio2jail.Executor.Event.{ExecuteAction}
use sio2jail.Printer.{KillReason, set_kill_reason, set_cycles_used}
use sio2jail.System.{
  M, ◌>>=◌, ◌>>◌, pure, throw, Outcome, done, threw, exception, report, Syscall, getpid, fcntl,
  close, perf_event_open, read_counter, map_barrier, unmap_barrier, barrier_wait, invoke,
  with_errno_check, with_errno_check_, Reply,
}
use sio2jail.Perf.Config.{EventConfig, Partial}
use sio2jail.Perf.Devices.{Device, event_configs}

pub record PerfListener : Type 0 where
  pub instruction_count_limit : ℕ
  pub sampling_factor : ℕ
  pub perf_fds : List ℕ
  pub child_pid : ℕ

unfoldable pub make : ℕ → ℕ → PerfListener
make limit sampling_factor = record {
  instruction_count_limit = limit;
  sampling_factor = if leb 1 sampling_factor then sampling_factor else 1;
  perf_fds = [];
  child_pid = 0;
}

-- The barrier that parent and child share.
unfoldable pub on_pre_fork : M (Unit {0})
unfolding with_errno_check_
on_pre_fork = with_errno_check_ [] map_barrier

unfoldable pub on_post_fork_child : M (Unit {0})
unfolding with_errno_check_
on_post_fork_child = do r ← invoke barrier_wait; with_errno_check_ [] unmap_barrier

abbrev pub fd_cloexec : ℕ
fd_cloexec = 1

abbrev pub f_setfd : ℕ
f_setfd = 2

abbrev pub f_getfl : ℕ
f_getfl = 3

abbrev pub f_setfl : ℕ
f_setfl = 4

abbrev pub f_setown : ℕ
f_setown = 8

abbrev pub o_async : ℕ
o_async = 0x2000

unfoldable pub sample_period : PerfListener → ℕ
sample_period l =
    if l.instruction_count_limit == 0 then 0 else l.instruction_count_limit / l.sampling_factor

unfoldable pub wakeup_events : PerfListener → ℕ
wakeup_events l = if l.instruction_count_limit == 0 then 0 else 1

-- The signal SIGIO of a counter goes to this process.
unfoldable pub watch : ℕ → ℕ → M (Unit {0})
unfolding with_errno_check_ with_errno_check
watch zero fd = pure tt
watch (suc limit) fd = do
  me ← invoke getpid
  with_errno_check_ [] (fcntl fd f_setown me.value)
  flags ← with_errno_check [] (fcntl fd f_getfl 0)
  with_errno_check_ [] (fcntl fd f_setfl (bit_or flags.value o_async))

-- The first fcntl has its arguments without a descriptor: the command takes that place, and what is
-- left in the third is not given.
unfoldable pub open_event : ℕ → PerfListener → EventConfig → M ℕ
unfolding watch sample_period wakeup_events with_errno_check with_errno_check_
open_event child_pid l c = do
  r ← with_errno_check [] (
      perf_event_open c.type c.config0 c.config1 c.config2 (sample_period l) (wakeup_events l)
        child_pid)
  with_errno_check_ [] (fcntl f_setfd fd_cloexec 0)
  watch l.instruction_count_limit r.value
  pure r.value

unfoldable pub open_events : ℕ → PerfListener → List EventConfig → M (List ℕ)
unfolding open_event
open_events child_pid l [] = pure []
open_events child_pid l (c ∷ cs) = do
  fd ← open_event child_pid l c
  fds ← open_events child_pid l cs
  pure (fd ∷ fds)

-- `none` where the behaviour is undefined.
unfoldable pub start_counting :
    ℕ → PerfListener → Partial (List EventConfig) → M (Option PerfListener)
unfolding open_events
start_counting child_pid l (threw e) = throw e
start_counting child_pid l (done none) = pure none
start_counting child_pid l (done (some configs)) = do
  fds ← open_events child_pid l configs
  r ← invoke barrier_wait
  with_errno_check_ [] unmap_barrier
  pure (some (record l { child_pid = child_pid; perf_fds = l.perf_fds ++ fds }))

unfoldable pub on_post_fork_parent : List Device → ℕ → PerfListener → M (Option PerfListener)
unfolding start_counting event_configs
on_post_fork_parent devices child_pid l = start_counting child_pid l (event_configs devices)

module _ (counter : List Syscall → ℕ → ℤ) where
  -- A whole count that is not negative.
  unfoldable pub accept_count : Reply → ℤ → M ℕ
  accept_count r (pos n) = if r.value == 8 then pure n else throw exception
  accept_count r (negsuc n) = throw exception

  unfoldable pub read_count : ℕ → M ℕ
  unfolding with_errno_check accept_count
  read_count fd = do
    value ← (λ k w. pure (counter w.history fd) k w)
    r ← with_errno_check [] (read_counter fd)
    accept_count r value

  unfoldable pub sum_counts : ℕ → List ℕ → M ℕ
  unfolding read_count
  sum_counts sum [] = pure sum
  sum_counts sum (fd ∷ fds) = do n ← read_count fd; sum_counts (u64 (sum + n)) fds

  unfoldable pub get_instructions_used : PerfListener → M ℕ
  unfolding sum_counts
  get_instructions_used l = sum_counts 0 l.perf_fds

  unfoldable pub on_post_execute : PerfListener → M (Unit {0})
  unfolding get_instructions_used
  on_post_execute l = do used ← get_instructions_used l; report (set_cycles_used used)

  unfoldable pub on_sigio_signal : PerfListener → M ExecuteAction
  unfolding get_instructions_used
  on_sigio_signal l = do
    used ← get_instructions_used l
    if not (l.instruction_count_limit == 0) && leb l.instruction_count_limit used
        then (do
          report (set_kill_reason KillReason.tle (codes "time limit exceeded"))
          pure ExecuteAction.kill)
        else pure ExecuteAction.continue
