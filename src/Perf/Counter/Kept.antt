-- ===== src/Perf/Counter/Kept.antt =====
-- The counters' listener takes back no kill reason.
use sio2jail.Common.{ℕ, ◌+◌, u64, zero, suc, List, [], ◌∷◌, none, some, ℤ, pos, negsuc}
use sio2jail.System.{M, ◌>>=◌, Reply, Syscall, done, threw, with_errno_check, read_counter}
use sio2jail.System.Kept.{Keeps, keeping, bind-Keeps, pure-Keeps, throw-Keeps, ask-Keeps}
use sio2jail.System.Kept.Reports.{reporting}
use sio2jail.Perf.Config.{EventConfig, Partial}
use sio2jail.Perf.Devices.{Device, event_configs}
use sio2jail.Perf.Counter.{
  PerfListener, on_pre_fork, watch, open_event, open_events, start_counting, on_post_fork_parent,
  accept_count, read_count, sum_counts, get_instructions_used, on_post_execute, on_sigio_signal,
}

pub on_pre_fork-Keeps : Keeps on_pre_fork
unfolding on_pre_fork
on_pre_fork-Keeps = search keeping

watch-Keeps : (limit fd : ℕ) → Keeps (watch limit fd)
unfolding watch
watch-Keeps zero fd = search keeping
watch-Keeps (suc limit) fd = search keeping depth 10

open_event-Keeps : (child : ℕ) (l : PerfListener) (c : EventConfig) → Keeps (open_event child l c)
unfolding open_event
open_event-Keeps child l c = search (keeping, watch-Keeps) depth 10

open_events-Keeps :
    (child : ℕ) (l : PerfListener) (cs : List EventConfig) → Keeps (open_events child l cs)
unfolding open_events
open_events-Keeps child l [] = pure-Keeps []
open_events-Keeps child l (c ∷ cs) =
    bind-Keeps _ _ (open_event-Keeps child l c)
      (λ fd. bind-Keeps _ _ (open_events-Keeps child l cs) (λ fds. pure-Keeps (fd ∷ fds)))

start_counting-Keeps :
    (child : ℕ) (l : PerfListener) (configs : Partial (List EventConfig))
    → Keeps (start_counting child l configs)
unfolding start_counting
start_counting-Keeps child l (threw e) = throw-Keeps e
start_counting-Keeps child l (done none) = pure-Keeps none
start_counting-Keeps child l (done (some configs)) = search (keeping, open_events-Keeps) depth 10

pub on_post_fork_parent-Keeps :
    (devices : List Device) (child : ℕ) (l : PerfListener)
    → Keeps (on_post_fork_parent devices child l)
unfolding on_post_fork_parent
on_post_fork_parent-Keeps devices child l = start_counting-Keeps child l (event_configs devices)

module _ (counter : List Syscall → ℕ → ℤ) where
  accept_count-Keeps : (r : Reply) (n : ℤ) → Keeps (accept_count counter r n)
  unfolding accept_count
  accept_count-Keeps r (pos n) = search keeping
  accept_count-Keeps r (negsuc n) = throw-Keeps _

  checked : ℕ → ℤ → M ℕ
  checked fd value = with_errno_check [] (read_counter fd) >>= λ r. accept_count counter r value

  read_count-Keeps : (fd : ℕ) → Keeps (read_count counter fd)
  unfolding read_count checked
  read_count-Keeps fd =
      bind-Keeps _ (checked fd) (ask-Keeps (λ k h. counter h fd))
        (λ value. search (keeping, accept_count-Keeps))

  sum_counts-Keeps : (fds : List ℕ) (sum : ℕ) → Keeps (sum_counts counter sum fds)
  unfolding sum_counts
  sum_counts-Keeps [] sum = pure-Keeps sum
  sum_counts-Keeps (fd ∷ fds) sum =
      bind-Keeps _ _ (read_count-Keeps fd) (λ n. sum_counts-Keeps fds (u64 (sum + n)))

  get_instructions_used-Keeps : (l : PerfListener) → Keeps (get_instructions_used counter l)
  unfolding get_instructions_used
  get_instructions_used-Keeps l = sum_counts-Keeps l.perf_fds 0

  pub on_post_execute-Keeps : (l : PerfListener) → Keeps (on_post_execute counter l)
  unfolding on_post_execute
  on_post_execute-Keeps l = search (keeping, reporting, get_instructions_used-Keeps)

  pub on_sigio_signal-Keeps : (l : PerfListener) → Keeps (on_sigio_signal counter l)
  unfolding on_sigio_signal
  on_sigio_signal-Keeps l = search (keeping, reporting, get_instructions_used-Keeps) depth 10
