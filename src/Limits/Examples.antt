-- ===== src/Limits/Examples.antt =====
-- Tests of the limits, and their theorems at concrete inputs.
use sio2jail.Common.{
  ◌*◌, ◌/◌, ◌≤◌, ◌≡◌, inl, inr, refl, true, false, List, [], ◌∷◌, codes, arith, length, none, some,
  pos, u64, show, Text, minus_one, is_digit, read_digits,
}
use sio2jail.Executor.Event.{ExecuteAction}
use sio2jail.Printer.{KillReason, set_kill_reason}
use sio2jail.ProcFs.{
  read_proc_fs, read_file, read_lines, lift, read_line, label, starts_with, read_value, skip_blanks,
  drop, stoull_decimal,
}
use sio2jail.Stream.{extract_u64, skip_spaces, extract_digits}
use sio2jail.System.{◌>>=◌, pure, World, done, read_stat, read_status, contains}
use sio2jail.System.Sample.{sample_kernel, sample_world, sample_regs}
use sio2jail.Seccomp.Action.{kill, trace}
use sio2jail.Seccomp.Listener.{choose}
use sio2jail.Seccomp.Policy.{rules_of}
use sio2jail.Seccomp.Policy.Decisions.{resolve_all}
use sio2jail.Tracer.Tracee.{Tracee, Arch, get_syscall_argument, argument_under}
use sio2jail.Limits.Threads.Rules.{thread_rules, thread_rules_clone}
use sio2jail.Tracer.Action.{TraceAction}
use sio2jail.Limits.Memory.{MemoryLimit}
use sio2jail.Limits.Memory.Allocation.{handle_memory_allocation_lem, AllocationAccounted}
use sio2jail.Limits.Memory.Rules.{
  memory_rules, mremap_handler, growth_accounted, memory_rules_mremap,
}
use sio2jail.Limits.Threads
use sio2jail.Limits.Threads.{ThreadsLimit, on_post_clone}
use sio2jail.Limits.Threads.Count.{Trace, cloned, alive, Trace_counts, Trace_bounded}
use sio2jail.Limits.Time.{TimeLimits, TimeUsage, verify_time_usage}
use sio2jail.Limits.Time.Stat.{get_process_time_usage}
use sio2jail.Limits.Time.Stat.Fields.{get_process_time_usage-stat}
use sio2jail.Limits.Time.Verify.{verify_time_usage_exceeded, exceeded_comment}

-- A limit of 1000 kB, for a program that has called execve.
abbrev memory : MemoryLimit
memory = record {
  memory_peak_kb = 0;
  memory_limit_kb = 1000;
  vm_peak_valid = true;
  child_pid = 100;
}

abbrev asked_world : World
asked_world = record sample_world { history = read_status 100 ∷ [] }

handle_memory_allocation_lem_example :
    AllocationAccounted 500 2048 memory sample_kernel sample_world asked_world
unfolding read_proc_fs read_file read_lines lift read_line label starts_with read_value skip_blanks
    drop stoull_decimal extract_u64 skip_spaces extract_digits is_digit read_digits
handle_memory_allocation_lem_example =
    handle_memory_allocation_lem 500 2048 memory sample_kernel sample_world asked_world refl

-- After execve and an mmap of 4 kB, when the size was 2048 kB, under a limit of 100,000 kB.
abbrev executed : MemoryLimit
executed = record {
  memory_peak_kb = 2052;
  memory_limit_kb = 100_000;
  vm_peak_valid = true;
  child_pid = minus_one;
}

-- One thread, within a limit of 2.
abbrev one_thread : ThreadsLimit
one_thread = record { threads_limit = pos 2; threads_pids = 7 ∷ [] }

one_clone : Trace 2 (cloned 7 TraceAction.continue TraceAction.continue ∷ []) one_thread
unfolding on_post_clone Threads.make contains
one_clone =
    Trace.clone 7 TraceAction.continue TraceAction.continue sample_kernel sample_world sample_world
      Trace.start refl

Trace_counts_example :
    contains 7 one_thread.threads_pids
    ≡ alive 7 (cloned 7 TraceAction.continue TraceAction.continue ∷ [])
Trace_counts_example =
    (Trace_counts 2 (cloned 7 TraceAction.continue TraceAction.continue ∷ []) one_thread
        one_clone).1
      7

Trace_bounded_example : length one_thread.threads_pids ≤ 2
Trace_bounded_example =
    Trace_bounded 2 (cloned 7 TraceAction.continue TraceAction.continue ∷ []) one_thread one_clone
      (inl refl, tt)

abbrev limits : TimeLimits
limits = record {
  r_time_limit_us = 5_000_000;
  u_time_limit_us = 0;
  s_time_limit_us = 0;
  us_time_limit_us = 2_000_000;
  clock_ticks_per_second = 100;
  child_pid = 100;
  start_real_time = 0;
  is_timer_created = false;
}

abbrev slow : TimeUsage
slow = record {
  real_time_us = 1_000_000;
  process_time_us = record { u_time_us = 2_000_000; s_time_us = 1 };
}

abbrev fast : TimeUsage
fast = record {
  real_time_us = 1_000_000;
  process_time_us = record { u_time_us = 1_000_000; s_time_us = 1 };
}

verify_time_usage_exceeded_example :
    verify_time_usage limits slow sample_kernel sample_world
    ≡ done (
      ExecuteAction.kill,
      record sample_world {
        output = set_kill_reason KillReason.tle (exceeded_comment limits slow) sample_world.output;
      },
    )
verify_time_usage_exceeded_example =
    verify_time_usage_exceeded limits slow sample_kernel sample_world
      (inr (inr (inr (omega arith, omega arith))))

abbrev thirteen : List Text
thirteen =
    codes "1"
    ∷ codes "(a)"
    ∷ codes "R"
    ∷ codes "0"
    ∷ codes "0"
    ∷ codes "0"
    ∷ codes "0"
    ∷ codes "0"
    ∷ codes "0"
    ∷ codes "0"
    ∷ codes "0"
    ∷ codes "0"
    ∷ codes "0"
    ∷ []

get_process_time_usage-stat_example :
    get_process_time_usage 100 100 sample_kernel sample_world
    ≡ done (
      record { u_time_us = u64 (150 * 1000000) / 100; s_time_us = u64 (25 * 1000000) / 100 },
      record sample_world { history = read_stat 100 ∷ [] },
    )
unfolding is_digit show
get_process_time_usage-stat_example =
    get_process_time_usage-stat thirteen 150 25 32 (codes "0") 100 100 sample_kernel sample_world
      refl (ground arith) (omega arith) (omega arith) refl refl

-- A stopped process whose third argument is 3.
abbrev cloning : Tracee
cloning = record {
  pid = 100;
  regs = sample_regs;
  signal_suppressed = false;
  syscall_arch = Arch.x86_64;
}

thread_rules_clone_example :
    choose
      (resolve_all (λ name. some 56) (rules_of (codes "clone") (thread_rules (pos 2))))
      cloning
      none
    ≡ done (some kill)
unfolding get_syscall_argument argument_under
thread_rules_clone_example = thread_rules_clone (pos 2) (λ name. some 56) 56 3 cloning refl refl

-- A stopped process that lets a mapping of 4 kB grow to 8 MiB.
abbrev growing : Tracee
growing = record {
  pid = 100;
  regs = record sample_regs { rsi = 4096; rdx = 8_388_608; r10 = 0 };
  signal_suppressed = false;
  syscall_arch = Arch.x86_64;
}

memory_rules_mremap_example :
    (choose (resolve_all (λ name. some 25) (rules_of (codes "mremap") memory_rules)) growing none
      ≡ done (some (trace mremap_handler)))
    × (mremap_handler growing memory sample_kernel sample_world
        ≡ (growth_accounted 4096 8_388_608 memory >>= (λ r. pure (r.0, growing, r.1))) sample_kernel
            sample_world)
unfolding get_syscall_argument argument_under
memory_rules_mremap_example =
    memory_rules_mremap (λ name. some 25) 25 4096 8_388_608 0 growing memory sample_kernel
      sample_world refl refl refl refl (omega arith) (λ e. ground (arith, e)) refl
