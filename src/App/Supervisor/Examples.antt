-- ===== src/App/Supervisor/Examples.antt =====
-- A run of a program with a memory limit, traced: it calls execve, and ends.
use sio2jail.Common.{
  ℕ, suc, ◌≡◌, ◌⊎◌, ◌≤◌, refl, true, false, ◌==◌, if◌then◌else◌, codes, List, [], ◌∷◌, Option, some,
  pos, length, is_digit, read_digits, show,
}
use sio2jail.Executor
use sio2jail.Limits
use sio2jail.Printer
use sio2jail.ProcFs
use sio2jail.Stream
use sio2jail.Tracer
use sio2jail.Printer.{KillReason}
use sio2jail.Printer.Dump.{human}
use sio2jail.System.{Kernel, World, Outcome, done, Syscall, waitid_any, cld_trapped, cld_exited}
use sio2jail.System.Sample.{sample_kernel, sample_world}
use sio2jail.Tracer.TraceExecutor.{exec_stop}
use sio2jail.App.Features.{feature_number}
use sio2jail.App.Settings.{Settings, permissive_policy, run, time_off}
use sio2jail.App.Supervisor
use sio2jail.App.Supervisor.{Environment, Supervisor}
use sio2jail.App.Supervisor.Run.{handle_run}
use sio2jail.App.Supervisor.Verdict.{handle_run_verdict}

-- The first wait shows the stop after the call of execve, and the later ones the end of the child.
abbrev waits : List Syscall → ℕ
waits [] = 0
waits (waitid_any ∷ h) = suc (waits h)
waits (_ ∷ h) = waits h

abbrev run_kernel : Kernel
run_kernel = record sample_kernel {
  wait_info = λ h.
      if waits h == 1
      then record { si_pid = 7; si_code = cld_trapped; si_status = exec_stop }
      else record { si_pid = 7; si_code = cld_exited; si_status = 0 };
}

abbrev run_settings : Settings
run_settings = record {
  action = run;
  parsing_error = [];
  help_message = [];
  version_message = [];
  output_limit_b = 0;
  instruction_count_limit = 0;
  r_time_limit_us = 0;
  u_time_limit_us = 0;
  s_time_limit_us = 0;
  us_time_limit_us = 0;
  results_fd = pos 1;
  perf_oversampling_factor = 1;
  program_name = codes "/home/a.out";
  program_argv = [];
  program_working_dir = [];
  logger_path = [];
  output_format = human;
  features = λ f. feature_number f == 0;
  bind_mounts = [];
  bind_executable = false;
  suppress_stderr = false;
  time_mode = time_off;
  memory_limit_kb = 8192;
  threads_limit = pos 2;
  policy = permissive_policy;
}

abbrev run_environment : Environment
run_environment = record {
  signals = λ h. record { sigio = false; sigalrm = false };
  undefined = λ n. 0;
  devices = [];
  counter = λ h fd. pos 0;
  buffer = λ h. [];
  fd_names = codes "0" ∷ codes "5" ∷ [];
  is_logger_fd = λ fd. false;
  number = λ name. some 1;
  resolve = λ arch number. some (codes "call");
  clock_ticks_per_second = 100;
  cap_last_cap = 1;
  since_4_3 = true;
  show_seconds = λ ms. codes "0";
  fuel = 12;
}

abbrev ended_state : Outcome (Option Supervisor × World) → Supervisor
ended_state (done (some s, w)) = s
ended_state _ = Supervisor.make run_environment run_settings 0

abbrev ended_world : Outcome (Option Supervisor × World) → World
ended_world (done (some s, w)) = w
ended_world _ = sample_world

abbrev whole_run : Outcome (Option Supervisor × World)
whole_run = handle_run run_environment run_settings run_kernel sample_world

-- The result is written, and no kill reason is given.
run_ends :
    (whole_run ≡ done (some (ended_state whole_run), ended_world whole_run))
    × ((ended_world whole_run).output.kill_reason ≡ KillReason.none)
unfolding handle_run Executor.notify_pre_fork Executor.execute_parent Executor.setup_signal_handling
    Executor.notify_forked Limits.Time.start_timer Limits.Time.first_timer_tick Executor.loop
    Executor.round Executor.check_signals Executor.obey Executor.wait Executor.on_wait
    Executor.notify Tracer.ProcessTree.get_process Executor.event_of Executor.wait_call
    Tracer.TraceExecutor.on_known Tracer.Tracee.make Tracer.Tracee.is_alive Tracer.Tracee.get_regs
    Tracer.TraceExecutor.when_exec Tracer.TraceExecutor.on_event_exec Tracer.TraceExecutor.post_exec
    Tracer.TraceExecutor.when_clone Tracer.TraceExecutor.on_stop Tracer.TraceExecutor.trace_event
    Tracer.Signals.handle_tracee_signal Tracer.TraceExecutor.continue_tracee Tracer.Action.max
    Executor.finish_event Executor.Event.max Tracer.TraceExecutor.execute_action ProcFs.read_proc_fs
    ProcFs.read_file ProcFs.read_lines ProcFs.label ProcFs.read_line ProcFs.read_value is_digit
    read_digits Limits.Memory.account_peak Tracer.TraceExecutor.forget Tracer.ProcessTree.get_parent
    Executor.report_end Executor.after_loop Executor.notify_ended
    Limits.Time.Stat.get_process_time_usage Limits.Time.Stat.stat_ticks
    Limits.Time.Stat.ignore_fields Stream.ignore_until Limits.Time.Stat.read_ticks
    Printer.Dump.dump_status Printer.set_sys_time_microseconds Printer.set_user_time_microseconds
    Printer.set_real_time_microseconds Printer.set_exit_status Printer.set_memory_peak Printer.make
    show
run_ends = (refl, refl)

handle_run_verdict_example :
    ((run_settings.memory_limit_kb ≡ 0)
      ⊎ ((ended_state whole_run).memory.memory_peak_kb ≤ run_settings.memory_limit_kb))
    × (length (ended_state whole_run).threads.threads_pids ≤ 2)
handle_run_verdict_example =
    handle_run_verdict run_environment run_settings (ended_state whole_run) run_kernel sample_world
      (ended_world whole_run) run_ends.0 run_ends.1
