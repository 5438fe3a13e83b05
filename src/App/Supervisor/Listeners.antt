-- ===== src/App/Supervisor/Listeners.antt =====
-- s2japp/Application.cc, handleRun: what each listener does in each stage, over the supervisor's state.
-- A stage that a listener does not have is the empty one of its base class, which asks to go on.
use sio2jail.Common.{ℕ, Bool, true, false, List, map, Option, none, some}
use sio2jail.Executor.{Listener}
use sio2jail.Executor.Event.{ExecuteAction, ExecuteEvent}
use sio2jail.System.{M, ◌>>=◌, ◌>>◌, pure, throw, exception}
use sio2jail.Tracer.Action.{TraceAction}
use sio2jail.Tracer.Tracee.{Tracee}
use sio2jail.Tracer.TraceExecutor
use sio2jail.Tracer.TraceExecutor.{TraceListener}
use sio2jail.Limits.Memory
use sio2jail.Limits.Output
use sio2jail.Limits.Threads
use sio2jail.Limits.Time
use sio2jail.Perf.Counter
use sio2jail.Perf.Counter.{PerfListener}
use sio2jail.Files.Closing
use sio2jail.Namespaces.User
use sio2jail.Namespaces.Pid
use sio2jail.Privileges
use sio2jail.Seccomp.TimeRandomizer
use sio2jail.Seccomp.Context.{SeccompRule, rules_by_id}
use sio2jail.Seccomp.Context.Builder
use sio2jail.Seccomp.Listener
use sio2jail.Seccomp.Listener.{Seccomp}
use sio2jail.App.Settings.{Settings, TimeMode, time_zero}
use sio2jail.App.Wiring.{
  Component, memory_limit, output_limit, time_limit, threads_limit, trace_executor, perf_counter,
  user_ns, pid_ns, priv, time_randomizer, files, seccomp_filter, executor_listeners,
  trace_listeners,
}
use sio2jail.App.Supervisor.{Environment, Supervisor, default_action}

unfoldable pub returns_zero : TimeMode → Bool
returns_zero time_zero = true
returns_zero _ = false

-- Where the behaviour of the opening of the counters is undefined, the model stops.
unfoldable pub counting : Supervisor → Option PerfListener → M Supervisor
counting s none = throw exception
counting s (some counter) = pure (record s { counter = counter })

-- The sets of rules are those that the filter is made of.
module _ (env : Environment) (settings : Settings)
    (sets : List (List (SeccompRule Supervisor))) where
  unfoldable pub pre_fork : Component → Supervisor → M Supervisor
  unfolding Counter.on_pre_fork User.on_pre_fork Pid.on_pre_fork Closing.on_pre_fork
      Builder.on_pre_fork
  pre_fork perf_counter s = Counter.on_pre_fork >> pure s
  pre_fork user_ns s = User.on_pre_fork User.make >> pure s
  pre_fork pid_ns s = Pid.on_pre_fork >> pure s
  pre_fork files s = Closing.on_pre_fork env.is_logger_fd env.fd_names s.files >>= λ l.
      pure (record s { files = l })
  pre_fork seccomp_filter s =
      Builder.on_pre_fork env.buffer env.fuel sets >>= λ c. pure (record s { context = c })
  pre_fork _ s = pure s

  unfoldable pub post_fork_parent : Component → ℕ → Supervisor → M Supervisor
  unfolding Memory.on_post_fork_parent Output.on_post_fork_parent Time.on_post_fork_parent
      TraceExecutor.on_post_fork_parent Counter.on_post_fork_parent Privileges.on_post_fork_parent
      counting
  post_fork_parent memory_limit child s =
      pure (record s { memory = Memory.on_post_fork_parent child s.memory })
  post_fork_parent output_limit child s =
      pure (record s { output = Output.on_post_fork_parent child s.output })
  post_fork_parent time_limit child s =
      Time.on_post_fork_parent child s.time >>= λ l. pure (record s { time = l })
  post_fork_parent trace_executor child s =
      TraceExecutor.on_post_fork_parent child >>= λ x. pure (record s { tracer = x })
  post_fork_parent perf_counter child s =
      Counter.on_post_fork_parent env.devices child s.counter >>= counting s
  post_fork_parent priv child s =
      Privileges.on_post_fork_parent env.cap_last_cap env.since_4_3 s.secure_bits >>= λ bits.
      pure (record s { secure_bits = bits })
  post_fork_parent _ child s = pure s

  unfoldable pub post_exec : Component → Supervisor → TraceAction × Supervisor
  unfolding Memory.on_post_exec
  post_exec memory_limit s =
      let r = Memory.on_post_exec s.memory in (r.0, record s { memory = r.1 })
  post_exec _ s = (TraceAction.continue, s)

  unfoldable pub post_clone :
      Component → ℕ → Supervisor → M ((TraceAction × TraceAction) × Supervisor)
  unfolding Threads.on_post_clone
  post_clone threads_limit child s =
      Threads.on_post_clone child s.threads >>= λ r. pure (r.0, record s { threads = r.1 })
  post_clone _ child s = pure ((TraceAction.continue, TraceAction.continue), s)

  unfoldable pub trace_event :
      Component → ExecuteEvent → Tracee → Supervisor → M (TraceAction × Tracee × Supervisor)
  unfolding TimeRandomizer.on_trace_event Listener.on_trace_event rules_by_id default_action
      returns_zero
  trace_event time_randomizer event tracee s =
      TimeRandomizer.on_trace_event (returns_zero settings.time_mode) event tracee >>= λ r.
      pure (r.0, r.1, s)
  trace_event seccomp_filter event tracee s =
      Listener.on_trace_event (rules_by_id 0 sets) (default_action settings) env.resolve event
        tracee (record { last_syscall_arch = s.last_syscall_arch; handlers = s })
      >>= λ r. pure (r.0, r.1, record r.2.handlers { last_syscall_arch = r.2.last_syscall_arch })
  trace_event _ event tracee s = pure (TraceAction.continue, tracee, s)

  unfoldable pub trace_listener : Component → TraceListener Supervisor
  unfolding post_exec post_clone trace_event
  trace_listener c = record {
    on_post_exec = λ event tracee s. pure (post_exec c s);
    on_post_clone = λ event tracee child s. post_clone c child s;
    on_trace_event = trace_event c;
  }

  unfoldable pub traced : List (TraceListener Supervisor)
  unfolding trace_listener trace_listeners
  traced = map trace_listener (trace_listeners settings)

  unfoldable pub execute_event :
      Component → ExecuteEvent → Supervisor → M (ExecuteAction × Supervisor)
  unfolding Memory.on_execute_event Output.on_execute_event Threads.on_execute_event
      TraceExecutor.on_execute_event traced
  execute_event memory_limit event s =
      Memory.on_execute_event s.memory >>= λ r. pure (r.0, record s { memory = r.1 })
  execute_event output_limit event s = Output.on_execute_event event s.output >>= λ a. pure (a, s)
  execute_event threads_limit event s =
      let r = Threads.on_execute_event event s.threads in pure (r.0, record s { threads = r.1 })
  execute_event trace_executor event s =
      TraceExecutor.on_execute_event traced env.undefined event s.tracer s >>= λ r.
      pure (r.0, record r.2 { tracer = r.1 })
  execute_event _ event s = pure (ExecuteAction.continue, s)

  unfoldable pub sigio_signal : Component → Supervisor → M (ExecuteAction × Supervisor)
  unfolding Counter.on_sigio_signal
  sigio_signal perf_counter s = Counter.on_sigio_signal env.counter s.counter >>= λ a. pure (a, s)
  sigio_signal _ s = pure (ExecuteAction.continue, s)

  unfoldable pub sigalrm_signal : Component → Supervisor → M (ExecuteAction × Supervisor)
  unfolding Time.on_sigalrm_signal
  sigalrm_signal time_limit s = Time.on_sigalrm_signal s.time >>= λ a. pure (a, s)
  sigalrm_signal _ s = pure (ExecuteAction.continue, s)

  -- The action of the time limit is not looked at any more.
  unfoldable pub post_execute : Component → Supervisor → M Supervisor
  unfolding Time.on_post_execute Counter.on_post_execute
  post_execute time_limit s = Time.on_post_execute s.time >>= λ a. pure s
  post_execute perf_counter s = Counter.on_post_execute env.counter s.counter >> pure s
  post_execute _ s = pure s

  unfoldable pub listener : Component → Listener Supervisor
  unfolding pre_fork post_fork_parent execute_event sigio_signal sigalrm_signal post_execute
  listener c = record {
    on_pre_fork = pre_fork c;
    on_post_fork_parent = post_fork_parent c;
    on_execute_event = execute_event c;
    on_sigio_signal = sigio_signal c;
    on_sigalrm_signal = sigalrm_signal c;
    on_post_execute = post_execute c;
  }

  unfoldable pub listeners : List (Listener Supervisor)
  unfolding listener executor_listeners
  listeners = map listener (executor_listeners settings)
