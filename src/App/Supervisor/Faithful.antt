-- ===== src/App/Supervisor/Faithful.antt =====
-- Each listener of the supervisor keeps what the two limits promise, or gives a kill reason.
pub mod Forks
pub mod Traces
use sio2jail.Common.{ℕ, ◌≡◌, Bool, List, [], ◌∷◌, map, Option, none, some, ℤ, All, ◌⊎◌, inl, inr}
use sio2jail.Executor.{Listener}
use sio2jail.Executor.Event.{ExecuteAction, ExecuteEvent}
use sio2jail.Executor.Judged.{Faithful}
use sio2jail.System.{M, ◌>>=◌, ◌>>◌, pure, throw, exception}
use sio2jail.System.Kept.{
  Keeps, bind-Keeps, pure-Keeps, throw-Keeps, Judged, Judges, Keeps-Judges, bind-Judges,
  pure-Judges, put, throw-Judges, passed, aside, stored,
}
use sio2jail.Tracer.Action.{TraceAction}
use sio2jail.Tracer.Tracee.{Tracee}
use sio2jail.Tracer.TraceExecutor
use sio2jail.Tracer.TraceExecutor.{TraceListener}
use sio2jail.Tracer.TraceExecutor.Judged.Handler.{on_execute_event-Judges}
use sio2jail.Tracer.TraceExecutor.Judged.Stages.{FaithfulTrace}
use sio2jail.Limits.Memory
use sio2jail.Limits.Memory.Judged as MemoryJudged
use sio2jail.Limits.Output
use sio2jail.Limits.Threads
use sio2jail.Limits.Threads.Judged as ThreadsJudged
use sio2jail.Limits.Time
use sio2jail.Limits.Time.Kept as TimeKept
use sio2jail.Perf.Counter
use sio2jail.Perf.Counter.{PerfListener}
use sio2jail.Perf.Counter.Kept as CounterKept
use sio2jail.Files.Closing
use sio2jail.Namespaces.User
use sio2jail.Namespaces.Pid
use sio2jail.Privileges
use sio2jail.Seccomp.TimeRandomizer
use sio2jail.Seccomp.Context.{SeccompRule, rules_by_id}
use sio2jail.Seccomp.Context.Builder
use sio2jail.Seccomp.Context.Builder.Kept as BuilderKept
use sio2jail.Seccomp.Listener
use sio2jail.Seccomp.Listener.{Seccomp}
use sio2jail.Seccomp.Listener.Judged.{FaithfulSets}
use sio2jail.Seccomp.Listener.Judged.Message
use sio2jail.App.Settings.{Settings}
use sio2jail.App.Wiring.{
  Component, memory_limit, output_limit, time_limit, threads_limit, trace_executor, perf_counter,
  user_ns, pid_ns, priv, time_randomizer, files, seccomp_filter, executor_listeners,
  trace_listeners,
}
use sio2jail.App.Supervisor.{Environment, Supervisor, default_action}
use sio2jail.App.Supervisor.Kept.{
  files_pre_fork-Keeps, pid_pre_fork-Keeps, user_pre_fork-Keeps, privileges-Keeps,
  tracer_forked-Keeps, output_event-Keeps, time_randomizer-Keeps,
}
use sio2jail.App.Supervisor.Listeners.{
  returns_zero, counting, pre_fork, post_fork_parent, post_exec, post_clone, trace_event,
  trace_listener, traced, execute_event, sigio_signal, sigalrm_signal, post_execute, listener,
  listeners,
}
use sio2jail.App.Supervisor.Policy.{Held}
use sio2jail.App.Supervisor.Policy.Sets.{default_action-Faithful}
use sio2jail.App.Supervisor.Faithful.Forks.{pre_fork-Judges, post_fork_parent-Judges}
use sio2jail.App.Supervisor.Faithful.Traces.{all_traced}

module _ (limit : ℕ) (threads : ℤ) (env : Environment) (settings : Settings)
    (sets : List (List (SeccompRule Supervisor)))
    (faithful : FaithfulSets (Held limit threads) sets) where
  event-Judges :
      (c : Component) (event : ExecuteEvent) (s : Supervisor)
      → Judges (Held limit threads) s (execute_event env settings sets c event s) (λ r. r.1)
  unfolding execute_event traced
  event-Judges memory_limit event s =
      bind-Judges (Held limit threads) s (Memory.on_execute_event s.memory)
        (λ r. pure (r.0, record s { memory = r.1 })) (λ r. record s { memory = r.1 }) (λ r. r.1)
        (record {
          judges =
              (MemoryJudged.on_execute_event-Judges limit (ThreadsJudged.Within threads s.threads)
                s.memory).judges;
        })
        (λ r. pure-Judges (Held limit threads) (r.0, record s { memory = r.1 }) (λ q. q.1))
  event-Judges output_limit event s =
      stored (Held limit threads) s (Output.on_execute_event event s.output) (λ a. (a, s))
        (λ r. r.1) (output_event-Keeps event s.output) (λ a h. h)
  event-Judges threads_limit event s =
      let r = Threads.on_execute_event event s.threads in
      put (Held limit threads) s (r.0, record s { threads = r.1 }) (λ q. q.1)
        (λ h. (h.0, ThreadsJudged.on_execute_event-Within threads event s.threads h.1))
  event-Judges trace_executor event s =
      bind-Judges (Held limit threads) s
        (TraceExecutor.on_execute_event
          (map (trace_listener env settings sets) (trace_listeners settings)) env.undefined event
          s.tracer s)
        (λ r. pure (r.0, record r.2 { tracer = r.1 })) (λ r. r.2) (λ r. r.1)
        (on_execute_event-Judges (Held limit threads)
          (map (trace_listener env settings sets) (trace_listeners settings)) env.undefined
          (all_traced limit threads env settings sets faithful (trace_listeners settings)) event
          s.tracer s)
        (λ r. put (Held limit threads) r.2 (r.0, record r.2 { tracer = r.1 }) (λ q. q.1) (λ h. h))
  event-Judges _ event s =
      put (Held limit threads) s (ExecuteAction.continue, s) (λ r. r.1) (λ h. h)

  sigio-Judges :
      (c : Component) (s : Supervisor)
      → Judges (Held limit threads) s (sigio_signal env settings sets c s) (λ r. r.1)
  unfolding sigio_signal
  sigio-Judges perf_counter s =
      stored (Held limit threads) s (Counter.on_sigio_signal env.counter s.counter) (λ a. (a, s))
        (λ r. r.1) (CounterKept.on_sigio_signal-Keeps env.counter s.counter) (λ a h. h)
  sigio-Judges _ s = put (Held limit threads) s (ExecuteAction.continue, s) (λ r. r.1) (λ h. h)

  sigalrm-Judges :
      (c : Component) (s : Supervisor)
      → Judges (Held limit threads) s (sigalrm_signal env settings sets c s) (λ r. r.1)
  unfolding sigalrm_signal
  sigalrm-Judges time_limit s =
      stored (Held limit threads) s (Time.on_sigalrm_signal s.time) (λ a. (a, s)) (λ r. r.1)
        (TimeKept.on_sigalrm_signal-Keeps s.time) (λ a h. h)
  sigalrm-Judges _ s = put (Held limit threads) s (ExecuteAction.continue, s) (λ r. r.1) (λ h. h)

  ended-Judges :
      (c : Component) (s : Supervisor)
      → Judges (Held limit threads) s (post_execute env settings sets c s) (λ s'. s')
  unfolding post_execute
  ended-Judges time_limit s =
      passed (Held limit threads) s (Time.on_post_execute s.time) s (λ s'. s')
        (TimeKept.on_post_execute-Keeps s.time) (λ h. h)
  ended-Judges perf_counter s =
      passed (Held limit threads) s (Counter.on_post_execute env.counter s.counter) s (λ s'. s')
        (CounterKept.on_post_execute-Keeps env.counter s.counter) (λ h. h)
  ended-Judges _ s = pure-Judges (Held limit threads) s (λ s'. s')

  listener-Faithful : (c : Component) → Faithful (Held limit threads) (listener env settings sets c)
  unfolding listener
  listener-Faithful c = record {
    pre_fork = pre_fork-Judges limit threads env settings sets c;
    forked = post_fork_parent-Judges limit threads env settings sets c;
    event = event-Judges c;
    sigio = sigio-Judges c;
    sigalrm = sigalrm-Judges c;
    ended = ended-Judges c;
  }

  all_listeners :
      (cs : List Component)
      → All (Faithful (Held limit threads)) (map (listener env settings sets) cs)
  all_listeners [] = tt
  all_listeners (c ∷ cs) = (listener-Faithful c, all_listeners cs)

  pub listeners-Faithful : All (Faithful (Held limit threads)) (listeners env settings sets)
  unfolding listeners
  listeners-Faithful = all_listeners (executor_listeners settings)
