-- ===== src/App/Supervisor/Faithful/Traces.antt =====
-- The listeners of the tracer keep what the two limits promise, or give a kill reason.
use sio2jail.Common.{ℕ, List, [], ◌∷◌, map, ℤ, All}
use sio2jail.Executor.Event.{ExecuteEvent}
use sio2jail.System.{pure}
use sio2jail.System.Kept.{Judges, bind-Judges, pure-Judges, put, stored}
use sio2jail.Tracer.Action.{TraceAction}
use sio2jail.Tracer.Tracee.{Tracee}
use sio2jail.Tracer.TraceExecutor.Judged.Stages.{FaithfulTrace}
use sio2jail.Limits.Memory
use sio2jail.Limits.Memory.Judged as MemoryJudged
use sio2jail.Limits.Threads
use sio2jail.Limits.Threads.Judged as ThreadsJudged
use sio2jail.Seccomp.TimeRandomizer
use sio2jail.Seccomp.Context.{SeccompRule, rules_by_id}
use sio2jail.Seccomp.Listener
use sio2jail.Seccomp.Listener.{Seccomp}
use sio2jail.Seccomp.Listener.Judged.{FaithfulSets}
use sio2jail.Seccomp.Listener.Judged.Message
use sio2jail.App.Settings.{Settings}
use sio2jail.App.Wiring.{Component, memory_limit, threads_limit, time_randomizer, seccomp_filter}
use sio2jail.App.Supervisor.{Environment, Supervisor, default_action}
use sio2jail.App.Supervisor.Kept.{time_randomizer-Keeps}
use sio2jail.App.Supervisor.Listeners.{
  returns_zero, post_exec, post_clone, trace_event, trace_listener,
}
use sio2jail.App.Supervisor.Policy.{Held}
use sio2jail.App.Supervisor.Policy.Sets.{default_action-Faithful}

module _ (limit : ℕ) (threads : ℤ) (env : Environment) (settings : Settings)
    (sets : List (List (SeccompRule Supervisor)))
    (faithful : FaithfulSets (Held limit threads) sets) where
  exec-Judges :
      (c : Component) (s : Supervisor)
      → Judges {A = TraceAction × Supervisor}
          (Held limit threads)
          s
          (pure (post_exec env settings sets c s))
          (λ r. r.1)
  unfolding post_exec Memory.on_post_exec
  exec-Judges memory_limit s =
      put (Held limit threads) s (post_exec env settings sets memory_limit s) (λ r. r.1) (λ h. h)
  exec-Judges _ s = put (Held limit threads) s (TraceAction.continue, s) (λ r. r.1) (λ h. h)

  clone-Judges :
      (c : Component) (child : ℕ) (s : Supervisor)
      → Judges (Held limit threads) s (post_clone env settings sets c child s) (λ r. r.1)
  unfolding post_clone
  clone-Judges threads_limit child s =
      bind-Judges (Held limit threads) s (Threads.on_post_clone child s.threads)
        (λ r. pure (r.0, record s { threads = r.1 })) (λ r. record s { threads = r.1 }) (λ r. r.1)
        (record {
          judges =
              (ThreadsJudged.on_post_clone-Judges (MemoryJudged.Within limit s.memory) threads child
                s.threads).judges;
        })
        (λ r. pure-Judges (Held limit threads) (r.0, record s { threads = r.1 }) (λ q. q.1))
  clone-Judges _ child s =
      put (Held limit threads) s ((TraceAction.continue, TraceAction.continue), s) (λ r. r.1)
        (λ h. h)

  trace-Judges :
      (c : Component) (event : ExecuteEvent) (tracee : Tracee) (s : Supervisor)
      → Judges (Held limit threads) s (trace_event env settings sets c event tracee s) (λ r. r.2)
  unfolding trace_event
  trace-Judges time_randomizer event tracee s =
      stored (Held limit threads) s
        (TimeRandomizer.on_trace_event (returns_zero settings.time_mode) event tracee)
        (λ r. (r.0, r.1, s)) (λ r. r.2)
        (time_randomizer-Keeps (returns_zero settings.time_mode) event tracee) (λ r h. h)
  trace-Judges seccomp_filter event tracee s =
      let q : Seccomp Supervisor = record {
        last_syscall_arch = s.last_syscall_arch;
        handlers = s;
      } in
      bind-Judges (Held limit threads) s
        (Listener.on_trace_event (rules_by_id 0 sets) (default_action settings) env.resolve event
          tracee q)
        (λ r. pure (r.0, r.1, record r.2.handlers { last_syscall_arch = r.2.last_syscall_arch }))
        (λ r. r.2.handlers) (λ r. r.2)
        (record {
          judges =
              (Message.on_trace_event-Judges (Held limit threads) sets (default_action settings)
                env.resolve faithful (default_action-Faithful limit threads settings) event tracee
                q).judges;
        })
        (λ r.
          put (Held limit threads) r.2.handlers
            (r.0, r.1, record r.2.handlers { last_syscall_arch = r.2.last_syscall_arch }) (λ o. o.2)
            (λ h. h))
  trace-Judges _ event tracee s =
      put (Held limit threads) s (TraceAction.continue, tracee, s) (λ r. r.2) (λ h. h)

  trace_listener-Faithful :
      (c : Component) → FaithfulTrace (Held limit threads) (trace_listener env settings sets c)
  unfolding trace_listener
  trace_listener-Faithful c = record {
    exec = λ event tracee s. exec-Judges c s;
    clone = λ event tracee child s. clone-Judges c child s;
    trace = trace-Judges c;
  }

  pub all_traced :
      (cs : List Component)
      → All (FaithfulTrace (Held limit threads)) (map (trace_listener env settings sets) cs)
  all_traced [] = tt
  all_traced (c ∷ cs) = (trace_listener-Faithful c, all_traced cs)
