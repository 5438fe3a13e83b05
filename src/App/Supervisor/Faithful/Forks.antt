-- ===== src/App/Supervisor/Faithful/Forks.antt =====
-- What the listeners do around the fork keeps what the two limits promise, or gives a kill reason.
use sio2jail.Common.{ℕ, List, Option, none, some, ℤ}
use sio2jail.System.{exception}
use sio2jail.System.Kept.{
  Judges, bind-Judges, pure-Judges, put, throw-Judges, passed, aside, stored,
}
use sio2jail.Tracer.TraceExecutor
use sio2jail.Tracer.TraceExecutor.{TraceListener}
use sio2jail.Limits.Memory
use sio2jail.Limits.Output
use sio2jail.Limits.Time
use sio2jail.Limits.Time.Kept as TimeKept
use sio2jail.Perf.Counter
use sio2jail.Perf.Counter.{PerfListener}
use sio2jail.Perf.Counter.Kept as CounterKept
use sio2jail.Files.Closing
use sio2jail.Namespaces.User
use sio2jail.Namespaces.Pid
use sio2jail.Privileges
use sio2jail.Seccomp.Context.{SeccompRule}
use sio2jail.Seccomp.Context.Builder
use sio2jail.Seccomp.Context.Builder.Kept as BuilderKept
use sio2jail.App.Settings.{Settings}
use sio2jail.App.Wiring.{
  Component, memory_limit, output_limit, time_limit, trace_executor, perf_counter, user_ns, pid_ns,
  priv, files, seccomp_filter,
}
use sio2jail.App.Supervisor.{Environment, Supervisor}
use sio2jail.App.Supervisor.Kept.{
  files_pre_fork-Keeps, pid_pre_fork-Keeps, user_pre_fork-Keeps, privileges-Keeps,
  tracer_forked-Keeps,
}
use sio2jail.App.Supervisor.Listeners.{counting, pre_fork, post_fork_parent}
use sio2jail.App.Supervisor.Policy.{Held}

module _ (limit : ℕ) (threads : ℤ) (env : Environment) (settings : Settings)
    (sets : List (List (SeccompRule Supervisor))) where
  pub pre_fork-Judges :
      (c : Component) (s : Supervisor)
      → Judges (Held limit threads) s (pre_fork env settings sets c s) (λ s'. s')
  unfolding pre_fork
  pre_fork-Judges perf_counter s =
      passed (Held limit threads) s Counter.on_pre_fork s (λ s'. s') CounterKept.on_pre_fork-Keeps
        (λ h. h)
  pre_fork-Judges user_ns s =
      passed (Held limit threads) s (User.on_pre_fork User.make) s (λ s'. s')
        (user_pre_fork-Keeps User.make) (λ h. h)
  pre_fork-Judges pid_ns s =
      passed (Held limit threads) s Pid.on_pre_fork s (λ s'. s') pid_pre_fork-Keeps (λ h. h)
  pre_fork-Judges files s =
      stored (Held limit threads) s (Closing.on_pre_fork env.is_logger_fd env.fd_names s.files)
        (λ l. record s { files = l }) (λ s'. s')
        (files_pre_fork-Keeps env.is_logger_fd env.fd_names s.files) (λ l h. h)
  pre_fork-Judges seccomp_filter s =
      stored (Held limit threads) s (Builder.on_pre_fork env.buffer env.fuel sets)
        (λ c. record s { context = c }) (λ s'. s')
        (BuilderKept.on_pre_fork-Keeps env.buffer env.fuel sets) (λ c h. h)
  pre_fork-Judges _ s = pure-Judges (Held limit threads) s (λ s'. s')

  counting-Judges :
      (s : Supervisor) (o : Option PerfListener)
      → Judges (Held limit threads) s (counting s o) (λ s'. s')
  unfolding counting
  counting-Judges s none = throw-Judges (Held limit threads) s exception (λ s'. s')
  counting-Judges s (some l) =
      put (Held limit threads) s (record s { counter = l }) (λ s'. s') (λ h. h)

  pub post_fork_parent-Judges :
      (c : Component) (child : ℕ) (s : Supervisor)
      → Judges (Held limit threads) s (post_fork_parent env settings sets c child s) (λ s'. s')
  unfolding post_fork_parent Memory.on_post_fork_parent
  post_fork_parent-Judges memory_limit child s =
      put (Held limit threads) s (record s { memory = Memory.on_post_fork_parent child s.memory })
        (λ s'. s') (λ h. h)
  post_fork_parent-Judges output_limit child s =
      put (Held limit threads) s (record s { output = Output.on_post_fork_parent child s.output })
        (λ s'. s') (λ h. h)
  post_fork_parent-Judges time_limit child s =
      stored (Held limit threads) s (Time.on_post_fork_parent child s.time)
        (λ l. record s { time = l }) (λ s'. s') (TimeKept.on_post_fork_parent-Keeps child s.time)
        (λ l h. h)
  post_fork_parent-Judges trace_executor child s =
      stored (Held limit threads) s (TraceExecutor.on_post_fork_parent child)
        (λ x. record s { tracer = x }) (λ s'. s') (tracer_forked-Keeps child) (λ x h. h)
  post_fork_parent-Judges perf_counter child s =
      bind-Judges (Held limit threads) s (Counter.on_post_fork_parent env.devices child s.counter)
        (counting s) (λ o. s) (λ s'. s')
        (aside (Held limit threads) s _
          (CounterKept.on_post_fork_parent-Keeps env.devices child s.counter))
        (counting-Judges s)
  post_fork_parent-Judges priv child s =
      stored (Held limit threads) s
        (Privileges.on_post_fork_parent env.cap_last_cap env.since_4_3 s.secure_bits)
        (λ bits. record s { secure_bits = bits }) (λ s'. s')
        (privileges-Keeps env.cap_last_cap env.since_4_3 s.secure_bits) (λ bits h. h)
  post_fork_parent-Judges _ child s = pure-Judges (Held limit threads) s (λ s'. s')
