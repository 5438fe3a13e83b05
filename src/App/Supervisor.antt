-- ===== src/App/Supervisor.antt =====
-- s2japp/Application.cc, handleRun: the listeners of the supervisor over one state, and the policy that
-- they make. The listener of the log writes the log, for which it asks whether a tracee is alive, and
-- lets all go on: it does nothing here. What other code gives the listeners is the environment, a
-- parameter.
pub mod Listeners
pub mod Run
pub mod Kept
pub mod Policy
pub mod Faithful
pub mod Verdict
mod Examples
use sio2jail.Common.{
  ℕ, zero, suc, Bool, true, false, if◌then◌else◌, Text, List, [], ◌∷◌, ◌++◌, Option, none, some, ℤ,
  minus_one,
}
use sio2jail.Executor.{Flags}
use sio2jail.System.{Syscall, M, ◌>>=◌, pure, Outcome, done, threw}
use sio2jail.Tracer.Action.{TraceAction}
use sio2jail.Tracer.ProcessTree.{make_root}
use sio2jail.Tracer.Tracee.{Tracee, Arch}
use sio2jail.Tracer.TraceExecutor.{TraceExecutor}
use sio2jail.ProcFs.{lift}
use sio2jail.Limits.Memory
use sio2jail.Limits.Memory.{MemoryLimit}
use sio2jail.Limits.Memory.Rules.{memory_rules}
use sio2jail.Limits.Output
use sio2jail.Limits.Output.{OutputLimit}
use sio2jail.Limits.Threads
use sio2jail.Limits.Threads.{ThreadsLimit}
use sio2jail.Limits.Threads.Rules.{thread_rules}
use sio2jail.Limits.Time.{TimeLimits}
use sio2jail.Perf.Counter
use sio2jail.Perf.Counter.{PerfListener}
use sio2jail.Perf.Devices.{Device}
use sio2jail.Files.Closing
use sio2jail.Files.Closing.{FilesListener}
use sio2jail.Seccomp.Action.{SeccompAction, allow, kill, trace, errno}
use sio2jail.Seccomp.Context.{SeccompRule}
use sio2jail.Seccomp.Policy.{
  PolicyState, NamedRule, resolve_rule, default_policy, permissive_policy,
}
use sio2jail.Seccomp.Rules.{add_policy, rule_sets}
use sio2jail.App.Settings.{Settings}
use sio2jail.App.Settings
use sio2jail.App.Wiring.{
  Component, memory_limit, threads_limit, extra_policies, seccomp_policy, perf_sampling_factor,
}

-- What is not in the program's hands: the signals since the last round, memory that was not set, the
-- counters' devices and values, what a read fills, the open descriptors, libseccomp's numbers and
-- names, the kernel's version and constants, the digits of a float; and fuel for the loops that ask
-- the kernel.
pub record Environment : Type 0 where
  pub signals : List Syscall → Flags
  pub undefined : ℕ → ℕ
  pub devices : List Device
  pub counter : List Syscall → ℕ → ℤ
  pub buffer : List Syscall → Text
  pub fd_names : List Text
  pub is_logger_fd : ℕ → Bool
  pub number : Text → Option ℕ
  pub resolve : Arch → ℕ → Option Text
  pub clock_ticks_per_second : ℕ
  pub cap_last_cap : ℕ
  pub since_4_3 : Bool
  pub show_seconds : ℕ → Text
  pub fuel : ℕ

-- The states of the listeners.
pub record Supervisor : Type 0 where
  pub memory : MemoryLimit
  pub output : OutputLimit
  pub time : TimeLimits
  pub threads : ThreadsLimit
  pub tracer : TraceExecutor
  pub counter : PerfListener
  pub secure_bits : ℕ
  pub files : FilesListener
  pub last_syscall_arch : Arch
  pub policy : PolicyState
  pub context : ℕ

-- The listeners as they are made. The tracer has no process before the fork.
unfoldable pub make : Environment → Settings → ℕ → Supervisor
unfolding Memory.make Output.make Threads.make Counter.make Closing.make perf_sampling_factor
    make_root
make env s secure_bits = record {
  memory = Memory.make s.memory_limit_kb;
  output = Output.make s.output_limit_b;
  time = record {
    r_time_limit_us = s.r_time_limit_us;
    u_time_limit_us = s.u_time_limit_us;
    s_time_limit_us = s.s_time_limit_us;
    us_time_limit_us = s.us_time_limit_us;
    clock_ticks_per_second = env.clock_ticks_per_second;
    child_pid = minus_one;
    start_real_time = 0;
    is_timer_created = false;
  };
  threads = Threads.make s.threads_limit;
  tracer = record { root = minus_one; tree = make_root minus_one; has_execved = false };
  counter =
      Counter.make s.instruction_count_limit
        (perf_sampling_factor s.threads_limit s.perf_oversampling_factor);
  secure_bits = secure_bits;
  files = Closing.make s.suppress_stderr;
  last_syscall_arch = Arch.x86;
  policy = record { executed = false };
  context = 0;
}

abbrev pub Action : Type 0
Action = SeccompAction Supervisor

-- The handlers of the memory limit and of the policy work on their part of the state.
unfoldable pub over_memory : SeccompAction MemoryLimit → Action
over_memory allow = allow
over_memory kill = kill
over_memory (errno n) = errno n
over_memory (trace handler) =
    trace λ tracee s. handler tracee s.memory >>= λ r. pure (r.0, r.1, record s { memory = r.2 })

unfoldable pub over_policy : SeccompAction PolicyState → Action
over_policy allow = allow
over_policy kill = kill
over_policy (errno n) = errno n
over_policy (trace handler) =
    trace λ tracee s. handler tracee s.policy >>= λ r. pure (r.0, r.1, record s { policy = r.2 })

-- The numbers of the calls are asked for when the rules are made.
unfoldable pub resolve_over :
    {A : Type 0}
    → (SeccompAction A → Action)
    → (Text → Option ℕ)
    → List (NamedRule A)
    → Outcome (List (SeccompRule Supervisor))
unfolding resolve_rule
resolve_over over number [] = done []
resolve_over over number (r ∷ rs) =
    let rest = resolve_over over number rs in
    elim (resolve_rule number
      (record { name = r.name; action = over r.action; filter = r.filter })) [
        | threw e ↦ threw e
        | done one ↦ elim rest [ threw e ↦ threw e | done more ↦ done (one ∷ more) ]
      ]

-- The base policy with its default action.
unfoldable pub base_rules : Settings → List (NamedRule PolicyState)
unfolding seccomp_policy default_policy permissive_policy
base_rules s = elim (seccomp_policy s).0 [
  | Settings.default_policy ↦ default_policy (seccomp_policy s).1
  | Settings.permissive_policy ↦ permissive_policy
]

unfoldable pub default_action : Settings → Action
unfolding seccomp_policy
default_action s = elim (seccomp_policy s).0 [
  | Settings.default_policy ↦ kill
  | Settings.permissive_policy ↦ allow
]

-- The rules that the base policy and the two limits make, whether or not there is a filter.
module _ (memory threads base : List (SeccompRule Supervisor)) where
  -- The policies of the given listeners, one after the other, and then the base policy.
  unfoldable pub gather_rules : List Component → List (SeccompRule Supervisor)
  gather_rules [] = base
  gather_rules (memory_limit ∷ cs) = memory ++ gather_rules cs
  gather_rules (threads_limit ∷ cs) = threads ++ gather_rules cs
  gather_rules (_ ∷ cs) = gather_rules cs

-- The rules of each call, in the order of the calls' numbers, before they are sorted.
unfoldable pub policy_sets : Environment → Settings → M (List (List (SeccompRule Supervisor)))
unfolding resolve_over over_memory over_policy memory_rules thread_rules base_rules gather_rules
    add_policy rule_sets extra_policies lift
policy_sets env s = do
  base ← lift (resolve_over over_policy env.number (base_rules s))
  memory ← lift (resolve_over over_memory env.number memory_rules)
  threads ← lift (resolve_over over_policy env.number (thread_rules s.threads_limit))
  pure (rule_sets (add_policy (gather_rules memory threads base (extra_policies s)) []))
