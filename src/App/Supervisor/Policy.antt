-- ===== src/App/Supervisor/Policy.antt =====
-- The rules of the policies keep what the two limits promise, or give a kill reason.
pub mod Sets
use sio2jail.Common.{
  ℕ, ◌-◌, ◌%◌, ◌^◌, ◌≡◌, ap, subst, Bool, Text, List, [], ◌∷◌, Option, none, some, ℤ, pos, negsuc,
  All, All-append, arith,
}
use sio2jail.ProcFs.{lift}
use sio2jail.Limits.Memory.{MemoryLimit}
use sio2jail.Limits.Memory.Judged as MemoryJudged
use sio2jail.Limits.Memory.Rules.{mmap_handler, mremap_handler, memory_rules}
use sio2jail.Limits.Threads.Judged as ThreadsJudged
use sio2jail.Limits.Threads.Rules.{clone_rules, thread_rules}
use sio2jail.Seccomp.Action.{SeccompAction, allow, kill, errno, trace, execute}
use sio2jail.Seccomp.Context.{SeccompRule}
use sio2jail.Seccomp.Listener.Judged.{FaithfulAction, FaithfulRule, FaithfulSets, policy-Faithful}
use sio2jail.Seccomp.Policy.{
  PolicyState, NamedRule, default_policy, permissive_policy, resolve_rule,
}
use sio2jail.System.{Kernel, World, M, ◌>>=◌, pure, Outcome, done, threw, exception}
use sio2jail.System.Checks.{>>=-eq-done}
use sio2jail.Seccomp.Rules.{add_policy, rule_sets}
use sio2jail.System.Kept.{Judges, bind-Judges, pure-Judges, stored}
use sio2jail.Tracer.Action.{TraceAction}
use sio2jail.Tracer.Tracee.{Tracee, cancel_syscall}
use sio2jail.Seccomp.Policy.Harmless.{
  cancel_syscall-Keeps, Harmless, HarmlessRule, harmless, default_policy-Harmless, allow-Harmless,
  kill-Harmless,
}
use sio2jail.App.Settings
use sio2jail.App.Settings.{Settings, PolicyName}
use sio2jail.App.Wiring.{Component, memory_limit, threads_limit, extra_policies, seccomp_policy}
use sio2jail.App.Supervisor.{
  Environment, Supervisor, Action, policy_sets, over_memory, over_policy, resolve_over, base_rules,
  default_action, gather_rules,
}

clone_rules-Harmless : (limit : ℤ) → All HarmlessRule (clone_rules limit)
unfolding clone_rules
clone_rules-Harmless (pos n) = search harmless depth 8
clone_rules-Harmless (negsuc n) = search harmless

pub thread_rules-Harmless : (limit : ℤ) → All HarmlessRule (thread_rules limit)
unfolding thread_rules
thread_rules-Harmless limit = search (harmless, clone_rules-Harmless)

module _ (limit : ℕ) (threads : ℤ) where
  -- What the two limits promise of the supervisor.
  abbrev pub Held : Supervisor → Type 0
  Held s = MemoryJudged.Within limit s.memory × ThreadsJudged.Within threads s.threads

  pub over_policy-Faithful :
      (a : SeccompAction PolicyState) → Harmless a → FaithfulAction Held (over_policy a)
  unfolding over_policy execute
  over_policy-Faithful allow h = record {
    executed = λ tracee s. pure-Judges Held (TraceAction.continue, tracee, s) (λ r. r.2);
  }
  over_policy-Faithful kill h = record {
    executed = λ tracee s. pure-Judges Held (TraceAction.kill, tracee, s) (λ r. r.2);
  }
  over_policy-Faithful (errno n) h = record {
    executed = λ tracee s.
        stored Held s (cancel_syscall ((2 ^ 64 - n) % 2 ^ 64) tracee)
          (λ t. (TraceAction.continue, t, s)) (λ r. r.2) (cancel_syscall-Keeps _ tracee) (λ t g. g);
  }
  over_policy-Faithful (trace handler) h = record {
    executed = λ tracee s.
        stored Held s (handler tracee s.policy) (λ r. (r.0, r.1, record s { policy = r.2 }))
          (λ r. r.2) (h.keeps tracee s.policy) (λ r g. g);
  }

  abbrev MemoryHandler : Type 0
  MemoryHandler = Tracee → MemoryLimit → M (TraceAction × Tracee × MemoryLimit)

  over_memory-Faithful :
      (handler : MemoryHandler)
      → ((R : Type 0) (tracee : Tracee) (m : MemoryLimit)
          → Judges (MemoryJudged.Beside limit R) m (handler tracee m) (λ r. r.2))
      → FaithfulAction Held (over_memory (trace handler))
  unfolding over_memory execute
  over_memory-Faithful handler h = record {
    executed = λ tracee s.
        bind-Judges Held s (handler tracee s.memory)
          (λ r. pure (r.0, r.1, record s { memory = r.2 })) (λ r. record s { memory = r.2 })
          (λ r. r.2)
          (record { judges = (h (ThreadsJudged.Within threads s.threads) tracee s.memory).judges })
          (λ r. pure-Judges Held (r.0, r.1, record s { memory = r.2 }) (λ q. q.2));
  }

  -- Rules by name, with the actions that they get.
  abbrev pub FaithfulNamed : {A : Type 0} → (SeccompAction A → Action) → NamedRule A → Type 0
  FaithfulNamed over r = FaithfulAction Held (over r.action)

  pub memory_rules-Faithful : All (FaithfulNamed over_memory) memory_rules
  unfolding memory_rules
  memory_rules-Faithful =
      let mmap =
        over_memory-Faithful mmap_handler
          (λ R tracee m. (MemoryJudged.handlers-Judges limit R tracee m).0) in
      let mremap =
        over_memory-Faithful mremap_handler
          (λ R tracee m. (MemoryJudged.handlers-Judges limit R tracee m).1) in
      (mmap, (mmap, (mremap, tt)))

  pub policy_rules-Faithful :
      (rs : List (NamedRule PolicyState)) → All HarmlessRule rs → All (FaithfulNamed over_policy) rs
  policy_rules-Faithful [] h = tt
  policy_rules-Faithful (r ∷ rs) h =
      (over_policy-Faithful r.action h.0, policy_rules-Faithful rs h.1)
