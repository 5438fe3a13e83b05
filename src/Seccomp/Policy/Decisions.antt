-- ===== src/Seccomp/Policy/Decisions.antt =====
-- What the default policy decides for the calls that start programs, send signals and open files.
use sio2jail.Common.{
  ℕ, ◌≡◌, ◌%◌, ◌^◌, refl, Bool, true, false, if◌then◌else◌, List, [], ◌∷◌, Option, none, some, Text,
  codes, text_eq, ◌==◌, ◌||◌, arith,
}
use sio2jail.ProcFs.{lift}
use sio2jail.Seccomp.Action.{allow, trace, type_of}
use sio2jail.Seccomp.Context.{SeccompRule}
use sio2jail.Seccomp.Filter.{no_filter, all_of, matches, masked_eq, single, on_argument}
use sio2jail.Seccomp.Listener.{choose, stronger}
use sio2jail.Seccomp.Policy.{
  PolicyState, NamedRule, Handler, execve_once, check_signal, is_signal_valid, default_policy,
  rules_of, rules_for, rule, allow_syscalls, seek_rules, execution_control_rules,
  memory_management_rules, system_information_rules, file_system_access_rules, input_output_rules,
  resolve_rule,
}
use sio2jail.System.{Kernel, World, M, ◌>>=◌, pure, done, threw}
use sio2jail.Tracer.Action.{TraceAction}
use sio2jail.Tracer.Tracee.{Tracee, get_syscall_argument}

-- Two calls, one after the other.
unfoldable pub twice : Handler → Tracee → PolicyState → M (TraceAction × TraceAction)
twice h tracee s = do (a, tracee', s') ← h tracee s; (b, tracee'', s'') ← h tracee' s'; pure (a, b)

-- Whether or not time is randomised, execve has one rule, without a filter, and of two calls of it
-- in a row its handler never lets both go on: the second asks for a kill.
pub execve_rule_lem :
    (randomize_time : Bool) (tracee : Tracee) (s : PolicyState) (k : Kernel) (w : World)
    → (rules_of (codes "execve") (default_policy randomize_time)
        ≡ (record { name = codes "execve"; action = trace execve_once; filter = no_filter } ∷ []))
      × (twice execve_once tracee s k w
          ≡ done (
            (if s.executed then TraceAction.kill else TraceAction.continue, TraceAction.kill),
            w,
          ))
unfolding rules_of default_policy rules_for rule allow_syscalls seek_rules execution_control_rules
    memory_management_rules system_information_rules file_system_access_rules input_output_rules
    text_eq execve_once twice
execve_rule_lem true tracee s k w = (refl, ground arith)
execve_rule_lem false tracee s k w = (refl, ground arith)

-- If the argument can be read, the handler of kill, tkill and tgkill asks for a kill where its low
-- 32 bits are 9, 19 or 26 (SIGKILL, SIGSTOP, SIGVTALRM), lets the program go on otherwise, and
-- changes nothing.
pub check_signal_lem :
    (index argument : ℕ) (tracee : Tracee) (s : PolicyState) (k : Kernel) (w : World)
    → get_syscall_argument tracee index ≡ done argument
    → check_signal index tracee s k w
      ≡ done (
        (
          (if argument % 2 ^ 32 == 9 || (argument % 2 ^ 32 == 19 || argument % 2 ^ 32 == 26)
              then TraceAction.kill
              else TraceAction.continue),
          tracee,
          s,
        ),
        w,
      )
unfolding check_signal is_signal_valid lift
check_signal_lem index argument tracee s k w e = rw (e, lift, ◌>>=◌) (ground arith)

unfoldable pub resolve_all :
    {S : Type 0} → (Text → Option ℕ) → List (NamedRule S) → List (SeccompRule S)
resolve_all number [] = []
resolve_all number (r ∷ rs) =
    let rest = resolve_all number rs in
    elim (resolve_rule number r) [ done s ↦ s ∷ rest | threw e ↦ rest ]

-- If the arguments of a call of open can be read, the default policy allows it whatever its flags
-- are, those for writing too.
pub open_allowed :
    (randomize_time : Bool) (number : Text → Option ℕ) (n flags : ℕ) (tracee : Tracee)
    → number (codes "open") ≡ some n
    → get_syscall_argument tracee 1 ≡ done flags
    → choose
        (resolve_all number (rules_of (codes "open") (default_policy randomize_time)))
        tracee
        none
      ≡ done (some allow)
unfolding rules_of default_policy rules_for rule allow_syscalls seek_rules execution_control_rules
    memory_management_rules system_information_rules file_system_access_rules input_output_rules
    text_eq resolve_all resolve_rule choose stronger matches all_of masked_eq single on_argument
    type_of
open_allowed true number n flags tracee e f = ground arith
open_allowed false number n flags tracee e f = ground arith
