-- ===== src/Seccomp/Policy/Harmless.antt =====
-- The actions of the default policy take back no kill reason.
use sio2jail.Common.{ℕ, Bool, true, false, Text, List, [], ◌∷◌, ◌++◌, All}
use sio2jail.ProcFs.Kept.{lift-Keeps}
use sio2jail.Seccomp.Action.{SeccompAction, allow, kill, errno, trace, execute}
use sio2jail.Seccomp.Filter.{LibSeccompFilter}
use sio2jail.Seccomp.Policy.{
  PolicyState, NamedRule, rule, rules_for, allow_syscalls, always_continue, execve_once,
  check_signal, execution_control_rules, memory_management_rules, system_information_rules,
  seek_rules, input_output_rules, file_system_access_rules, default_policy,
}
use sio2jail.System.Kept.{Keeps, keeping, pure-Keeps}
use sio2jail.Tracer.Tracee.{Tracee, cancel_syscall}

pub cancel_syscall-Keeps : (n : ℕ) (t : Tracee) → Keeps (cancel_syscall n t)
unfolding cancel_syscall
cancel_syscall-Keeps n t = search keeping

-- An action of the policies takes back no kill reason.
pub record Harmless (a : SeccompAction PolicyState) : Type 0 where
  pub keeps : (tracee : Tracee) (s : PolicyState) → Keeps (execute a tracee s)

abbrev pub HarmlessRule : NamedRule PolicyState → Type 0
HarmlessRule r = Harmless r.action

pub allow-Harmless : Harmless allow
unfolding execute
allow-Harmless = record { keeps = λ tracee s. pure-Keeps _ }

pub kill-Harmless : Harmless kill
unfolding execute
kill-Harmless = record { keeps = λ tracee s. pure-Keeps _ }

pub errno-Harmless : (n : ℕ) → Harmless (errno n)
unfolding execute
errno-Harmless n = record { keeps = λ tracee s. search (keeping, cancel_syscall-Keeps) }

handlers-Harmless :
    Harmless (trace always_continue)
    × Harmless (trace execve_once)
    × ((index : ℕ) → Harmless (trace (check_signal index)))
unfolding execute always_continue execve_once check_signal
handlers-Harmless = (
  record { keeps = λ tracee s. search keeping },
  record { keeps = λ tracee s. search keeping },
  λ index. record { keeps = λ tracee s. search (keeping, lift-Keeps) },
)

pub rules_for-Harmless :
    (names : List Text) (a : SeccompAction PolicyState) (f : LibSeccompFilter)
    → Harmless a
    → All HarmlessRule (rules_for names a f)
unfolding rules_for
rules_for-Harmless [] a f h = tt
rules_for-Harmless (n ∷ ns) a f h = (h, rules_for-Harmless ns a f h)

pub seek_rules-Harmless : (names : List Text) → All HarmlessRule (seek_rules names)
unfolding seek_rules
seek_rules-Harmless [] = tt
seek_rules-Harmless (n ∷ ns) = (errno-Harmless _, (allow-Harmless, seek_rules-Harmless ns))

pub appended :
    (xs ys : List (NamedRule PolicyState))
    → All HarmlessRule xs
    → All HarmlessRule ys
    → All HarmlessRule (xs ++ ys)
appended [] ys h g = g
appended (x ∷ xs) ys h g = (h.0, appended xs ys h.1 g)

pub consed :
    (r : NamedRule PolicyState) (rs : List (NamedRule PolicyState))
    → HarmlessRule r
    → All HarmlessRule rs
    → All HarmlessRule (r ∷ rs)
consed r rs h g = (h, g)

-- A rule without a filter.
pub ruled : (name : Text) (a : SeccompAction PolicyState) → Harmless a → HarmlessRule (rule name a)
unfolding rule
ruled name a h = h

pub allow_syscalls-Harmless : (names : List Text) → All HarmlessRule (allow_syscalls names)
unfolding allow_syscalls
allow_syscalls-Harmless names = rules_for-Harmless names allow _ allow-Harmless

pub always-Harmless : Harmless (trace always_continue)
always-Harmless = handlers-Harmless.0

pub once-Harmless : Harmless (trace execve_once)
once-Harmless = handlers-Harmless.1

pub signal-Harmless : (index : ℕ) → Harmless (trace (check_signal index))
signal-Harmless index = handlers-Harmless.2 index

pub none-Harmless : All HarmlessRule []
none-Harmless = tt

pub ruleset harmless = (
  appended, consed, ruled, none-Harmless, allow_syscalls-Harmless, rules_for-Harmless,
  seek_rules-Harmless, allow-Harmless, kill-Harmless, errno-Harmless, always-Harmless,
  once-Harmless, signal-Harmless,
)

execution_control-Harmless : All HarmlessRule (execution_control_rules false)
unfolding execution_control_rules
execution_control-Harmless = search harmless depth 16

memory_management-Harmless : All HarmlessRule memory_management_rules
unfolding memory_management_rules
memory_management-Harmless = search harmless

system_information-Harmless : (b : Bool) → All HarmlessRule (system_information_rules b)
unfolding system_information_rules
system_information-Harmless true = search harmless
system_information-Harmless false = search harmless

file_system-Harmless : All HarmlessRule (file_system_access_rules true)
unfolding file_system_access_rules
file_system-Harmless = search harmless depth 10

input_output-Harmless : All HarmlessRule input_output_rules
unfolding input_output_rules
input_output-Harmless = search harmless depth 12

pub default_policy-Harmless : (b : Bool) → All HarmlessRule (default_policy b)
unfolding default_policy
default_policy-Harmless b = search (
  appended, execution_control-Harmless, memory_management-Harmless, system_information-Harmless,
  file_system-Harmless, input_output-Harmless,
)
