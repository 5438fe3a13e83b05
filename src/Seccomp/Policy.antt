-- ===== src/Seccomp/Policy.antt =====
-- seccomp/policy/DefaultPolicy.{h,cc} and PermissivePolicy.h: the rules of the default policy, in the
-- order in which its constructor adds them. A rule names its call; libseccomp's number for a name is
-- a parameter.
pub mod Names
pub mod Decisions
pub mod Harmless
use sio2jail.Common.{
  ℕ, ◌%◌, ◌^◌, Bool, true, false, not, ◌&&◌, ◌||◌, ◌==◌, if◌then◌else◌, List, [], ◌∷◌, ◌++◌, Option,
  none, some, Text, codes, text_eq,
}
use sio2jail.ProcFs.{lift}
use sio2jail.Seccomp.Action.{SeccompAction, allow, trace, errno, kill}
use sio2jail.Seccomp.Context.{SeccompRule}
use sio2jail.Seccomp.Filter.{LibSeccompFilter, no_filter, arg_eq, arg_le, arg_ge, arg_gt, masked_eq}
use sio2jail.System.{M, ◌>>=◌, pure, Outcome, done, threw, exception, eperm, einval, enosys}
use sio2jail.Tracer.Action.{TraceAction}
use sio2jail.Tracer.Tracee.{Tracee, get_syscall_argument}
use Names.{
  execution_calls, memory_calls, system_calls, time_calls, read_calls, socket_calls, poll_calls,
  file_calls, statfs_calls, change_calls,
}

-- The state of the handlers: whether execve has been seen.
pub record PolicyState : Type 0 where
  pub executed : Bool

pub record NamedRule (S : Type 0) : Type 0 where
  pub name : Text
  pub action : SeccompAction S
  pub filter : LibSeccompFilter

unfoldable pub rule : {S : Type 0} → Text → SeccompAction S → NamedRule S
rule name action = record { name = name; action = action; filter = no_filter }

unfoldable pub rules_for :
    {S : Type 0} → List Text → SeccompAction S → LibSeccompFilter → List (NamedRule S)
rules_for [] action filter = []
rules_for (n ∷ ns) action filter =
    record { name = n; action = action; filter = filter } ∷ rules_for ns action filter

unfoldable pub allow_syscalls : List Text → List (NamedRule PolicyState)
allow_syscalls names = rules_for names allow no_filter

-- SIGSTOP, SIGKILL and SIGVTALRM; the argument is converted to a C int.
unfoldable pub is_signal_valid : ℕ → Bool
is_signal_valid argument =
    let signal = argument % 2 ^ 32 in
    not (signal == 19) && (not (signal == 9) && (not (signal == 26) && not (signal == 9)))

abbrev pub Handler : Type 0
Handler = Tracee → PolicyState → M (TraceAction × Tracee × PolicyState)

unfoldable pub always_continue : Handler
always_continue tracee s = pure (TraceAction.continue, tracee, s)

unfoldable pub execve_once : Handler
execve_once tracee s =
    if s.executed
    then pure (TraceAction.kill, tracee, s)
    else pure (TraceAction.continue, tracee, record s { executed = true })

unfoldable pub check_signal : ℕ → Handler
check_signal index tracee s = do
  argument ← lift (get_syscall_argument tracee index)
  pure ((if is_signal_valid argument then TraceAction.continue else TraceAction.kill), tracee, s)

abbrev pub enotty : ℕ
enotty = 25

abbrev pub espipe : ℕ
espipe = 29

unfoldable pub execution_control_rules : Bool → List (NamedRule PolicyState)
execution_control_rules allow_fork =
    allow_syscalls execution_calls
    ++ rule (codes "set_thread_area") (trace always_continue)
      ∷ rule (codes "execve") (trace execve_once)
      ∷ rule (codes "kill") (trace (check_signal 1))
      ∷ rule (codes "tkill") (trace (check_signal 1))
      ∷ rule (codes "tgkill") (trace (check_signal 2))
      ∷ rule (codes "exit") (trace always_continue)
      ∷ rule (codes "exit_group") (trace always_continue)
      ∷ rule (codes "rseq") (errno enosys)
      ∷ (if allow_fork then allow_syscalls (codes "fork" ∷ []) else [])
    ++ rule (codes "prlimit64") (errno eperm) ∷ []

unfoldable pub memory_management_rules : List (NamedRule PolicyState)
memory_management_rules = allow_syscalls memory_calls ++ rule (codes "madvise") (errno einval) ∷ []

unfoldable pub system_information_rules : Bool → List (NamedRule PolicyState)
system_information_rules randomize_time =
    allow_syscalls system_calls
    ++ (if randomize_time
        then rules_for time_calls (errno eperm) no_filter
        else allow_syscalls time_calls)
    ++ rules_for (codes "prctl" ∷ []) allow (arg_eq 0 15)

unfoldable pub seek_rules : List Text → List (NamedRule PolicyState)
seek_rules [] = []
seek_rules (n ∷ ns) =
    record { name = n; action = errno espipe; filter = arg_le 0 2 }
    ∷ record { name = n; action = allow; filter = arg_ge 0 3 }
    ∷ seek_rules ns

unfoldable pub input_output_rules : List (NamedRule PolicyState)
input_output_rules =
    rules_for (codes "write" ∷ codes "writev" ∷ []) allow (arg_gt 0 0)
    ++ rules_for (codes "dup2" ∷ []) allow (arg_ge 1 3)
    ++ allow_syscalls read_calls
    ++ allow_syscalls socket_calls
    ++ allow_syscalls poll_calls
    ++ rule (codes "ioctl") (errno enotty) ∷ seek_rules (codes "lseek" ∷ codes "_llseek" ∷ [])

-- O_RDWR | O_WRONLY is 3.
unfoldable pub file_system_access_rules : Bool → List (NamedRule PolicyState)
file_system_access_rules read_only =
    allow_syscalls file_calls
    ++ rules_for (codes "close" ∷ []) allow (arg_ge 0 3)
    ++ rules_for statfs_calls (errno enosys) no_filter
    ++ (if read_only
        then rules_for (codes "open" ∷ []) allow (masked_eq 1 3 0)
          ++ rules_for (codes "openat" ∷ []) allow (masked_eq 2 3 0)
          ++ rules_for change_calls (errno eperm) no_filter
        else allow_syscalls (codes "open" ∷ codes "openat" ∷ change_calls))

-- The constructor.
unfoldable pub default_policy : Bool → List (NamedRule PolicyState)
default_policy randomize_time =
    execution_control_rules false
    ++ memory_management_rules
    ++ system_information_rules randomize_time
    ++ file_system_access_rules true
    ++ input_output_rules

-- The permissive policy, whose default action is to allow.
unfoldable pub permissive_policy : List (NamedRule PolicyState)
permissive_policy = []

-- `resolveSyscallName`: a name that libseccomp does not know is an error.
unfoldable pub resolve_rule :
    {S : Type 0} → (Text → Option ℕ) → NamedRule S → Outcome (SeccompRule S)
resolve_rule number r = elim (number r.name) [
  | none ↦ threw exception
  | some n ↦ done (record { syscall = n; action = r.action; filter = r.filter })
]

-- The rules of one call.
unfoldable pub rules_of : {S : Type 0} → Text → List (NamedRule S) → List (NamedRule S)
rules_of name [] = []
rules_of name (r ∷ rs) =
    let rest = rules_of name rs in if text_eq r.name name then r ∷ rest else rest
