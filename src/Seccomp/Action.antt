-- ===== src/Seccomp/Action.antt =====
-- seccomp/action: the four kinds of action. A handler works on a state that the listeners share.
pub use sio2jail.Seccomp.Library.{LibAction, act_allow, act_trace, act_errno}
use sio2jail.Common.{ℕ, ◌-◌, ◌%◌, ◌^◌}
use sio2jail.System.{M, ◌>>=◌, pure}
use sio2jail.Tracer.Action.{TraceAction}
use sio2jail.Tracer.Tracee.{Tracee, cancel_syscall}

pub data SeccompAction (S : Type 0) : Type 0 where
  allow kill : SeccompAction S
  trace : (Tracee → S → M (TraceAction × Tracee × S)) → SeccompAction S
  errno : (number : ℕ) → SeccompAction S

-- `getType`, as its number.
unfoldable pub type_of : {S : Type 0} → SeccompAction S → ℕ
type_of allow = 0
type_of (trace handler) = 1
type_of (errno number) = 2
type_of kill = 3

-- The negated number is of 64 bits.
unfoldable pub execute : {S : Type 0} → SeccompAction S → Tracee → S → M (TraceAction × Tracee × S)
execute allow tracee s = pure (TraceAction.continue, tracee, s)
execute (trace handler) tracee s = handler tracee s
execute (errno number) tracee s = do
  tracee' ← cancel_syscall ((2 ^ 64 - number) % 2 ^ 64) tracee
  pure (TraceAction.continue, tracee', s)
execute kill tracee s = pure (TraceAction.kill, tracee, s)

-- `createLibSeccompAction`.
unfoldable pub lib_action : {S : Type 0} → ℕ → SeccompAction S → LibAction
lib_action rule_id allow = act_allow
lib_action rule_id (trace handler) = act_trace rule_id
lib_action rule_id (errno number) = act_errno number
lib_action rule_id kill = act_trace rule_id
