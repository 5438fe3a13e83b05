-- ===== src/Seccomp/Listener.antt =====
-- seccomp/SeccompListener.cc: `onTraceEvent`. The name of a call is asked from libseccomp, a
-- parameter; the messages for the log are left out.
pub mod Choice
pub mod Deny
pub mod Judged
use Prim.Native.Nat.{bit_or}
use sio2jail.Common.{
  ℕ, ◌*◌, ◌^◌, Bool, true, false, not, ◌&&◌, ltb, ◌==◌, if◌then◌else◌, List, [], ◌∷◌, ◌++◌, Option,
  none, some, Text, codes, show,
}
use sio2jail.Executor.Event.{ExecuteEvent}
use sio2jail.Printer.{set_kill_reason, KillReason}
use sio2jail.ProcFs.{lift}
use sio2jail.Seccomp.Action.{SeccompAction, type_of, execute}
use sio2jail.Seccomp.Context.{SeccompRule, message_arch, message_group}
use sio2jail.Seccomp.Filter.{matches}
use sio2jail.System.{
  M, ◌>>=◌, ◌>>◌, pure, Outcome, done, threw, exception, assertion_exception, report,
}
use sio2jail.Tracer.Action.{TraceAction}
use sio2jail.Tracer.Tracee
use sio2jail.Tracer.Tracee.{
  Tracee, Arch, get_event_msg, set_syscall_arch, get_syscall_number, get_syscall_argument,
}

-- SIGTRAP | (PTRACE_EVENT_SECCOMP << 8).
abbrev pub seccomp_stop : ℕ
seccomp_stop = bit_or 5 (7 * 2 ^ 8)

-- The architecture of the last call that named one, and the state of the actions' handlers.
pub record Seccomp (S : Type 0) : Type 0 where
  pub last_syscall_arch : Arch
  pub handlers : S

module _ {S : Type 0} where
  unfoldable pub stronger : Option (SeccompAction S) → SeccompAction S → Option (SeccompAction S)
  stronger none b = some b
  stronger (some a) b = if ltb (type_of a) (type_of b) then some b else some a

  -- The loop over the rules of a set.
  unfoldable pub choose :
      List (SeccompRule S) → Tracee → Option (SeccompAction S) → Outcome (Option (SeccompAction S))
  choose [] tracee chosen = done chosen
  choose (r ∷ rs) tracee chosen = elim (matches r.filter tracee) [
    | done true ↦ choose rs tracee (stronger chosen r.action)
    | done false ↦ choose rs tracee chosen
    | threw e ↦ threw e
  ]

  unfoldable pub choose_in :
      Option (List (SeccompRule S))
      → Tracee
      → Option (SeccompAction S)
      → Outcome (Option (SeccompAction S))
  choose_in none tracee chosen = done chosen
  choose_in (some rules) tracee chosen = choose rules tracee chosen

  -- The assertion that some rule handles what a rule has triggered.
  unfoldable pub handled : Option (SeccompAction S) → Outcome (SeccompAction S)
  handled none = threw assertion_exception
  handled (some a) = done a

unfoldable pub resolved : Option Text → Outcome Text
resolved none = threw exception
resolved (some name) = done name

-- The arguments with a comma between each two.
unfoldable pub arguments_text : Tracee → List ℕ → Outcome Text
arguments_text tracee [] = done []
arguments_text tracee (i ∷ []) = elim (get_syscall_argument tracee i) [
  | done x ↦ done (show x)
  | threw e ↦ threw e
]
arguments_text tracee (i ∷ j ∷ js) =
    let rest = arguments_text tracee (j ∷ js) in
    elim (get_syscall_argument tracee i) [
      | done x ↦ elim rest [ done t ↦ done (show x ++ codes ", " ++ t) | threw e ↦ threw e ]
      | threw e ↦ threw e
    ]

-- A call with its number and its arguments.
unfoldable pub call_text : Text → ℕ → Text → Text
call_text name number arguments =
    name ++ codes "(" ++ show number ++ codes ") (" ++ arguments ++ codes ")"

unfoldable pub resolve_syscall_number : (Arch → ℕ → Option Text) → ℕ → Arch → Outcome Text
resolve_syscall_number resolve number Arch.unknown = done []
resolve_syscall_number resolve number Arch.x86 = resolved (resolve Arch.x86 number)
resolve_syscall_number resolve number Arch.x86_64 = resolved (resolve Arch.x86_64 number)

-- A message of 0 comes from the default action.
unfoldable pub first_choice : {S : Type 0} → SeccompAction S → ℕ → Option (SeccompAction S)
first_choice default message = if message == 0 then some default else none

unfoldable pub report_forbidden : TraceAction → Text → M (Unit {0})
report_forbidden TraceAction.continue name = pure tt
report_forbidden TraceAction.kill name =
    report (set_kill_reason KillReason.rv (codes "intercepted forbidden syscall " ++ name))

-- `resolve` of libseccomp, and the policy's default action.
module _ {S : Type 0} (rules_by_id : ℕ → Option (List (SeccompRule S))) (default : SeccompAction S)
    (resolve : Arch → ℕ → Option Text) where
  -- From the message on.
  unfoldable pub on_message : ℕ → Tracee → Seccomp S → M (TraceAction × Tracee × Seccomp S)
  on_message message tracee s = do
    let arch = if message == 0 then s.last_syscall_arch else message_arch message
    let tracee₁ = set_syscall_arch arch tracee
    number ← lift (get_syscall_number tracee₁)
    name ← lift (resolve_syscall_number resolve number arch)
    arguments ← lift (arguments_text tracee₁ (0 ∷ 1 ∷ 2 ∷ 3 ∷ 4 ∷ 5 ∷ []))
    chosen ←
        lift
          (choose_in (rules_by_id (message_group message)) tracee₁ (first_choice default message))
    action ← lift (handled chosen)
    (trace_action, tracee₂, handlers) ← execute action tracee₁ s.handlers
    report_forbidden trace_action (call_text name number arguments)
    pure (trace_action, tracee₂, record { last_syscall_arch = arch; handlers = handlers })

  unfoldable pub on_trace_event :
      ExecuteEvent → Tracee → Seccomp S → M (TraceAction × Tracee × Seccomp S)
  on_trace_event event tracee s = do
    alive ← Tracee.is_alive tracee.pid
    if not alive
        then pure (TraceAction.continue, tracee, s)
        else if not (event.trapped && event.signal == seccomp_stop)
        then pure (TraceAction.continue, tracee, s)
        else (do message ← get_event_msg tracee; on_message message tracee s)
