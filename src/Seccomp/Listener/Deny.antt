-- ===== src/Seccomp/Listener/Deny.antt =====
-- A forbidden call is killed and reported.
use sio2jail.Common.{
  ℕ, ◌≡◌, ◌==◌, ◌⊎◌, if◌then◌else◌, List, [], ◌∷◌, ◌++◌, Option, some, Text, codes, In, true,
}
use sio2jail.Printer.{KillReason, set_kill_reason}
use sio2jail.ProcFs.{lift}
use sio2jail.Seccomp.Action.{SeccompAction, execute}
use sio2jail.Seccomp.Context.{SeccompRule, message_arch, message_group}
use sio2jail.Seccomp.Filter.{matches}
use sio2jail.Seccomp.Listener.{
  Seccomp, handled, arguments_text, call_text, resolve_syscall_number, report_forbidden,
}
use sio2jail.System.{World, M, ◌>>=◌, ◌>>◌, pure, Outcome, done}
use sio2jail.Tracer.Action.{TraceAction}
use sio2jail.Tracer.Tracee.{Tracee, Arch, get_syscall_number}

-- The architecture that a message tells, or else the last one.
abbrev pub told_arch : {S : Type 0} → ℕ → Seccomp S → Arch
told_arch message s = if message == 0 then s.last_syscall_arch else message_arch message

-- A rule to kill in the set that the message names matches the call, or the message is the default
-- action's and that is to kill.
abbrev pub Forbidden :
    {S : Type 0} → (ℕ → Option (List (SeccompRule S))) → SeccompAction S → ℕ → Tracee → Type 0
Forbidden {S} rules_by_id default message tracee =
    ((message ≡ 0) × (default ≡ SeccompAction.kill))
    ⊎ ((rules : List (SeccompRule S)) × (r : SeccompRule S) × (rules_by_id (message_group message)
          ≡ some rules)
        × In r rules
        × (r.action ≡ SeccompAction.kill)
        × (matches r.filter tracee ≡ done true))

-- The tracer is asked for a kill, and all that changes is that the builder is given the reason RV
-- with the name, the number and the arguments of the call.
abbrev pub Denied :
    {S : Type 0}
    → (Arch → ℕ → Option Text)
    → Arch
    → Tracee
    → World
    → TraceAction × Tracee × Seccomp S
    → World
    → Type 0
Denied resolve arch tracee w result w' =
    (result.0 ≡ TraceAction.kill)
    × (number : ℕ) × (name : Text) × (arguments : Text) × (get_syscall_number tracee ≡ done number)
    × (resolve_syscall_number resolve number arch ≡ done name)
    × (arguments_text tracee (0 ∷ 1 ∷ 2 ∷ 3 ∷ 4 ∷ 5 ∷ []) ≡ done arguments)
    × (w' ≡ record w {
      output =
          set_kill_reason KillReason.rv
            (codes "intercepted forbidden syscall " ++ call_text name number arguments) w.output;
    })

-- The rest of `on_message` after each of its steps.
module _ {S : Type 0} (arch : Arch) (s : Seccomp S) (tracee : Tracee) where
  after_action : ℕ → Text → Text → SeccompAction S → M (TraceAction × Tracee × Seccomp S)
  after_action number name arguments action = do
    (trace_action, tracee₂, handlers) ← execute action tracee s.handlers
    report_forbidden trace_action (call_text name number arguments)
    pure (trace_action, tracee₂, record { last_syscall_arch = arch; handlers = handlers })

  module _ (choice : Outcome (Option (SeccompAction S))) where
    after_arguments : ℕ → Text → Text → M (TraceAction × Tracee × Seccomp S)
    after_arguments number name arguments =
        lift choice >>= λ chosen. lift (handled chosen) >>= after_action number name arguments

    after_name : ℕ → Text → M (TraceAction × Tracee × Seccomp S)
    after_name number name =
        lift (arguments_text tracee (0 ∷ 1 ∷ 2 ∷ 3 ∷ 4 ∷ 5 ∷ [])) >>= after_arguments number name

    after_number : (Arch → ℕ → Option Text) → ℕ → M (TraceAction × Tracee × Seccomp S)
    after_number resolve number =
        lift (resolve_syscall_number resolve number arch) >>= after_name number
