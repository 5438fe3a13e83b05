-- ===== src/Seccomp/Listener/Judged/Message.antt =====
-- The seccomp listener on an event of the tracer keeps a property of the handlers' state that the
-- actions of its rules, and the default one, keep.
use sio2jail.Common.{ℕ, Bool, not, ◌&&◌, ◌==◌, if◌then◌else◌, Text, List, [], ◌∷◌, Option}
use sio2jail.Executor.Event.{ExecuteEvent}
use sio2jail.ProcFs.{lift}
use sio2jail.Seccomp.Action.{SeccompAction, execute}
use sio2jail.Seccomp.Context.{SeccompRule, rules_by_id, message_arch, message_group}
use sio2jail.Seccomp.Listener.{
  Seccomp, choose_in, handled, first_choice, arguments_text, call_text, resolve_syscall_number,
  report_forbidden, on_message, on_trace_event, seccomp_stop,
}
use sio2jail.Seccomp.Listener.Judged.{
  lift-Judges, FaithfulAction, FaithfulSets, choose_in-Faithful, first_choice-Faithful,
  handled-Faithful, rules_by_id-Faithful,
}
use sio2jail.System.{M, ◌>>=◌, ◌>>◌, pure}
use sio2jail.System.Kept.{
  Keeps, keeping, Judges, bind-Judges, pure-Judges, aside, if-Judges, pure-Keeps,
}
use sio2jail.System.Kept.Reports.{reporting}
use sio2jail.Tracer.Action.{TraceAction}
use sio2jail.Tracer.Tracee
use sio2jail.Tracer.Tracee.{Tracee, Arch, get_event_msg, set_syscall_arch, get_syscall_number}
use sio2jail.Tracer.TraceExecutor.Judged.{is_alive-Keeps}

report_forbidden-Keeps : (a : TraceAction) (name : Text) → Keeps (report_forbidden a name)
unfolding report_forbidden
report_forbidden-Keeps TraceAction.continue name = pure-Keeps tt
report_forbidden-Keeps TraceAction.kill name = search (keeping, reporting)

get_event_msg-Keeps : (t : Tracee) → Keeps (get_event_msg t)
unfolding get_event_msg
get_event_msg-Keeps t = search keeping

-- A property of the handlers' part of the state.
abbrev pub OfHandlers : {S : Type 0} → (S → Type 0) → Seccomp S → Type 0
OfHandlers P q = P q.handlers

module _ {S : Type 0} (P : S → Type 0) (sets : List (List (SeccompRule S)))
    (default : SeccompAction S) (resolve : Arch → ℕ → Option Text) (faithful : FaithfulSets P sets)
    (faithful_default : FaithfulAction P default) where
  -- What follows the execution of the chosen action.
  ended : Arch → Text → TraceAction × Tracee × S → M (TraceAction × Tracee × Seccomp S)
  ended arch text r =
      report_forbidden r.0 text
      >> pure (r.0, r.1, record { last_syscall_arch = arch; handlers = r.2 })

  acted : Arch → Text → Tracee → Seccomp S → SeccompAction S → M (TraceAction × Tracee × Seccomp S)
  acted arch text tracee s action = execute action tracee s.handlers >>= ended arch text

  acted-Judges :
      (arch : Arch) (text : Text) (tracee : Tracee) (s : Seccomp S) (action : SeccompAction S)
      → FaithfulAction P action
      → Judges (OfHandlers P) s (acted arch text tracee s action) (λ r. r.2)
  unfolding acted ended
  acted-Judges arch text tracee s action h =
      bind-Judges (OfHandlers P) s (execute action tracee s.handlers) (ended arch text)
        (λ r. record { last_syscall_arch = arch; handlers = r.2 }) (λ r. r.2)
        (record { judges = (h.executed tracee s.handlers).judges })
        (λ r.
          let after : Seccomp S = record { last_syscall_arch = arch; handlers = r.2 } in
          bind-Judges (OfHandlers P) after (report_forbidden r.0 text) (λ u. pure (r.0, r.1, after))
            (λ u. after) (λ q. q.2) (aside (OfHandlers P) after _ (report_forbidden-Keeps r.0 text))
            (λ u. pure-Judges (OfHandlers P) (r.0, r.1, after) (λ q. q.2)))

  -- The parts of `on_message` from its end: with the chosen action, with the call's arguments, its
  -- name and its number.
  module _ (message : ℕ) (arch : Arch) (tracee : Tracee) (s : Seccomp S) where
    with_chosen : Text → Option (SeccompAction S) → M (TraceAction × Tracee × Seccomp S)
    with_chosen text chosen = lift (handled chosen) >>= acted arch text tracee s

    with_arguments : ℕ → Text → Text → M (TraceAction × Tracee × Seccomp S)
    with_arguments number name arguments =
        lift (
          choose_in (rules_by_id 0 sets (message_group message)) tracee
            (first_choice default message))
        >>= with_chosen (call_text name number arguments)

    with_name : ℕ → Text → M (TraceAction × Tracee × Seccomp S)
    with_name number name =
        lift (arguments_text tracee (0 ∷ 1 ∷ 2 ∷ 3 ∷ 4 ∷ 5 ∷ [])) >>= with_arguments number name

    with_number : ℕ → M (TraceAction × Tracee × Seccomp S)
    with_number number = lift (resolve_syscall_number resolve number arch) >>= with_name number

    with_arguments-Judges :
        (number : ℕ) (name arguments : Text)
        → Judges (OfHandlers P) s (with_arguments number name arguments) (λ r. r.2)
    unfolding with_arguments with_chosen
    with_arguments-Judges number name arguments =
        let rules = rules_by_id 0 sets (message_group message) in
        let first = first_choice default message in
        let text = call_text name number arguments in
        lift-Judges (OfHandlers P) s (choose_in rules tracee first) (with_chosen text) (λ r. r.2)
          (λ chosen e.
            lift-Judges (OfHandlers P) s (handled chosen) (acted arch text tracee s) (λ r. r.2)
              (λ action e'. acted-Judges arch text tracee s action (
                handled-Faithful P chosen action
                  (choose_in-Faithful P rules tracee first chosen
                    (rules_by_id-Faithful P sets 0 (message_group message) faithful)
                    (first_choice-Faithful P default message faithful_default) e)
                  e')))

    with_number-Judges : (number : ℕ) → Judges (OfHandlers P) s (with_number number) (λ r. r.2)
    unfolding with_number with_name
    with_number-Judges number =
        lift-Judges (OfHandlers P) s (resolve_syscall_number resolve number arch) (with_name number)
          (λ r. r.2)
          (λ name e.
            lift-Judges (OfHandlers P) s (arguments_text tracee (0 ∷ 1 ∷ 2 ∷ 3 ∷ 4 ∷ 5 ∷ []))
              (with_arguments number name) (λ r. r.2)
              (λ arguments e'. with_arguments-Judges number name arguments))

  on_message-Judges :
      (message : ℕ) (tracee : Tracee) (s : Seccomp S)
      → Judges
          (OfHandlers P)
          s
          (on_message (rules_by_id 0 sets) default resolve message tracee s)
          (λ r. r.2)
  unfolding on_message with_number with_name with_arguments with_chosen acted ended
  on_message-Judges message tracee s =
      let arch = if message == 0 then s.last_syscall_arch else message_arch message in
      let tracee₁ = set_syscall_arch arch tracee in
      lift-Judges (OfHandlers P) s (get_syscall_number tracee₁) (with_number message arch tracee₁ s)
        (λ r. r.2) (λ number e. with_number-Judges message arch tracee₁ s number)

  -- The event's part where the tracee is alive.
  looked_at : ExecuteEvent → Tracee → Seccomp S → Bool → M (TraceAction × Tracee × Seccomp S)
  looked_at event tracee s alive =
      if not alive
      then pure (TraceAction.continue, tracee, s)
      else if not (event.trapped && event.signal == seccomp_stop)
      then pure (TraceAction.continue, tracee, s)
      else (get_event_msg tracee >>= λ message.
          on_message (rules_by_id 0 sets) default resolve message tracee s)

  -- The listener keeps a property of the handlers' state that the actions of its rules, and the
  -- default one, keep.
  pub on_trace_event-Judges :
      (event : ExecuteEvent) (tracee : Tracee) (s : Seccomp S)
      → Judges
          (OfHandlers P)
          s
          (on_trace_event (rules_by_id 0 sets) default resolve event tracee s)
          (λ r. r.2)
  unfolding on_trace_event looked_at
  on_trace_event-Judges event tracee s =
      let Q = OfHandlers P in
      let idle = pure-Judges Q (TraceAction.continue, tracee, s) (λ r. r.2) in
      bind-Judges Q s (Tracee.is_alive tracee.pid) (looked_at event tracee s) (λ alive. s)
        (λ r. r.2) (aside Q s _ (is_alive-Keeps tracee.pid))
        (λ alive.
          if-Judges Q s (not alive) (pure (TraceAction.continue, tracee, s))
            (if not (event.trapped && event.signal == seccomp_stop)
              then pure (TraceAction.continue, tracee, s)
              else (get_event_msg tracee >>= λ message.
                  on_message (rules_by_id 0 sets) default resolve message tracee s))
            (λ r. r.2) idle
            (if-Judges Q s (not (event.trapped && event.signal == seccomp_stop))
              (pure (TraceAction.continue, tracee, s))
              (get_event_msg tracee >>= λ message.
                on_message (rules_by_id 0 sets) default resolve message tracee s)
              (λ r. r.2) idle
              (bind-Judges Q s (get_event_msg tracee)
                (λ message. on_message (rules_by_id 0 sets) default resolve message tracee s)
                (λ message. s) (λ r. r.2) (aside Q s _ (get_event_msg-Keeps tracee))
                (λ message. on_message-Judges message tracee s))))
