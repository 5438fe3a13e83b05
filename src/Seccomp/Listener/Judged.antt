-- ===== src/Seccomp/Listener/Judged.antt =====
-- A property of the handlers' state through the seccomp listener: each action keeps it, or gives a kill
-- reason, and the listener executes one of its rules' actions or the default one.
pub mod Message
use sio2jail.Common.{
  ℕ, zero, suc, ◌≡◌, subst, refl, ap, ◌∙◌, sym, Bool, Bool-cases, inl, inr, true, false, not, ◌&&◌,
  ltb, ◌==◌, if◌then◌else◌, Text, codes, List, [], ◌∷◌, ◌++◌, Option, none, some, All, arith,
}
use sio2jail.Executor.Event.{ExecuteEvent}
use sio2jail.Printer.{KillReason, set_kill_reason}
use sio2jail.ProcFs.{lift}
use sio2jail.ProcFs.Kept.{lift-Keeps}
use sio2jail.Seccomp.Action.{SeccompAction, execute, type_of}
use sio2jail.Seccomp.Context.{
  SeccompRule, rules_by_id, stable_sort, insert, message_arch, message_group,
}
use sio2jail.Seccomp.Filter.{matches}
use sio2jail.Seccomp.Listener.{
  Seccomp, stronger, choose, choose_in, handled, first_choice, arguments_text, call_text,
  resolve_syscall_number, report_forbidden, on_message, on_trace_event, seccomp_stop,
}
use sio2jail.Seccomp.Rules.{signed_place, add_rule, add_policy, rule_sets}
use sio2jail.System.{M, ◌>>=◌, ◌>>◌, pure, Outcome, done, threw}
use sio2jail.System.Checks.{>>=-eq-done}
use sio2jail.System.Kept.{
  Keeps, keeping, Judged, Judges, bind-Judges, pure-Judges, aside, if-Judges, pure-Keeps,
}
use sio2jail.System.Kept.Reports.{reporting}
use sio2jail.Tracer.Action.{TraceAction}
use sio2jail.Tracer.Tracee
use sio2jail.Tracer.Tracee.{Tracee, Arch, get_event_msg, set_syscall_arch, get_syscall_number}
use sio2jail.Tracer.TraceExecutor.Judged.{is_alive-Keeps}

lift-Judges :
    {S A B : Type 0} (P : S → Type 0) (s : S) (o : Outcome A) (f : A → M B) (state : B → S)
    → ((a : A) → o ≡ done a → Judges P s (f a) state)
    → Judges P s (lift o >>= f) state
unfolding lift
lift-Judges P s (done a) f state h = record {
  judges = λ k w w' b j e. (h a refl).judges k w w' b j e;
}
lift-Judges P s (threw x) f state h = record { judges = λ k w w' b j e. ground (arith, e) }

module _ {S : Type 0} (P : S → Type 0) where
  pub record FaithfulAction (a : SeccompAction S) : Type 0 where
    pub executed : (tracee : Tracee) (s : S) → Judges P s (execute a tracee s) (λ r. r.2)

  abbrev pub FaithfulRule : SeccompRule S → Type 0
  FaithfulRule r = FaithfulAction r.action

  abbrev pub FaithfulChoice : Option (SeccompAction S) → Type 0
  FaithfulChoice none = Unit {0}
  FaithfulChoice (some a) = FaithfulAction a

  stronger-Faithful :
      (o : Option (SeccompAction S)) (a : SeccompAction S)
      → FaithfulChoice o
      → FaithfulAction a
      → FaithfulChoice (stronger o a)
  unfolding stronger
  stronger-Faithful none a h g = g
  stronger-Faithful (some b) a h g = elim (Bool-cases (ltb (type_of b) (type_of a))) [
    | inl t ↦ rw t g
    | inr f ↦ rw f h
  ]

  -- What the test of a filter leads to.
  matched-Faithful :
      (m : Outcome Bool) (x y : Outcome (Option (SeccompAction S))) (c : Option (SeccompAction S))
      → (x ≡ done c → FaithfulChoice c)
      → (y ≡ done c → FaithfulChoice c)
      → elim m [ done true ↦ x | done false ↦ y | threw e ↦ threw e ] ≡ done c
      → FaithfulChoice c
  matched-Faithful (done true) x y c h g e = h e
  matched-Faithful (done false) x y c h g e = g e
  matched-Faithful (threw z) x y c h g e = ground (arith, e)

  choose-Faithful :
      (rs : List (SeccompRule S)) (tracee : Tracee) (o c : Option (SeccompAction S))
      → All FaithfulRule rs
      → FaithfulChoice o
      → choose rs tracee o ≡ done c
      → FaithfulChoice c
  unfolding choose
  choose-Faithful [] tracee o c h g e =
      subst FaithfulChoice (ap (λ x. elim x [ done a ↦ a | threw z ↦ o ]) e) g
  choose-Faithful (r ∷ rs) tracee o c h g e =
      matched-Faithful (matches r.filter tracee) (choose rs tracee (stronger o r.action))
        (choose rs tracee o) c
        (choose-Faithful rs tracee (stronger o r.action) c h.1 (stronger-Faithful o r.action g h.0))
        (choose-Faithful rs tracee o c h.1 g) e

  abbrev FaithfulSet : Option (List (SeccompRule S)) → Type 0
  FaithfulSet none = Unit {0}
  FaithfulSet (some rules) = All FaithfulRule rules

  choose_in-Faithful :
      (rules : Option (List (SeccompRule S))) (tracee : Tracee) (o c : Option (SeccompAction S))
      → FaithfulSet rules
      → FaithfulChoice o
      → choose_in rules tracee o ≡ done c
      → FaithfulChoice c
  unfolding choose_in choose
  choose_in-Faithful none tracee o c h g e = choose-Faithful [] tracee o c tt g e
  choose_in-Faithful (some rules) tracee o c h g e = choose-Faithful rules tracee o c h g e

  first_choice-Faithful :
      (default : SeccompAction S) (message : ℕ)
      → FaithfulAction default
      → FaithfulChoice (first_choice default message)
  unfolding first_choice
  first_choice-Faithful default message h = elim (Bool-cases (message == 0)) [
    | inl t ↦ rw t h
    | inr f ↦ rw f tt
  ]

  handled-Faithful :
      (c : Option (SeccompAction S)) (a : SeccompAction S)
      → FaithfulChoice c
      → handled c ≡ done a
      → FaithfulAction a
  unfolding handled
  handled-Faithful none a h e = ground (arith, e)
  handled-Faithful (some b) a h e =
      subst FaithfulAction (ap (λ x. elim x [ done q ↦ q | threw z ↦ b ]) e) h

  insert-Faithful :
      (r : SeccompRule S) (rs : List (SeccompRule S))
      → FaithfulRule r
      → All FaithfulRule rs
      → All FaithfulRule (insert r rs)
  unfolding insert
  insert-Faithful r [] h g = (h, tt)
  insert-Faithful r (q ∷ rs) h g = elim (Bool-cases (ltb (type_of r.action) (type_of q.action))) [
    | inl t ↦ rw t (g.0, insert-Faithful r rs h g.1)
    | inr f ↦ rw f (h, g)
  ]

  sorted-Faithful :
      (rs : List (SeccompRule S)) → All FaithfulRule rs → All FaithfulRule (stable_sort rs)
  unfolding stable_sort
  sorted-Faithful [] h = tt
  sorted-Faithful (r ∷ rs) h = insert-Faithful r (stable_sort rs) h.0 (sorted-Faithful rs h.1)

  abbrev pub FaithfulSets : List (List (SeccompRule S)) → Type 0
  FaithfulSets = All (All FaithfulRule)

  rules_by_id-Faithful :
      (sets : List (List (SeccompRule S))) (last id : ℕ)
      → FaithfulSets sets
      → FaithfulSet (rules_by_id last sets id)
  unfolding rules_by_id
  rules_by_id-Faithful [] last id h = tt
  rules_by_id-Faithful (rules ∷ sets) last id h = elim (Bool-cases (suc last == id)) [
    | inl t ↦ rw t (sorted-Faithful rules h.0)
    | inr f ↦ rw f (rules_by_id-Faithful sets (suc last) id h.1)
  ]

  abbrev FaithfulMap : List (ℕ × List (SeccompRule S)) → Type 0
  FaithfulMap = All (λ e. All FaithfulRule e.1)

  appended-Faithful :
      (rs : List (SeccompRule S)) (r : SeccompRule S)
      → All FaithfulRule rs
      → FaithfulRule r
      → All FaithfulRule (rs ++ r ∷ [])
  appended-Faithful [] r h g = (g, tt)
  appended-Faithful (q ∷ rs) r h g = (h.0, appended-Faithful rs r h.1 g)

  add_rule-Faithful :
      (r : SeccompRule S) (m : List (ℕ × List (SeccompRule S)))
      → FaithfulRule r
      → FaithfulMap m
      → FaithfulMap (add_rule r m)
  unfolding add_rule
  add_rule-Faithful r [] h g = ((h, tt), tt)
  add_rule-Faithful r ((n, rules) ∷ m) h g = elim (Bool-cases (n == r.syscall)) [
    | inl t ↦ rw t (appended-Faithful rules r g.0 h, g.1)
    | inr f ↦ elim (Bool-cases (ltb (signed_place r.syscall) (signed_place n))) [
      | inl b ↦ rw (f, b) ((h, tt), g)
      | inr a ↦ rw (f, a) (g.0, add_rule-Faithful r m h g.1)
    ]
  ]

  add_policy-Faithful :
      (rs : List (SeccompRule S)) (m : List (ℕ × List (SeccompRule S)))
      → All FaithfulRule rs
      → FaithfulMap m
      → FaithfulMap (add_policy rs m)
  unfolding add_policy
  add_policy-Faithful [] m h g = g
  add_policy-Faithful (r ∷ rs) m h g =
      add_policy-Faithful rs (add_rule r m) h.1 (add_rule-Faithful r m h.0 g)

  rule_sets-Faithful :
      (m : List (ℕ × List (SeccompRule S))) → FaithfulMap m → FaithfulSets (rule_sets m)
  unfolding rule_sets
  rule_sets-Faithful [] h = tt
  rule_sets-Faithful ((n, rules) ∷ m) h = (h.0, rule_sets-Faithful m h.1)

  -- The sets of rules of a policy have its rules' actions only.
  pub policy-Faithful :
      (rs : List (SeccompRule S))
      → All FaithfulRule rs
      → FaithfulSets (rule_sets (add_policy rs []))
  policy-Faithful rs h = rule_sets-Faithful (add_policy rs []) (add_policy-Faithful rs [] h tt)
