-- ===== src/App/Supervisor/Policy/Sets.antt =====
-- The sets of rules that the supervisor makes keep what the two limits promise, or give a kill
-- reason.
use sio2jail.Common.{
  ℕ, ◌≡◌, ap, subst, Bool, Text, List, [], ◌∷◌, Option, none, some, ℤ, All, All-append, arith,
}
use sio2jail.ProcFs.{lift}
use sio2jail.Limits.Memory.Rules.{memory_rules}
use sio2jail.Limits.Threads.Rules.{thread_rules}
use sio2jail.Seccomp.Action.{SeccompAction, allow, kill}
use sio2jail.Seccomp.Context.{SeccompRule}
use sio2jail.Seccomp.Listener.Judged.{FaithfulAction, FaithfulRule, FaithfulSets, policy-Faithful}
use sio2jail.Seccomp.Policy.{NamedRule, default_policy, permissive_policy, resolve_rule}
use sio2jail.System.{Kernel, World, M, ◌>>=◌, pure, Outcome, done, threw, exception}
use sio2jail.System.Checks.{>>=-eq-done}
use sio2jail.Seccomp.Rules.{add_policy, rule_sets}
use sio2jail.Seccomp.Policy.Harmless.{
  HarmlessRule, default_policy-Harmless, allow-Harmless, kill-Harmless,
}
use sio2jail.App.Settings
use sio2jail.App.Settings.{Settings, PolicyName}
use sio2jail.App.Wiring.{Component, memory_limit, threads_limit, extra_policies, seccomp_policy}
use sio2jail.App.Supervisor.{
  Environment, Supervisor, Action, policy_sets, over_memory, over_policy, resolve_over, base_rules,
  default_action, gather_rules,
}
use sio2jail.App.Supervisor.Policy.{
  Held, FaithfulNamed, over_policy-Faithful, memory_rules-Faithful, policy_rules-Faithful,
  thread_rules-Harmless,
}

module _ (limit : ℕ) (threads : ℤ) where
  -- Of what is made of rules where it is made.
  abbrev OneDone : Outcome (SeccompRule Supervisor) → Type 0
  OneDone (done r) = FaithfulRule (Held limit threads) r
  OneDone (threw e) = Unit {0}

  abbrev AllDone : Outcome (List (SeccompRule Supervisor)) → Type 0
  AllDone (done rs) = All (FaithfulRule (Held limit threads)) rs
  AllDone (threw e) = Unit {0}

  numbered :
      (n : Option ℕ) (r : NamedRule Supervisor)
      → FaithfulAction (Held limit threads) r.action
      → OneDone (elim n [
        | none ↦ threw exception
        | some n ↦ done (record { syscall = n; action = r.action; filter = r.filter })
      ])
  numbered none r h = tt
  numbered (some n) r h = h

  joined :
      (o : Outcome (SeccompRule Supervisor)) (rest : Outcome (List (SeccompRule Supervisor)))
      → OneDone o
      → AllDone rest
      → AllDone (elim o [
        | threw e ↦ threw e
        | done one ↦ elim rest [ threw e ↦ threw e | done more ↦ done (one ∷ more) ]
      ])
  joined (threw e) rest h g = tt
  joined (done one) (threw e) h g = tt
  joined (done one) (done more) h g = (h, g)

  resolve_over-Faithful :
      {A : Type 0} (over : SeccompAction A → Action) (number : Text → Option ℕ)
      (rs : List (NamedRule A))
      → All (FaithfulNamed limit threads over) rs
      → AllDone (resolve_over over number rs)
  unfolding resolve_over resolve_rule
  resolve_over-Faithful over number [] h = tt
  resolve_over-Faithful over number (r ∷ rs) h =
      let named : NamedRule Supervisor = record {
        name = r.name;
        action = over r.action;
        filter = r.filter;
      } in
      joined (resolve_rule number named) (resolve_over over number rs)
        (numbered (number r.name) named h.0) (resolve_over-Faithful over number rs h.1)

  gather_rules-Faithful :
      (memory counted base : List (SeccompRule Supervisor)) (cs : List Component)
      → All (FaithfulRule (Held limit threads)) memory
      → All (FaithfulRule (Held limit threads)) counted
      → All (FaithfulRule (Held limit threads)) base
      → All (FaithfulRule (Held limit threads)) (gather_rules memory counted base cs)
  unfolding gather_rules
  gather_rules-Faithful memory counted base [] h g b = b
  gather_rules-Faithful memory counted base (memory_limit ∷ cs) h g b =
      All-append _ memory _ h (gather_rules-Faithful memory counted base cs h g b)
  gather_rules-Faithful memory counted base (threads_limit ∷ cs) h g b =
      All-append _ counted _ g (gather_rules-Faithful memory counted base cs h g b)
  gather_rules-Faithful memory counted base (_ ∷ cs) h g b =
      gather_rules-Faithful memory counted base cs h g b

  base-Harmless :
      (p : PolicyName) (b : Bool)
      → All HarmlessRule (elim p [
        | Settings.default_policy ↦ default_policy b
        | Settings.permissive_policy ↦ permissive_policy
      ])
  unfolding permissive_policy
  base-Harmless Settings.default_policy b = default_policy-Harmless b
  base-Harmless Settings.permissive_policy b = tt

  base_rules-Harmless : (s : Settings) → All HarmlessRule (base_rules s)
  unfolding base_rules
  base_rules-Harmless s = base-Harmless (seccomp_policy s).0 (seccomp_policy s).1

  default-Faithful :
      (p : PolicyName)
      → FaithfulAction
          (Held limit threads)
          (elim p [ Settings.default_policy ↦ kill | Settings.permissive_policy ↦ allow ])
  unfolding over_policy
  default-Faithful Settings.default_policy = over_policy-Faithful limit threads kill kill-Harmless
  default-Faithful Settings.permissive_policy =
      over_policy-Faithful limit threads allow allow-Harmless

  pub default_action-Faithful :
      (s : Settings) → FaithfulAction (Held limit threads) (default_action s)
  unfolding default_action
  default_action-Faithful s = default-Faithful (seccomp_policy s).0

  lifted-done :
      {A : Type 0} (o : Outcome A) (a : A) (k : Kernel) (w w' : World)
      → lift o k w ≡ done (a, w')
      → o ≡ done a
  unfolding lift
  lifted-done (done b) a k w w' e = ground (arith, e)
  lifted-done (threw x) a k w w' e = ground (arith, e)

  taken :
      (o : Outcome (List (SeccompRule Supervisor))) (rs : List (SeccompRule Supervisor))
      → AllDone o
      → o ≡ done rs
      → All (FaithfulRule (Held limit threads)) rs
  taken o rs h e = subst AllDone e h

  -- The parts of `policy_sets` from its end.
  module _ (env : Environment) (s : Settings) where
    gathered :
        List (SeccompRule Supervisor)
        → List (SeccompRule Supervisor)
        → List (SeccompRule Supervisor)
        → M (List (List (SeccompRule Supervisor)))
    gathered base memory threads =
        pure (rule_sets (add_policy (gather_rules memory threads base (extra_policies s)) []))

    with_memory :
        List (SeccompRule Supervisor)
        → List (SeccompRule Supervisor)
        → M (List (List (SeccompRule Supervisor)))
    with_memory base memory =
        lift (resolve_over over_policy env.number (thread_rules s.threads_limit))
        >>= gathered base memory

    with_base : List (SeccompRule Supervisor) → M (List (List (SeccompRule Supervisor)))
    with_base base = lift (resolve_over over_memory env.number memory_rules) >>= with_memory base

    -- The sets of rules that the supervisor makes keep the limits' promise, or give a kill reason.
    pub policy_sets-Faithful :
        (sets : List (List (SeccompRule Supervisor))) (k : Kernel) (w w' : World)
        → policy_sets env s k w ≡ done (sets, w')
        → FaithfulSets (Held limit threads) sets
    unfolding policy_sets with_base with_memory gathered
    policy_sets-Faithful sets k w w' e =
        let of_base = resolve_over over_policy env.number (base_rules s) in
        let of_memory = resolve_over over_memory env.number memory_rules in
        let of_threads = resolve_over over_policy env.number (thread_rules s.threads_limit) in
        let (base, v₁, e₁, e₂) = >>=-eq-done (lift of_base) with_base e in
        let (memory, v₂, e₃, e₄) = >>=-eq-done (lift of_memory) (with_memory base) e₂ in
        let (more, v₃, e₅, e₆) = >>=-eq-done (lift of_threads) (gathered base memory) e₄ in
        let rules = gather_rules memory more base (extra_policies s) in
        let all =
          gather_rules-Faithful memory more base (extra_policies s)
            (taken of_memory memory
              (resolve_over-Faithful over_memory env.number memory_rules
                (memory_rules-Faithful limit threads))
              (lifted-done of_memory memory k v₁ v₂ e₃))
            (taken of_threads more
              (resolve_over-Faithful over_policy env.number (thread_rules s.threads_limit) (
                policy_rules-Faithful limit threads (thread_rules s.threads_limit)
                  (thread_rules-Harmless s.threads_limit)))
              (lifted-done of_threads more k v₂ v₃ e₅))
            (taken of_base base
              (resolve_over-Faithful over_policy env.number (base_rules s)
                (policy_rules-Faithful limit threads (base_rules s) (base_rules-Harmless s)))
              (lifted-done of_base base k w v₁ e₁)) in
        subst (FaithfulSets (Held limit threads))
          (ap (λ x. elim x [ done q ↦ q.0 | threw z ↦ sets ]) e₆)
          (policy-Faithful (Held limit threads) rules all)
