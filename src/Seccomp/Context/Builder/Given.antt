-- ===== src/Seccomp/Context/Builder/Given.antt =====
-- What libseccomp is given for the rule sets, told without the code's way to do it: for each set, the
-- rules in rising order of type, with ids written out.
use mathlib.Core.List.{reverse, reverse-append}
use sio2jail.Common.{
  ℕ, suc, ◌+◌, ◌*◌, ◌^◌, ◌<◌, ◌≡◌, refl, sym, ap, ◌∙◌, List, [], ◌∷◌, ◌++◌, length, arith,
}
use sio2jail.Seccomp.Action.{SeccompAction, allow, kill, trace, errno, lib_action}
use sio2jail.Seccomp.Context.{SeccompRule, arch_code, rule_id, stable_sort}
use sio2jail.Seccomp.Context.Order.{IsSorted, of_type, stable_sort_lem}
use sio2jail.Seccomp.Context.RuleId.{rule_id_plain}
use sio2jail.Seccomp.Library.{ArgCmp, LibAction, cmp_ge, act_allow, act_trace, act_errno}
use sio2jail.Seccomp.Context.Builder.{
  Contexts, add_conditions, accept_rule, add_rule, add_reversed, add_sets, first_at_least_zero,
}
use sio2jail.System.{
  Kernel, World, M, ◌>>=◌, ◌>>◌, pure, Syscall, contains, with_errno_check_, seccomp_rule_add,
}
use sio2jail.System.Checks.{with_errno_check__lem}
use sio2jail.System.Sequence.{checked, checked-append, >>_cong, >>_cong_first}
use sio2jail.Tracer.Tracee.{Arch}

-- libseccomp documents 0 as the result of a rule that is added.
abbrev pub ZeroOnSuccess : Kernel → Type 0
ZeroOnSuccess k =
    (h : List Syscall) (ctx : ℕ) (action : LibAction) (syscall : ℕ) (conditions : List ArgCmp)
    → (k.reply h (seccomp_rule_add ctx action syscall conditions)).value ≡ 0

-- The kernel decides what is allowed and what fails; what kills or traces comes to the tracer with
-- an id.
abbrev pub told : {S : Type 0} → ℕ → SeccompAction S → LibAction
told id allow = act_allow
told id (errno number) = act_errno number
told id (trace handler) = act_trace id
told id kill = act_trace id

lib_action-told : {S : Type 0} (id : ℕ) (a : SeccompAction S) → lib_action id a ≡ told id a
unfolding lib_action
lib_action-told id allow = refl
lib_action-told id (errno number) = refl
lib_action-told id (trace handler) = refl
lib_action-told id kill = refl

-- A rule without conditions gets one that always holds.
abbrev pub conditioned : List ArgCmp → List ArgCmp
conditioned [] = record { arg = 0; op = cmp_ge; datum_a = 0; datum_b = 0 } ∷ []
conditioned (c ∷ cs) = c ∷ cs

module _ (c₁ c₂ : ℕ) {S : Type 0} where
  -- The calls for a rule of a set: first x86, with the code 1, then x86_64, with the code 2, in the
  -- three low bits of the id.
  abbrev pub calls_of : ℕ → List (SeccompRule S) → List (List ℕ × Syscall)
  calls_of group [] = []
  calls_of group (r ∷ rs) =
      let conditions = conditioned r.filter.lib_seccomp_filter_conditions in
      ([], seccomp_rule_add c₁ (told (group * 8 + 1) r.action) r.syscall conditions)
      ∷ ([], seccomp_rule_add c₂ (told (group * 8 + 2) r.action) r.syscall conditions)
      ∷ calls_of group rs

  -- The calls for the sets from the given number on. Read backwards, the rules of a set fall in type,
  -- and those of one type are the set's own in the set's order.
  abbrev pub Planned : ℕ → List (List (SeccompRule S)) → List (List ℕ × Syscall) → Type 0
  Planned group [] calls = calls ≡ []
  Planned group (rules ∷ sets) calls =
      ((sorted : List (SeccompRule S)) × (rest : List (List ℕ × Syscall)) × IsSorted sorted
        × ((t : ℕ) → of_type t sorted ≡ of_type t rules)
        × (calls ≡ calls_of group (reverse sorted) ++ rest)
        × Planned (suc group) sets rest)

  calls_of-append :
      (group : ℕ) (xs ys : List (SeccompRule S))
      → calls_of group (xs ++ ys) ≡ calls_of group xs ++ calls_of group ys
  calls_of-append group [] ys = refl
  calls_of-append group (x ∷ xs) ys = rw (calls_of-append group xs ys) refl

module _ (k : Kernel) (zero : ZeroOnSuccess k) (c₁ c₂ : ℕ) where
  contexts : Contexts
  contexts = (Arch.x86, c₁) ∷ (Arch.x86_64, c₂) ∷ []

  add_one :
      (ctx : ℕ) (action : LibAction) (syscall : ℕ) (conditions : List ArgCmp) (rest : M (Unit {0}))
      (w : World)
      → (add_conditions ctx action syscall conditions >>= λ r. accept_rule r >> rest) k w
        ≡ (with_errno_check_ [] (seccomp_rule_add ctx action syscall (conditioned conditions))
              >> rest)
            k w
  unfolding add_conditions accept_rule contains
  add_one ctx action syscall [] rest w =
      let call = seccomp_rule_add ctx action syscall (first_at_least_zero ∷ []) in
      ground (
        arith,
        zero w.history ctx action syscall (first_at_least_zero ∷ []),
        with_errno_check__lem [] call k w,
      )
  add_one ctx action syscall (c ∷ cs) rest w =
      let call = seccomp_rule_add ctx action syscall (c ∷ cs) in
      ground (arith, with_errno_check__lem [] call k w)

  -- A sequence of calls in two parts.
  in_parts :
      (xs ys : List (List ℕ × Syscall)) (m n : M (Unit {0})) (w : World)
      → ((v : World) → m k v ≡ checked xs k v)
      → ((v : World) → n k v ≡ checked ys k v)
      → (m >> n) k w ≡ checked (xs ++ ys) k w
  in_parts xs ys m n w first second =
      >>_cong_first m (checked xs) n k w (first w)
      ∙ (>>_cong (checked xs) n (checked ys) k w second
          ∙ ap (λ (c : M (Unit {0})). c k w) (sym (checked-append xs ys)))

  module _ {S : Type 0} where
    action_told :
        (group : ℕ) (arch : Arch) (a : SeccompAction S)
        → group < 2 ^ 29
        → lib_action (rule_id group arch) a ≡ told (group * 8 + arch_code arch) a
    action_told group arch a h =
        lib_action-told (rule_id group arch) a ∙ ap (λ id. told id a) (rule_id_plain group arch h)

    add_rule_given :
        (group : ℕ) (rule : SeccompRule S) (w : World)
        → group < 2 ^ 29
        → add_rule contexts group rule k w ≡ checked (calls_of c₁ c₂ group (rule ∷ [])) k w
    unfolding add_rule checked contexts arch_code
    add_rule_given group rule w h =
        let conditions = rule.filter.lib_seccomp_filter_conditions in
        let action₁ = told (group * 8 + 1) rule.action in
        let action₂ = told (group * 8 + 2) rule.action in
        rw (action_told group Arch.x86 rule.action h, action_told group Arch.x86_64 rule.action h)
          (add_one c₁ action₁ rule.syscall conditions
              (add_conditions c₂ action₂ rule.syscall conditions >>= λ r. accept_rule r >> pure tt)
              w
            ∙ >>_cong
                (with_errno_check_ []
                  (seccomp_rule_add c₁ action₁ rule.syscall (conditioned conditions)))
                (add_conditions c₂ action₂ rule.syscall conditions >>= λ r.
                  accept_rule r >> pure tt)
                (with_errno_check_ []
                    (seccomp_rule_add c₂ action₂ rule.syscall (conditioned conditions))
                  >> pure tt)
                k w (add_one c₂ action₂ rule.syscall conditions (pure tt)))

    add_reversed_given :
        (group : ℕ) (rules : List (SeccompRule S)) (w : World)
        → group < 2 ^ 29
        → add_reversed contexts group rules k w ≡ checked (calls_of c₁ c₂ group (reverse rules)) k w
    unfolding add_reversed checked
    add_reversed_given group [] w h = refl
    add_reversed_given group (r ∷ rs) w h =
        in_parts (calls_of c₁ c₂ group (reverse rs)) (calls_of c₁ c₂ group (r ∷ []))
          (add_reversed contexts group rs) (add_rule contexts group r) w
          (λ v. add_reversed_given group rs v h) (λ v. add_rule_given group r v h)
        ∙ ap (λ cs. checked cs k w)
            (sym (
              ap (calls_of c₁ c₂ group) (reverse-append (r ∷ []) rs)
              ∙ calls_of-append c₁ c₂ group (reverse rs) (r ∷ [])))

    -- What the next theorem says of the sets whose numbers follow the given one.
    abbrev pub AddedAsPlanned : ℕ → List (List (SeccompRule S)) → Type 0
    AddedAsPlanned last sets =
        ((calls : List (List ℕ × Syscall)) × Planned c₁ c₂ (suc last) sets calls
          × ((w : World)
              → add_sets ((Arch.x86, c₁) ∷ (Arch.x86_64, c₂) ∷ []) last sets k w
                ≡ checked calls k w))

    -- Where libseccomp gives 0 for a rule that it adds, and the numbers of the sets stay below
    -- 2 ^ 29, the sets are added in their order, each with its rules in rising order of type, those
    -- of one type from the last to the first, and each rule for both architectures, with the number
    -- of its set and the architecture's code as its id; this goes up to the first call that fails,
    -- which throws its errno.
    pub add_sets-AddedAsPlanned :
        (last : ℕ) (sets : List (List (SeccompRule S)))
        → last + length sets < 2 ^ 29
        → AddedAsPlanned last sets
    unfolding add_sets contexts checked
    add_sets-AddedAsPlanned last [] h = ([], refl, λ w. refl)
    add_sets-AddedAsPlanned last (rules ∷ sets) h =
        let (rest, planned, same) = add_sets-AddedAsPlanned (suc last) sets (omega arith) in
        let (sorted, stable) = stable_sort_lem rules in
        let calls = calls_of c₁ c₂ (suc last) (reverse (stable_sort rules)) in
        (
          calls ++ rest,
          (stable_sort rules, rest, sorted, stable, refl, planned),
          λ w.
              in_parts calls rest (add_reversed contexts (suc last) (stable_sort rules))
                (add_sets contexts (suc last) sets) w
                (λ v. add_reversed_given (suc last) (stable_sort rules) v (omega arith)) same,
        )
