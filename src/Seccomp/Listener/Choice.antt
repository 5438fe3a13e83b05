-- ===== src/Seccomp/Listener/Choice.antt =====
-- Which action a traced call gets.
use sio2jail.Common.{
  ◌≤◌, ◌≡◌, ap, ◌∙◌, ◌⊎◌, inl, inr, refl, true, false, List, [], ◌∷◌, Option, none, some, arith, In,
}
use sio2jail.Seccomp.Action.{SeccompAction, type_of}
use sio2jail.Seccomp.Context.{SeccompRule}
use sio2jail.Seccomp.Filter.{matches}
use sio2jail.Seccomp.Listener.{stronger, choose}
use sio2jail.System.{done}
use sio2jail.Tracer.Tracee.{Tracee}

module _ {S : Type 0} (tracee : Tracee) where
  -- What is chosen before the rules is no stronger than what is chosen in the end.
  pub choose-start :
      (rs : List (SeccompRule S)) (a b : SeccompAction S)
      → choose rs tracee (some a) ≡ done (some b)
      → type_of a ≤ type_of b
  unfolding choose stronger
  choose-start [] a b e = ground arith
  choose-start (r ∷ rs) a b e =
      let kept = choose-start rs a b in let taken = choose-start rs r.action b in ground arith

  choose-taken :
      (q : SeccompRule S) (qs : List (SeccompRule S)) (before : Option (SeccompAction S))
      (b : SeccompAction S)
      → choose qs tracee (stronger before q.action) ≡ done (some b)
      → type_of q.action ≤ type_of b
  unfolding stronger
  choose-taken q qs none b e = choose-start qs q.action b e
  choose-taken q qs (some a) b e =
      let kept = choose-start qs a b in let taken = choose-start qs q.action b in ground arith

  -- If a choice is made, then it is at least as strong as each rule of the set that matches.
  pub choose_strongest :
      (rs : List (SeccompRule S)) (before : Option (SeccompAction S)) (b : SeccompAction S)
      (r : SeccompRule S)
      → choose rs tracee before ≡ done (some b)
      → In r rs
      → matches r.filter tracee ≡ done true
      → type_of r.action ≤ type_of b
  unfolding choose stronger
  choose_strongest [] before b r e i m = ground arith
  choose_strongest (q ∷ qs) before b r e (inl same) m =
      let matching : matches q.filter tracee ≡ done true =
        ap (λ x. matches x.filter tracee) same ∙ m in
      let taken : type_of q.action ≤ type_of b =
        choose-taken q qs before b (rw (matching, choose) at e) in
      rw (← same) taken
  choose_strongest (q ∷ qs) before b r e (inr later) m =
      let unchanged = λ (e' : choose qs tracee before ≡ done (some b)).
        choose_strongest qs before b r e' later m in
      let changed = λ (e' : choose qs tracee (stronger before q.action) ≡ done (some b)).
        choose_strongest qs (stronger before q.action) b r e' later m in
      ground arith

  stronger_cases :
      (before : Option (SeccompAction S)) (a b : SeccompAction S)
      → stronger before a ≡ some b
      → (before ≡ some b) ⊎ (a ≡ b)
  unfolding stronger
  stronger_cases before a b e = ground arith

  choose_cases :
      (q : SeccompRule S) (qs : List (SeccompRule S)) (before : Option (SeccompAction S))
      (b : SeccompAction S)
      → choose (q ∷ qs) tracee before ≡ done (some b)
      → ((matches q.filter tracee ≡ done false) × (choose qs tracee before ≡ done (some b)))
        ⊎ ((matches q.filter tracee ≡ done true)
            × (choose qs tracee (stronger before q.action) ≡ done (some b)))
  unfolding choose
  choose_cases q qs before b e = ground arith

  -- The choice is the one made before, or the action of a rule of the set that matches.
  pub choose_source :
      (rs : List (SeccompRule S)) (before : Option (SeccompAction S)) (b : SeccompAction S)
      → choose rs tracee before ≡ done (some b)
      → (before ≡ some b)
        ⊎ ((r : SeccompRule S) × In r rs × (matches r.filter tracee ≡ done true) × (r.action ≡ b))
  unfolding choose stronger
  choose_source [] before b e = ground arith
  choose_source (q ∷ qs) before b e = elim (choose_cases q qs before b e) [
    | inl (unmatched, e') ↦ elim (choose_source qs before b e') [
      | inl old ↦ inl old
      | inr (r, here, m, same) ↦ inr (r, inr here, m, same)
    ]
    | inr (matched, e') ↦ elim (choose_source qs (stronger before q.action) b e') [
      | inl new ↦ elim (stronger_cases before q.action b new) [
        | inl old ↦ inl old
        | inr same ↦ inr (q, inl refl, matched, same)
      ]
      | inr (r, here, m, same) ↦ inr (r, inr here, m, same)
    ]
  ]
