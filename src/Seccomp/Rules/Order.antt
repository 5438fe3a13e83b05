-- ===== src/Seccomp/Rules/Order.antt =====
-- The map keeps the order of its keys, and each call's rules in the order of their being added.
use sio2jail.Common.{
  ℕ, ◌^◌, ◌<◌, ◌≡◌, refl, sym, ap, ◌∙◌, ◌==◌, if◌then◌else◌, List, [], ◌∷◌, ◌++◌, append_assoc,
  append-nil, All, arith,
}
use sio2jail.Seccomp.Context.{SeccompRule}
use sio2jail.Seccomp.Rules.{signed_place, add_rule, add_policy, rules_at, for_call}

-- Different numbers of 32 bits have different places.
signed_place_inj : (a b : ℕ) → a < 2 ^ 32 → b < 2 ^ 32 → signed_place a ≡ signed_place b → a ≡ b
unfolding signed_place
signed_place_inj a b ha hb h = omega arith

module _ {S : Type 0} where
  -- All keys are behind a place.
  abbrev Behind : ℕ → List (ℕ × List (SeccompRule S)) → Type 0
  Behind p [] = Unit {0}
  Behind p ((n, rules) ∷ m) = (p < signed_place n) × Behind p m

  -- The keys are numbers of 32 bits in the order of their places.
  abbrev pub IsOrdered : List (ℕ × List (SeccompRule S)) → Type 0
  IsOrdered [] = Unit {0}
  IsOrdered ((n, rules) ∷ m) = (n < 2 ^ 32) × Behind (signed_place n) m × IsOrdered m

  rules_at-Behind :
      (q : ℕ) (m : List (ℕ × List (SeccompRule S))) → Behind (signed_place q) m → rules_at q m ≡ []
  unfolding rules_at
  rules_at-Behind q [] h = refl
  rules_at-Behind q ((n, rules) ∷ m) h = ground (arith, rules_at-Behind q m)

  Behind-trans : (a b : ℕ) (m : List (ℕ × List (SeccompRule S))) → a < b → Behind b m → Behind a m
  Behind-trans a b [] h hm = tt
  Behind-trans a b ((n, rules) ∷ m) h hm = (omega arith, Behind-trans a b m h hm.1)

  add_rule-Behind :
      (p : ℕ) (r : SeccompRule S) (m : List (ℕ × List (SeccompRule S)))
      → p < signed_place r.syscall
      → Behind p m
      → Behind p (add_rule r m)
  unfolding add_rule
  add_rule-Behind p r [] h hm = (h, tt)
  add_rule-Behind p r ((n, rules) ∷ m) h hm = ground (arith, add_rule-Behind p r m)

  add_rule-IsOrdered :
      (r : SeccompRule S) (m : List (ℕ × List (SeccompRule S)))
      → r.syscall < 2 ^ 32
      → IsOrdered m
      → IsOrdered (add_rule r m)
  unfolding add_rule
  add_rule-IsOrdered r [] h o = (h, tt, tt)
  add_rule-IsOrdered r ((n, rules) ∷ m) h o = ground (
    arith,
    add_rule-IsOrdered r m,
    add_rule-Behind (signed_place n) r m,
    signed_place_inj n r.syscall,
    Behind-trans (signed_place r.syscall) (signed_place n) m,
  )

  rules_at-add_rule :
      (q : ℕ) (r : SeccompRule S) (m : List (ℕ × List (SeccompRule S)))
      → IsOrdered m
      → rules_at q (add_rule r m) ≡ rules_at q m ++ (if r.syscall == q then r ∷ [] else [])
  unfolding add_rule rules_at
  rules_at-add_rule q r [] o = ground arith
  rules_at-add_rule q r ((n, rules) ∷ m) o = ground (
    arith,
    append-nil rules,
    append-nil (rules_at q m),
    rules_at-add_rule q r m,
    rules_at-Behind r.syscall m,
    Behind-trans (signed_place r.syscall) (signed_place n) m,
  )

  for_call_first :
      (q : ℕ) (r : SeccompRule S) (rs : List (SeccompRule S))
      → (if r.syscall == q then r ∷ [] else []) ++ for_call q rs ≡ for_call q (r ∷ rs)
  unfolding for_call
  for_call_first q r rs = ground arith

  -- The number of a rule's call has 32 bits.
  abbrev pub HasWord : SeccompRule S → Type 0
  HasWord r = r.syscall < 2 ^ 32

  -- From a map in its order, adding a policy keeps the order, and appends to the rules of each call
  -- those of the policy, in the policy's order; nothing else changes.
  pub add_policy-rules_at :
      (rs : List (SeccompRule S)) (m : List (ℕ × List (SeccompRule S)))
      → All HasWord rs
      → IsOrdered m
      → IsOrdered (add_policy rs m)
        × ((q : ℕ) → rules_at q (add_policy rs m) ≡ rules_at q m ++ for_call q rs)
  unfolding add_policy for_call
  add_policy-rules_at [] m h o = (o, λ q. sym (append-nil (rules_at q m)))
  add_policy-rules_at (r ∷ rs) m h o =
      let (ordered, rest) =
        add_policy-rules_at rs (add_rule r m) h.1 (add_rule-IsOrdered r m h.0 o) in
      (
        ordered,
        λ q.
            rest q
            ∙ (ap (λ l. l ++ for_call q rs) (rules_at-add_rule q r m o)
                ∙ (append_assoc (rules_at q m) (if r.syscall == q then r ∷ [] else [])
                      (for_call q rs)
                    ∙ ap (λ l. rules_at q m ++ l) (for_call_first q r rs))),
      )
