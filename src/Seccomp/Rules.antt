-- ===== src/Seccomp/Rules.antt =====
-- seccomp/SeccompListener.{h,cc}, addRule and addPolicy: the rules of each call, by its number. The
-- keys of the map are C ints, in their order. After the filter is made no rule can be added; that is
-- left out, for no code tries it.
pub mod Order
use sio2jail.Common.{
  ℕ, ◌+◌, ◌%◌, ◌^◌, ◌≡◌, refl, true, false, ltb, ◌==◌, if◌then◌else◌, List, [], ◌∷◌, ◌++◌, u32,
  arith,
}
use mathlib.Core.List.{append_assoc, append-nil}
use sio2jail.Seccomp.Context.{SeccompRule}

-- The place of a number of 32 bits among the signed ones.
unfoldable pub signed_place : ℕ → ℕ
signed_place n = u32 (n + 2 ^ 31)

module _ {S : Type 0} where
  unfoldable pub add_rule :
      SeccompRule S → List (ℕ × List (SeccompRule S)) → List (ℕ × List (SeccompRule S))
  unfolding signed_place
  add_rule r [] = (r.syscall, r ∷ []) ∷ []
  add_rule r ((n, rules) ∷ m) =
      let later = add_rule r m in
      if n == r.syscall
      then (n, rules ++ r ∷ []) ∷ m
      else if ltb (signed_place r.syscall) (signed_place n)
      then (r.syscall, r ∷ []) ∷ (n, rules) ∷ m
      else (n, rules) ∷ later

  unfoldable pub add_policy :
      List (SeccompRule S) → List (ℕ × List (SeccompRule S)) → List (ℕ × List (SeccompRule S))
  unfolding add_rule
  add_policy [] m = m
  add_policy (r ∷ rs) m = add_policy rs (add_rule r m)

  -- The rules of the map for a call.
  unfoldable pub rules_at : ℕ → List (ℕ × List (SeccompRule S)) → List (SeccompRule S)
  rules_at n [] = []
  rules_at n ((k, rules) ∷ m) = let rest = rules_at n m in if k == n then rules else rest

  -- The rules of a policy for a call.
  unfoldable pub for_call : ℕ → List (SeccompRule S) → List (SeccompRule S)
  for_call n [] = []
  for_call n (r ∷ rs) = let rest = for_call n rs in if r.syscall == n then r ∷ rest else rest

  unfoldable pub rule_sets : List (ℕ × List (SeccompRule S)) → List (List (SeccompRule S))
  rule_sets [] = []
  rule_sets ((n, rules) ∷ m) = rules ∷ rule_sets m
