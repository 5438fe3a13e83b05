-- ===== src/Seccomp/Context/Order.antt =====
-- The order of the rules of a call.
use sio2jail.Common.{ℕ, ◌≡◌, ◌≤◌, refl, ◌==◌, if◌then◌else◌, List, [], ◌∷◌, arith}
use sio2jail.Seccomp.Action.{type_of}
use sio2jail.Seccomp.Context.{SeccompRule, insert, stable_sort}

module _ {S : Type 0} where
  -- Each rule's type is no higher than that of the one before.
  unfoldable pub IsSorted : List (SeccompRule S) → Type 0
  IsSorted [] = Unit {0}
  IsSorted (r ∷ []) = Unit {0}
  IsSorted (r ∷ s ∷ ss) = (type_of s.action ≤ type_of r.action) × IsSorted (s ∷ ss)

  -- The rules of one type, in their order.
  unfoldable pub of_type : ℕ → List (SeccompRule S) → List (SeccompRule S)
  of_type t [] = []
  of_type t (r ∷ rs) = let rest = of_type t rs in if type_of r.action == t then r ∷ rest else rest

  insert-IsSorted :
      (r : SeccompRule S) (rs : List (SeccompRule S)) → IsSorted rs → IsSorted (insert r rs)
  unfolding insert IsSorted
  insert-IsSorted r [] h = tt
  insert-IsSorted r (s ∷ []) h = ground arith
  insert-IsSorted r (s ∷ s' ∷ ss) h = let rest = insert-IsSorted r (s' ∷ ss) h.1 in ground arith

  of_type-insert :
      (t : ℕ) (r : SeccompRule S) (rs : List (SeccompRule S))
      → of_type t (insert r rs) ≡ of_type t (r ∷ rs)
  unfolding insert of_type
  of_type-insert t r [] = refl
  of_type-insert t r (s ∷ ss) = let rest = of_type-insert t r ss in ground arith

  -- The sorted rules are in falling order of type, and the rules of each type are the given ones in
  -- the given order.
  pub stable_sort_lem :
      (rs : List (SeccompRule S))
      → IsSorted (stable_sort rs) × ((t : ℕ) → of_type t (stable_sort rs) ≡ of_type t rs)
  unfolding stable_sort IsSorted of_type
  stable_sort_lem [] = (tt, λ t. refl)
  stable_sort_lem (r ∷ rs) =
      let (sorted, same) = stable_sort_lem rs in
      (
        insert-IsSorted r (stable_sort rs) sorted,
        λ t. rw (of_type-insert t r (stable_sort rs), same t) refl,
      )
