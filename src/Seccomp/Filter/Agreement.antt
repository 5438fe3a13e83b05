-- ===== src/Seccomp/Filter/Agreement.antt =====
-- The tracer's view of a filter and libseccomp's are the same.
use Prim.Native.Nat.{bit_and}
use sio2jail.Common.{
  ℕ, ◌<◌, ◌≡◌, refl, ap, Bool, true, not, ◌&&◌, ltb, leb, ◌==◌, List, [], ◌∷◌, ◌++◌, arith,
}
use sio2jail.Seccomp.Filter.{
  Compare, cmp_ne, cmp_lt, cmp_le, cmp_eq, cmp_ge, cmp_gt, cmp_masked_eq, ArgCmp, LibSeccompFilter,
  no_filter, on_argument, single, arg_eq, arg_ne, arg_le, arg_ge, arg_lt, arg_gt, masked_eq, both,
  all_of, matches,
}
use sio2jail.System.{Outcome, done}
use sio2jail.Tracer.Tracee.{Tracee, get_syscall_argument}

-- What libseccomp documents of a comparison of an argument's value.
pub record Documented (evaluate : Compare → ℕ → ℕ → ℕ → Bool) : Type 0 where
  pub ne_lem : (x a b : ℕ) → evaluate cmp_ne x a b ≡ not (x == a)
  pub lt_lem : (x a b : ℕ) → evaluate cmp_lt x a b ≡ ltb x a
  pub le_lem : (x a b : ℕ) → evaluate cmp_le x a b ≡ leb x a
  pub eq_lem : (x a b : ℕ) → evaluate cmp_eq x a b ≡ (x == a)
  pub ge_lem : (x a b : ℕ) → evaluate cmp_ge x a b ≡ leb a x
  pub gt_lem : (x a b : ℕ) → evaluate cmp_gt x a b ≡ ltb a x
  pub masked_eq_lem : (x a b : ℕ) → evaluate cmp_masked_eq x a b ≡ (bit_and x a == bit_and b a)

-- The filters that a policy can write.
pub data Expr : Type 0 where
  all : Expr
  compare : Compare → (index a b : ℕ) → Expr
  and : Expr → Expr → Expr

unfoldable pub comparison : Compare → ℕ → ℕ → ℕ → LibSeccompFilter
comparison cmp_ne i a b = arg_ne i a
comparison cmp_lt i a b = arg_lt i a
comparison cmp_le i a b = arg_le i a
comparison cmp_eq i a b = arg_eq i a
comparison cmp_ge i a b = arg_ge i a
comparison cmp_gt i a b = arg_gt i a
comparison cmp_masked_eq i a b = masked_eq i a b

unfoldable pub written : Expr → LibSeccompFilter
written all = no_filter
written (compare op i a b) = comparison op i a b
written (and e f) = both (written e) (written f)

-- The datum of a masked comparison has no bit outside the mask.
unfoldable pub WithinMask : Compare → ℕ → ℕ → Type 0
WithinMask cmp_masked_eq a b = bit_and b a ≡ b
WithinMask _ a b = Unit {0}

-- The comparisons are of the six arguments that a call has, and the masked ones have a datum within
-- the mask.
unfoldable pub InRange : Expr → Type 0
unfolding WithinMask
InRange all = Unit {0}
InRange (compare op i a b) = (i < 6) × WithinMask op a b
InRange (and e f) = InRange e × InRange f

-- All comparisons hold of the arguments.
unfoldable pub hold : (Compare → ℕ → ℕ → ℕ → Bool) → List ArgCmp → (ℕ → ℕ) → Bool
hold evaluate [] args = true
hold evaluate (c ∷ cs) args =
    evaluate c.op (args c.arg) c.datum_a c.datum_b && hold evaluate cs args

module _ (evaluate : Compare → ℕ → ℕ → ℕ → Bool) (documented : Documented evaluate)
    (tracee : Tracee) (args : ℕ → ℕ)
    (readable : (i : ℕ) → i < 6 → get_syscall_argument tracee i ≡ done (args i)) where
  all_of-append :
      (cs ds : List (Tracee → Outcome Bool)) (p q : Bool)
      → all_of cs tracee ≡ done p
      → all_of ds tracee ≡ done q
      → all_of (cs ++ ds) tracee ≡ done (p && q)
  unfolding all_of
  all_of-append [] ds p q e f = ground arith
  all_of-append (c ∷ cs) ds p q e f =
      let rest : (p : Bool) → all_of cs tracee ≡ done p → all_of (cs ++ ds) tracee ≡ done (p && q) =
        λ p e'. all_of-append cs ds p q e' f in
      ground (arith, rest p)

  hold-append :
      (cs ds : List ArgCmp)
      → hold evaluate (cs ++ ds) args ≡ hold evaluate cs args && hold evaluate ds args
  unfolding hold
  hold-append [] ds = refl
  hold-append (c ∷ cs) ds = let rest = hold-append cs ds in ground arith

  -- A single condition, if its test is what the comparison documents.
  single-agrees :
      (op : Compare) (i a b : ℕ) (test : ℕ → Bool)
      → i < 6
      → evaluate op (args i) a b ≡ test (args i)
      → matches (single i test op a b) tracee
        ≡ done (hold evaluate (single i test op a b).lib_seccomp_filter_conditions args)
  unfolding matches single all_of hold on_argument
  single-agrees op i a b test h e = let value = readable i h in ground arith

  compare_agrees :
      (op : Compare) (i a b : ℕ)
      → i < 6
      → WithinMask op a b
      → matches (comparison op i a b) tracee
        ≡ done (hold evaluate (comparison op i a b).lib_seccomp_filter_conditions args)
  unfolding comparison arg_eq arg_ne arg_le arg_ge arg_lt arg_gt masked_eq WithinMask
  compare_agrees cmp_ne i a b h m =
      single-agrees cmp_ne i a 0 (λ x. not (x == a)) h (documented.ne_lem (args i) a 0)
  compare_agrees cmp_lt i a b h m =
      single-agrees cmp_lt i a 0 (λ x. ltb x a) h (documented.lt_lem (args i) a 0)
  compare_agrees cmp_le i a b h m =
      single-agrees cmp_le i a 0 (λ x. leb x a) h (documented.le_lem (args i) a 0)
  compare_agrees cmp_eq i a b h m =
      single-agrees cmp_eq i a 0 (λ x. x == a) h (documented.eq_lem (args i) a 0)
  compare_agrees cmp_ge i a b h m =
      single-agrees cmp_ge i a 0 (λ x. leb a x) h (documented.ge_lem (args i) a 0)
  compare_agrees cmp_gt i a b h m =
      single-agrees cmp_gt i a 0 (λ x. ltb a x) h (documented.gt_lem (args i) a 0)
  compare_agrees cmp_masked_eq i a b h m =
      single-agrees cmp_masked_eq i a b (λ x. bit_and x a == b) h
        (rw (documented.masked_eq_lem (args i) a b) (ap (λ (d : ℕ). bit_and (args i) a == d) m))

  -- If the six arguments can be read, the filter compares no others, and no masked comparison has a
  -- datum with bits outside its mask, then a filter matches in the tracer where all the comparisons
  -- that are given to libseccomp hold, as it documents them, and nowhere else.
  pub matches-written :
      (e : Expr)
      → InRange e
      → matches (written e) tracee
        ≡ done (hold evaluate (written e).lib_seccomp_filter_conditions args)
  unfolding matches written hold all_of both InRange
  matches-written all h = refl
  matches-written (compare op i a b) h = compare_agrees op i a b h.0 h.1
  matches-written (and e f) h =
      rw
        (hold-append (written e).lib_seccomp_filter_conditions
          (written f).lib_seccomp_filter_conditions)
        (all_of-append (written e).filter_conditions (written f).filter_conditions _ _
          (matches-written e h.0) (matches-written f h.1))
