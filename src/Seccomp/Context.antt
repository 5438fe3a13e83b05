-- ===== src/Seccomp/Context.antt =====
-- seccomp/SeccompRule.h, and the ids and the order of the rules in SeccompContext.cc and
-- SeccompListener::onPreFork. The calls of libseccomp are in Context/Builder.antt. Every filter is one
-- that libseccomp can express.
pub mod Order
pub mod RuleId
pub mod Builder
use Prim.Native.Nat.{bit_or, bit_and}
use sio2jail.Common.{
  ℕ, suc, ◌-◌, ◌*◌, ◌/◌, ◌^◌, ltb, ◌==◌, if◌then◌else◌, List, [], ◌∷◌, Option, none, some, u32,
}
use sio2jail.Seccomp.Action.{SeccompAction, type_of}
use sio2jail.Seccomp.Filter.{LibSeccompFilter}
use sio2jail.Tracer.Tracee.{Arch, x86, x86_64, unknown}

pub record SeccompRule (S : Type 0) : Type 0 where
  pub syscall : ℕ
  pub action : SeccompAction S
  pub filter : LibSeccompFilter

unfoldable pub arch_code : Arch → ℕ
arch_code Arch.unknown = 0
arch_code Arch.x86 = 1
arch_code Arch.x86_64 = 2

-- The code of an architecture; any other number is none that the tracee handles.
unfoldable pub arch_of : ℕ → Arch
arch_of n = if n == 1 then Arch.x86 else if n == 2 then Arch.x86_64 else Arch.unknown

unfoldable pub rule_id : ℕ → Arch → ℕ
rule_id group arch = bit_or (u32 (group * 2 ^ 3)) (arch_code arch)

unfoldable pub message_arch : ℕ → Arch
message_arch message = arch_of (bit_and message (2 ^ 3 - 1))

unfoldable pub message_group : ℕ → ℕ
message_group message = message / 2 ^ 3

module _ {S : Type 0} where
  -- `std::stable_sort`, the higher type first.
  unfoldable pub insert : SeccompRule S → List (SeccompRule S) → List (SeccompRule S)
  insert r [] = r ∷ []
  insert r (s ∷ ss) =
      let rest = insert r ss in
      if ltb (type_of r.action) (type_of s.action) then s ∷ rest else r ∷ s ∷ ss

  unfoldable pub stable_sort : List (SeccompRule S) → List (SeccompRule S)
  stable_sort [] = []
  stable_sort (r ∷ rs) = insert r (stable_sort rs)

  -- `rulesById_`, after all sets have been added; ids start after the given one.
  unfoldable pub rules_by_id : ℕ → List (List (SeccompRule S)) → ℕ → Option (List (SeccompRule S))
  rules_by_id last [] id = none
  rules_by_id last (rules ∷ sets) id =
      let rest = rules_by_id (suc last) sets id in
      if suc last == id then some (stable_sort rules) else rest
