-- ===== src/Seccomp/Context/RuleId.antt =====
-- The id that a trace message carries gives back the rule set and the architecture.
use Prim.Native.Nat.{bit_or, bit_and}
use mathlib.Core.Option
use sio2jail.Common.{
  ◌-◌, suc, zero, List, [], ◌∷◌, get_elem?, ℕ, ◌+◌, ◌*◌, ◌/◌, ◌%◌, ◌^◌, ◌<◌, ◌≡◌, refl, u32, arith,
  bit_or_halves, bit_and_halves, bit_or-zero, bit_and-zero,
}
use sio2jail.Seccomp.Context.{
  SeccompRule, rules_by_id, stable_sort, arch_code, arch_of, rule_id, message_arch, message_group,
}
use sio2jail.Tracer.Tracee.{Arch}

bit_or-shifted : (g a : ℕ) → a < 8 → bit_or (g * 8) a ≡ g * 8 + a
bit_or-shifted g a h =
    let high : g * 8 / 2 / 2 / 2 ≡ g = omega arith in
    let low : a / 2 / 2 / 2 ≡ 0 = omega arith in
    let top : bit_or (g * 8 / 2 / 2 / 2) (a / 2 / 2 / 2) ≡ g = rw (high, low) (bit_or-zero g) in
    omega (
      arith,
      top,
      bit_or_halves (g * 8) a,
      bit_or_halves (g * 8 / 2) (a / 2),
      bit_or_halves (g * 8 / 2 / 2) (a / 2 / 2),
    )

bit_and-seven : (a : ℕ) → bit_and a 7 ≡ a % 8
bit_and-seven a = omega (
  arith,
  bit_and_halves a 7,
  bit_and_halves (a / 2) 3,
  bit_and_halves (a / 2 / 2) 1,
  bit_and-zero (a / 2 / 2 / 2),
)

arch_of-arch_code : (arch : Arch) → arch_of (arch_code arch) ≡ arch
unfolding arch_of arch_code
arch_of-arch_code Arch.unknown = refl
arch_of-arch_code Arch.x86 = refl
arch_of-arch_code Arch.x86_64 = refl

arch_code-bound : (arch : Arch) → arch_code arch < 8
unfolding arch_code
arch_code-bound Arch.unknown = omega arith
arch_code-bound Arch.x86 = omega arith
arch_code-bound Arch.x86_64 = omega arith

-- An id without cut: the number of the set, and the architecture in its three low bits.
pub rule_id_plain :
    (group : ℕ) (arch : Arch) → group < 2 ^ 29 → rule_id group arch ≡ group * 8 + arch_code arch
unfolding rule_id
rule_id_plain group arch h =
    let fits : u32 (group * 2 ^ 3) ≡ group * 8 = omega arith in
    rw fits (bit_or-shifted group (arch_code arch) (arch_code-bound arch))

rule_id_small :
    (group : ℕ) (arch : Arch)
    → group < 2 ^ 13
    → rule_id group arch % 2 ^ 16 ≡ group * 8 + arch_code arch
rule_id_small group arch h =
    rw (rule_id_plain group arch (omega arith)) (let small = arch_code-bound arch in omega arith)

-- If the number of the rule set is below 2 ^ 13, then both parts of an id are read back from the 16
-- bits of it that the kernel's filter returns.
pub message-rule_id :
    (group : ℕ) (arch : Arch)
    → group < 2 ^ 13
    → (message_group (rule_id group arch % 2 ^ 16) ≡ group)
      × (message_arch (rule_id group arch % 2 ^ 16) ≡ arch)
unfolding message_group message_arch
message-rule_id group arch h =
    let small = arch_code-bound arch in
    let low : (group * 8 + arch_code arch) % 8 ≡ arch_code arch = omega arith in
    rw (rule_id_small group arch h)
      (omega arith, rw (bit_and-seven (group * 8 + arch_code arch), low) (arch_of-arch_code arch))

module _ {S : Type 0} where
  rules_by_id_next :
      (last i : ℕ) (sets : List (List (SeccompRule S)))
      → rules_by_id last sets (suc (last + i)) ≡ Option.map stable_sort (get_elem? sets i)
  unfolding rules_by_id
  rules_by_id_next last i [] = refl
  rules_by_id_next last zero (rules ∷ sets) = ground arith
  rules_by_id_next last (suc i) (rules ∷ sets) =
      let shift : suc last + i ≡ last + suc i = omega arith in
      let later = rules_by_id_next (suc last) i sets in ground (arith, later, shift)

  -- The id that a rule of the i-th set carries for an architecture, cut to the 16 bits that the
  -- kernel's filter returns, leads back to the rules of that set, and to the architecture, if the
  -- number of the set is below 2 ^ 13.
  pub rules_by_id-message :
      (sets : List (List (SeccompRule S))) (i : ℕ) (arch : Arch)
      → i < 2 ^ 13 - 1
      → (rules_by_id 0 sets (message_group (rule_id (suc i) arch % 2 ^ 16))
          ≡ Option.map stable_sort (get_elem? sets i))
        × (message_arch (rule_id (suc i) arch % 2 ^ 16) ≡ arch)
  rules_by_id-message sets i arch h =
      let (group, same) = message-rule_id (suc i) arch (omega arith) in
      let next = rules_by_id_next 0 i sets in
      let plain : suc (0 + i) ≡ suc i = omega arith in (rw (group, ← plain) next, same)
