-- ===== src/Seccomp/Examples.antt =====
-- The theorems on seccomp at concrete inputs.
use Prim.Native.Nat.{bit_and}
use sio2jail.Common.{
  ℕ, ◌≡◌, ◌≤◌, ◌<◌, ◌%◌, ◌^◌, inl, inr, refl, Bool, true, false, not, ltb, leb, ◌==◌, if◌then◌else◌,
  List, [], ◌∷◌, Option, none, some, Text, codes, arith, ◌++◌,
}
use sio2jail.Seccomp.Action.{type_of, allow, kill}
use sio2jail.Seccomp.Context.{
  SeccompRule, rule_id, message_arch, message_group, stable_sort, rules_by_id,
}
use sio2jail.Seccomp.Context
use sio2jail.Seccomp.Context.Order.{IsSorted, of_type, stable_sort_lem}
use sio2jail.Seccomp.Context.RuleId.{rules_by_id-message}
use sio2jail.Seccomp.Context.Builder.Given.{AddedAsPlanned, add_sets-AddedAsPlanned}
use sio2jail.Seccomp.Rules.{add_policy, rules_at, for_call}
use sio2jail.Seccomp.Rules.Order.{IsOrdered, add_policy-rules_at}
use sio2jail.Seccomp.Filter.{
  Compare, cmp_ne, cmp_lt, cmp_le, cmp_eq, cmp_ge, cmp_gt, cmp_masked_eq, no_filter, matches,
  arg_ge, all_of, single, on_argument,
}
use sio2jail.Seccomp.Filter.Agreement.{
  Documented, InRange, WithinMask, compare, and, written, hold, matches-written,
}
use sio2jail.Printer.{KillReason, set_kill_reason}
use sio2jail.Seccomp.Listener.{Seccomp, choose, stronger}
use sio2jail.Seccomp.Listener.Choice.{choose_strongest}
use sio2jail.Seccomp.Policy.{PolicyState, default_policy, rules_of}
use sio2jail.Seccomp.Policy.Decisions.{open_allowed, resolve_all}
use sio2jail.Executor.Event.{ExecuteEvent}
use sio2jail.Seccomp.TimeRandomizer
use sio2jail.Seccomp.TimeRandomizer.Emulated.{behind, on_trace_event_emulates}
use sio2jail.System.{Kernel, World, done, ptrace_peektext, ptrace_setregs}
use sio2jail.System.Sample.{sample_kernel, sample_world, sample_regs}
use sio2jail.Tracer.Action.{TraceAction}
use sio2jail.Tracer.Tracee.{Tracee, Arch, get_syscall_argument, argument_under}

abbrev tracee : Tracee
tracee = record {
  pid = 100;
  regs = sample_regs;
  signal_suppressed = false;
  syscall_arch = Arch.x86_64;
}

abbrev evaluate : Compare → ℕ → ℕ → ℕ → Bool
evaluate cmp_ne x a b = not (x == a)
evaluate cmp_lt x a b = ltb x a
evaluate cmp_le x a b = leb x a
evaluate cmp_eq x a b = x == a
evaluate cmp_ge x a b = leb a x
evaluate cmp_gt x a b = ltb a x
evaluate cmp_masked_eq x a b = bit_and x a == bit_and b a

documented : Documented evaluate
documented = record {
  ne_lem = λ x a b. refl;
  lt_lem = λ x a b. refl;
  le_lem = λ x a b. refl;
  eq_lem = λ x a b. refl;
  ge_lem = λ x a b. refl;
  gt_lem = λ x a b. refl;
  masked_eq_lem = λ x a b. refl;
}

abbrev rule_a : SeccompRule PolicyState
rule_a = record { syscall = 1; action = allow; filter = no_filter }

abbrev rule_k : SeccompRule PolicyState
rule_k = record { syscall = 1; action = kill; filter = arg_ge 0 3 }

rules_by_id-message_example :
    (rules_by_id 0
        ((rule_a ∷ []) ∷ (rule_k ∷ []) ∷ [])
        (message_group (rule_id 2 Arch.x86_64 % 2 ^ 16))
      ≡ some (rule_k ∷ []))
    × (message_arch (rule_id 2 Arch.x86_64 % 2 ^ 16) ≡ Arch.x86_64)
unfolding stable_sort Context.insert
rules_by_id-message_example =
    rules_by_id-message ((rule_a ∷ []) ∷ (rule_k ∷ []) ∷ []) 1 Arch.x86_64 (omega arith)

-- Every call gives 0.
abbrev zero_kernel : Kernel
zero_kernel = record sample_kernel {
  reply = λ h c. record { failed = false; value = 0; errno = 0 };
}

add_sets-AddedAsPlanned_example :
    AddedAsPlanned zero_kernel (λ h c a n cs. refl) 7 8 0 ((rule_a ∷ rule_k ∷ []) ∷ [])
add_sets-AddedAsPlanned_example =
    add_sets-AddedAsPlanned zero_kernel (λ h c a n cs. refl) 7 8 0 ((rule_a ∷ rule_k ∷ []) ∷ [])
      (omega arith)

-- The map before a policy is added.
abbrev other_rule : SeccompRule PolicyState
other_rule = record { syscall = 0; action = allow; filter = no_filter }

abbrev one_call : List (ℕ × List (SeccompRule PolicyState))
one_call = (1, rule_a ∷ []) ∷ []

add_policy-rules_at_example :
    IsOrdered (add_policy (rule_k ∷ other_rule ∷ []) one_call)
    × ((q : ℕ)
        → rules_at q (add_policy (rule_k ∷ other_rule ∷ []) one_call)
          ≡ rules_at q one_call ++ for_call q (rule_k ∷ other_rule ∷ []))
add_policy-rules_at_example =
    add_policy-rules_at (rule_k ∷ other_rule ∷ []) one_call (omega arith, (omega arith, tt))
      (omega arith, tt, tt)

stable_sort_lem_example :
    IsSorted (stable_sort (rule_a ∷ rule_k ∷ []))
    × ((t : ℕ) → of_type t (stable_sort (rule_a ∷ rule_k ∷ [])) ≡ of_type t (rule_a ∷ rule_k ∷ []))
stable_sort_lem_example = stable_sort_lem (rule_a ∷ rule_k ∷ [])

choose_strongest_example : type_of rule_k.action ≤ type_of rule_k.action
unfolding choose stronger matches all_of arg_ge single on_argument get_syscall_argument
    argument_under type_of
choose_strongest_example =
    choose_strongest tracee (rule_a ∷ rule_k ∷ []) none kill rule_k refl (inr (inl refl)) refl

-- The set of the call has a rule to kill after one that allows.
abbrev listener : Seccomp ℕ
listener = record { last_syscall_arch = Arch.x86_64; handlers = 0 }

abbrev kill_rule : SeccompRule ℕ
kill_rule = record { syscall = 1; action = kill; filter = no_filter }

abbrev two_rules : List (SeccompRule ℕ)
two_rules = record { syscall = 1; action = allow; filter = no_filter } ∷ kill_rule ∷ []

abbrev write_name : Arch → ℕ → Option Text
write_name arch number = some (codes "write")

abbrev denied_world : World
denied_world = record sample_world {
  output =
      set_kill_reason KillReason.rv
        (codes "intercepted forbidden syscall " ++ codes "write(1) (5, 4, 3, 9, 7, 8)")
        sample_world.output;
}

-- The values of the arguments of the sample registers.
abbrev argument_values : ℕ → ℕ
argument_values i =
    if i == 0
    then 5
    else if i == 1
    then 4
    else if i == 2
    then 3
    else if i == 3
    then 9
    else if i == 4
    then 7
    else 8

readable : (i : ℕ) → i < 6 → get_syscall_argument tracee i ≡ done (argument_values i)
unfolding get_syscall_argument argument_under
readable i h = ground arith

matches-written_example :
    matches (written (and (compare cmp_ge 0 3 0) (compare cmp_masked_eq 1 7 4))) tracee
    ≡ done (
        hold evaluate
          (written (
            and (compare cmp_ge 0 3 0) (compare cmp_masked_eq 1 7 4))).lib_seccomp_filter_conditions
          argument_values)
unfolding InRange WithinMask
matches-written_example =
    matches-written evaluate documented tracee argument_values readable
      (and (compare cmp_ge 0 3 0) (compare cmp_masked_eq 1 7 4))
      ((omega arith, tt), (omega arith, refl))

open_allowed_example :
    choose (resolve_all (λ t. some 2) (rules_of (codes "open") (default_policy false))) tracee none
    ≡ done (some allow)
unfolding get_syscall_argument argument_under
open_allowed_example = open_allowed false (λ t. some 2) 2 4 tracee refl refl

-- Every word that is read starts with the bytes of RDTSC.
abbrev clock_kernel : Kernel
clock_kernel = record sample_kernel {
  reply = λ h c. record { failed = false; value = 0x310F; errno = 0 };
}

abbrev fault : ExecuteEvent
fault = record {
  pid = 100;
  exit_status = 0;
  signal = 11;
  exited = false;
  killed = false;
  stopped = true;
  trapped = false;
}

on_trace_event_emulates_example :
    TimeRandomizer.on_trace_event true fault tracee clock_kernel sample_world
    ≡ done (
      (TraceAction.continue, behind 2 (0, 0) tracee),
      record sample_world {
        history = ptrace_setregs 100 (behind 2 (0, 0) tracee).regs ∷ ptrace_peektext 100 4096 ∷ [];
      },
    )
on_trace_event_emulates_example =
    on_trace_event_emulates true fault tracee 0 2 clock_kernel sample_world refl refl
      (inl (refl, refl)) (λ h c. refl)
