-- ===== src/Seccomp/Filter.antt =====
-- seccomp/filter/LibSeccompFilter.{h,cc}. A filter is kept twice: as conditions that the tracer
-- evaluates, and as the comparisons that are given to libseccomp.
pub mod Agreement
use Prim.Native.Nat.{bit_and}
pub use sio2jail.Seccomp.Library.{
  Compare, ArgCmp, cmp_ne, cmp_lt, cmp_le, cmp_eq, cmp_ge, cmp_gt, cmp_masked_eq,
}
use sio2jail.Common.{ℕ, Bool, true, false, not, ltb, leb, ◌==◌, List, [], ◌∷◌, ◌++◌}
use sio2jail.System.{Outcome, done, threw}
use sio2jail.Tracer.Tracee.{Tracee, get_syscall_argument}

pub record LibSeccompFilter : Type 0 where
  pub filter_conditions : List (Tracee → Outcome Bool)
  pub lib_seccomp_filter_conditions : List ArgCmp

abbrev pub no_filter : LibSeccompFilter
no_filter = record { filter_conditions = []; lib_seccomp_filter_conditions = [] }

-- A condition on the argument, which throws where the argument cannot be read.
unfoldable pub on_argument : ℕ → (ℕ → Bool) → Tracee → Outcome Bool
on_argument index test tracee = elim (get_syscall_argument tracee index) [
  | done x ↦ done (test x)
  | threw e ↦ threw e
]

unfoldable pub single : ℕ → (ℕ → Bool) → Compare → ℕ → ℕ → LibSeccompFilter
single index test op a b = record {
  filter_conditions = on_argument index test ∷ [];
  lib_seccomp_filter_conditions = record { arg = index; op = op; datum_a = a; datum_b = b } ∷ [];
}

-- The operators of `SyscallArg`.
unfoldable pub arg_eq : ℕ → ℕ → LibSeccompFilter
arg_eq index data_ = single index (λ x. x == data_) cmp_eq data_ 0

unfoldable pub arg_ne : ℕ → ℕ → LibSeccompFilter
arg_ne index data_ = single index (λ x. not (x == data_)) cmp_ne data_ 0

unfoldable pub arg_le : ℕ → ℕ → LibSeccompFilter
arg_le index data_ = single index (λ x. leb x data_) cmp_le data_ 0

unfoldable pub arg_ge : ℕ → ℕ → LibSeccompFilter
arg_ge index data_ = single index (λ x. leb data_ x) cmp_ge data_ 0

unfoldable pub arg_lt : ℕ → ℕ → LibSeccompFilter
arg_lt index data_ = single index (λ x. ltb x data_) cmp_lt data_ 0

unfoldable pub arg_gt : ℕ → ℕ → LibSeccompFilter
arg_gt index data_ = single index (λ x. ltb data_ x) cmp_gt data_ 0

-- `MaskedSyscallArg`.
unfoldable pub masked_eq : ℕ → ℕ → ℕ → LibSeccompFilter
masked_eq index mask data_ = single index (λ x. bit_and x mask == data_) cmp_masked_eq mask data_

-- `operator&&`.
unfoldable pub both : LibSeccompFilter → LibSeccompFilter → LibSeccompFilter
both f g = record {
  filter_conditions = f.filter_conditions ++ g.filter_conditions;
  lib_seccomp_filter_conditions =
      f.lib_seccomp_filter_conditions ++ g.lib_seccomp_filter_conditions;
}

-- `std::all_of`, which stops at the first condition that does not hold.
unfoldable pub all_of : List (Tracee → Outcome Bool) → Tracee → Outcome Bool
all_of [] tracee = done true
all_of (c ∷ cs) tracee = elim (c tracee) [
  | done true ↦ all_of cs tracee
  | done false ↦ done false
  | threw e ↦ threw e
]

unfoldable pub matches : LibSeccompFilter → Tracee → Outcome Bool
matches f tracee = all_of f.filter_conditions tracee
