-- ===== src/Common.antt =====
-- The names that the other modules share: those of the libraries, passed on, and those of six
-- children (Boolean tests, lists over the native numbers, text, decimal numerals, machine words, bits).
mod Tests
mod Lists
mod Bytes
mod Decimal
mod Words
mod Bits
pub use Tests.*
pub use Lists.*
unfoldable pub use Bytes.*
unfoldable pub use Decimal.*
pub use Words.*
unfoldable pub use Bits.*
pub use Prim.Native.Nat.{ℕ, zero, suc, ◌+◌, ◌-◌, ◌*◌, ◌/◌, ◌%◌, ◌^◌, ◌≤◌, ◌<◌}
pub use Prim.Native.String.{String}
pub use mathlib.Core.Path.{◌≡◌, refl, sym, ap, subst, ◌∙◌}
pub use mathlib.Core.Logic.{◌≢◌, ◌↔◌, ◌⊎◌, inl, inr}
pub use mathlib.Core.Bool.{Bool, true, false, not, ◌&&◌, ◌||◌}
pub use mathlib.Core.Option.{Option, none, some}
pub use mathlib.Core.List.{List, [], ◌∷◌, ◌++◌, map, Nodup, Perm, append_assoc, append-nil}
pub use native.Mathlib.Omega.{arith}
unfoldable pub use native.Mathlib.Decide.{dec_lt, dec_le, ℕ_discrete}
