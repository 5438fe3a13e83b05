-- ===== src/Perf/Config.antt =====
-- perf/PerfListener.cc: the configuration of an event from the texts in /sys/devices. What C++ leaves
-- undefined, a shift by 64 or more and a fourth field of three, is `none`.
pub mod Range
use Prim.Native.Nat.{bit_and, bit_or}
use sio2jail.Common.{
  ℕ, zero, suc, ◌+◌, ◌-◌, ◌*◌, ◌/◌, ◌^◌, Bool, true, false, not, ◌&&◌, ◌||◌, ltb, leb, ◌==◌,
  if◌then◌else◌, Text, codes, u64, u32, List, [], ◌∷◌, Option, none, some, length,
}
use sio2jail.Stream.{extract_u64}
use sio2jail.System.{Outcome, done, threw, assertion_exception, stl_exception}
use sio2jail.ProcFs.{starts_with, drop}
use sio2jail.App.BindMounts.{tokens_of}

pub record EventConfig : Type 0 where
  pub type : ℕ
  pub config0 : ℕ
  pub config1 : ℕ
  pub config2 : ℕ

abbrev pub empty : EventConfig
empty = record { type = 0; config0 = 0; config1 = 0; config2 = 0 }

-- A computation that throws, or whose behaviour is undefined.
abbrev pub Partial : Type 0 → Type 0
Partial A = Outcome (Option A)

infixl 5 ◌>>=◌
abbrev pub ◌>>=◌ : {A B : Type 0} → Partial A → (A → Partial B) → Partial B
done (some a) >>= f = f a
done none >>= f = done none
threw e >>= f = threw e

abbrev pub check : Bool → Partial (Unit {0})
check true = done (some tt)
check false = threw assertion_exception

-- "config" is field 0, and a digit after it the field of its number, up to 3.
unfoldable pub digit_field : Text → Option ℕ
digit_field [] = some 0
digit_field (c ∷ []) = if leb b'0' c && leb c b'3' then some (c - b'0') else none
digit_field _ = none

unfoldable pub config_field_number : Text → Option ℕ
unfolding starts_with drop digit_field
config_field_number name =
    if starts_with (codes "config") name then digit_field (drop 6 name) else none

-- `config[field] |= bits`.
unfoldable pub or_field : ℕ → ℕ → EventConfig → Partial EventConfig
or_field field bits c =
    if field == 0
    then done (some (record c { config0 = bit_or c.config0 bits }))
    else if field == 1
    then done (some (record c { config1 = bit_or c.config1 bits }))
    else if field == 2
    then done (some (record c { config2 = bit_or c.config2 bits }))
    else done none

-- `std::stoul`.
unfoldable pub stoul : Text → Partial ℕ
unfolding extract_u64
stoul t = elim (extract_u64 t) [ some (n, rest) ↦ done (some n) | none ↦ threw stl_exception ]

unfoldable pub range_of : List Text → Partial (ℕ × ℕ)
unfolding stoul
range_of (first ∷ []) = do start ← stoul first; done (some (start, start))
range_of (first ∷ last ∷ []) = do start ← stoul first; end ← stoul last; done (some (start, end))
range_of _ = threw assertion_exception

-- The bits of the value that the range has room for go to it; the rest of the value is left.
unfoldable pub insert_range : ℕ → ℕ × ℕ → ℕ → EventConfig → Partial (EventConfig × ℕ)
unfolding or_field
insert_range field (start, end) value c = do
  u ← check (leb start end)
  let width : ℕ = u64 (end - start + 1)
  if leb 64 width || leb 64 start then done none else (do
    c' ← or_field field (u64 (bit_and value (2 ^ width - 1) * 2 ^ start)) c
    done (some (c', value / 2 ^ width)))

unfoldable pub insert_ranges : ℕ → List Text → ℕ → EventConfig → Partial (EventConfig × ℕ)
unfolding insert_range range_of tokens_of
insert_ranges field [] value c = done (some (c, value))
insert_ranges field (s ∷ ss) value c = do
  range ← range_of (tokens_of s (codes "-"))
  (c', left) ← insert_range field range value c
  insert_ranges field ss left c'

unfoldable pub insert_under : List Text → ℕ → EventConfig → Partial EventConfig
unfolding config_field_number insert_ranges
insert_under (name ∷ ranges ∷ []) value c = elim (config_field_number name) [
  | some field ↦ (do
    (c', left) ← insert_ranges field (tokens_of ranges (codes ",")) value c
    u ← check (left == 0)
    done (some c'))
  | none ↦ threw assertion_exception
]
insert_under _ value c = threw assertion_exception

-- `insertIntoConfig`.
unfoldable pub insert_into_config : Text → ℕ → EventConfig → Partial EventConfig
unfolding insert_under tokens_of
insert_into_config format value c = insert_under (tokens_of format (codes ":")) value c
