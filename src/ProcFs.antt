-- ===== src/ProcFs.antt =====
-- common/ProcFS.cc: reading one field of /proc/pid/status.
pub mod Lookup
pub mod Kept
mod Examples
use sio2jail.Common.{
  ℕ, zero, suc, ◌+◌, ◌-◌, ◌*◌, ◌^◌, Bool, true, false, ◌&&◌, ◌||◌, ltb, leb, ◌==◌, if◌then◌else◌,
  Text, codes, List, [], ◌∷◌, Option, none, some, length, u64,
}
use sio2jail.Stream.{extract_u64, skip_spaces}
use sio2jail.System.{M, Outcome, done, threw, stl_exception, ◌>>=◌, pure, throw, query, read_status}

pub data Field : Type 0 where
  vm_peak vm_size sig_cgt : Field

unfoldable pub label : Field → Text
label vm_peak = codes "VmPeak"
label vm_size = codes "VmSize"
label sig_cgt = codes "SigCgt"

-- `line.compare(0, label.size(), label) == 0`.
unfoldable pub starts_with : Text → Text → Bool
starts_with [] line = true
starts_with (c ∷ l) [] = false
starts_with (c ∷ l) (d ∷ line) = if c == d then starts_with l line else false

unfoldable pub drop : ℕ → Text → Text
drop zero t = t
drop (suc n) [] = []
drop (suc n) (c ∷ t) = drop n t

-- The rest from the first byte that is no space and no tab on.
unfoldable pub skip_blanks : Text → Text
skip_blanks [] = []
skip_blanks (c ∷ t) = if c == 32 || c == 9 then skip_blanks t else c ∷ t

unfoldable pub hex_digit : ℕ → Option ℕ
hex_digit c =
    if leb b'0' c && leb c b'9'
    then some (c - b'0')
    else if leb b'a' c && leb c b'f'
    then some (c - b'a' + 10)
    else if leb b'A' c && leb c b'F'
    then some (c - b'A' + 10)
    else none

-- The value of the leading hexadecimal digits after `acc`, `none` if there are none.
unfoldable pub read_hex : Option ℕ → Text → Option ℕ
unfolding hex_digit
read_hex acc [] = acc
read_hex acc (c ∷ t) =
    let next = λ (d : ℕ). read_hex (some (elim acc [ none ↦ d | some a ↦ a * 16 + d ])) t in
    elim (hex_digit c) [ none ↦ acc | some d ↦ next d ]

unfoldable pub is_hex : Option ℕ → Bool
is_hex none = false
is_hex (some d) = true

-- The prefix 0x that base 16 allows before a digit.
unfoldable pub skip_prefix : Text → Text
unfolding is_hex hex_digit
skip_prefix [] = []
skip_prefix (c ∷ []) = c ∷ []
skip_prefix (c ∷ d ∷ []) = c ∷ d ∷ []
skip_prefix (c ∷ d ∷ e ∷ t) =
    if c == b'0' && ((d == b'x' || d == b'X') && is_hex (hex_digit e)) then e ∷ t else c ∷ d ∷ e ∷ t

unfoldable pub fits : Bool → Option ℕ → Outcome ℕ
fits minus none = threw stl_exception
fits minus (some v) =
    if ltb v (2 ^ 64) then done (if minus then u64 (2 ^ 64 - v) else v) else threw stl_exception

unfoldable pub stoull_hex : Text → Outcome ℕ
unfolding fits read_hex skip_prefix
stoull_hex [] = threw stl_exception
stoull_hex (c ∷ t) =
    if c == b'-'
    then fits true (read_hex none (skip_prefix t))
    else if c == b'+'
    then fits false (read_hex none (skip_prefix t))
    else fits false (read_hex none (skip_prefix (c ∷ t)))

unfoldable pub stoull_decimal : Text → Outcome ℕ
stoull_decimal t = elim (extract_u64 t) [ none ↦ threw stl_exception | some (v, rest) ↦ done v ]

-- Base 16 for the signal mask, 10 for the memory sizes.
unfoldable pub read_value : Field → Text → Outcome ℕ
unfolding stoull_hex stoull_decimal
read_value vm_peak t = stoull_decimal t
read_value vm_size t = stoull_decimal t
read_value sig_cgt t = stoull_hex (skip_spaces t)

-- `substr` throws where only blanks follow the label.
unfoldable pub read_line : Field → Text → Outcome ℕ
unfolding drop skip_blanks label
read_line field line =
    let text = skip_blanks (drop (length (label field) + 1) line) in
    elim text [ [] ↦ threw stl_exception | c ∷ t ↦ read_value field (c ∷ t) ]

unfoldable pub read_lines : Field → ℕ → List Text → Outcome ℕ
read_lines field default_value [] = done default_value
read_lines field default_value (line ∷ lines) = elim (starts_with (label field) line) [
  | true ↦ read_line field line
  | false ↦ read_lines field default_value lines
]

unfoldable pub lift : {A : Type 0} → Outcome A → M A
lift (done a) = pure a
lift (threw e) = throw e

unfoldable pub read_file : Field → ℕ → Option (List Text) → M ℕ
read_file field default_value none = pure default_value
read_file field default_value (some lines) = lift (read_lines field default_value lines)

unfoldable pub read_proc_fs : ℕ → Field → M ℕ
read_proc_fs pid field = do
  file ← query (read_status pid) (λ k h. k.status_file h pid)
  read_file field 0 file
