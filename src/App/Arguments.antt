-- ===== src/App/Arguments.antt =====
-- s2japp/ApplicationArguments.cc: memory sizes, times and amounts of the command line.
pub mod Units
use sio2jail.Common.{
  ℕ, ◌+◌, ◌*◌, ◌&&◌, leb, if◌then◌else◌, Text, codes, text_eq, u64, List, [], ◌∷◌, ◌++◌, map,
  Option, none, some,
}
use sio2jail.Stream.{extract_u64, extract_word}
use sio2jail.App.{Failure, arg_exception, Result, ok, failed_with}

-- The three classes of arguments, which differ in their tables and their messages.
pub data Quantity : Type 0 where
  memory time amount : Quantity

-- The units, each with what the value is multiplied by when the unit is not this one.
abbrev pub sizes : Quantity → List (Text × ℕ)
sizes memory = (codes "b", 1024) ∷ (codes "k", 1024) ∷ (codes "m", 1024) ∷ (codes "g", 1024) ∷ []
sizes time =
    (codes "u", 1000)
    ∷ (codes "ms", 1000)
    ∷ (codes "s", 60)
    ∷ (codes "m", 60)
    ∷ (codes "h", 60)
    ∷ (codes "d", 24)
    ∷ []
sizes amount = ([], 1000) ∷ (codes "k", 1000) ∷ (codes "m", 1000) ∷ (codes "g", 1000) ∷ []

abbrev pub default_unit : Quantity → Text
default_unit memory = codes "k"
default_unit time = codes "u"
default_unit amount = []

abbrev pub bad_value : Quantity → Text
bad_value memory = codes " is not a valid memory limit"
bad_value time = codes " is not a valid time limit"
bad_value amount = codes " is not a valid amount specifier"

abbrev pub bad_unit : Quantity → Text
bad_unit memory = codes " is not a valid memory unit"
bad_unit time = codes " is not a valid time unit"
bad_unit amount = codes " is not a valid amount unit"

unfoldable pub tolower : ℕ → ℕ
tolower c = if leb b'A' c && leb c b'Z' then c + 32 else c

-- The loop over the units; the value wraps at 64 bits.
unfoldable pub scale : Text → List (Text × ℕ) → ℕ → Option ℕ
unfolding text_eq
scale unit [] value = none
scale unit ((size, multiplier) ∷ rest) value =
    let later = scale unit rest (u64 (value * multiplier)) in
    if text_eq size unit then some value else later

unfoldable pub unit_of : Quantity → Option Text → Text
unit_of q (some word) = word
unit_of q none = default_unit q

unfoldable pub scaled : Quantity → Text → Option ℕ → Result ℕ
scaled q unit (some value) = ok value
scaled q unit none = failed_with (arg_exception (unit ++ bad_unit q))

unfoldable pub assign_number : Quantity → Text → Option (ℕ × Text) → Result ℕ
unfolding scale unit_of scaled extract_word
assign_number q str none = failed_with (arg_exception (str ++ bad_value q))
assign_number q str (some (value, rest)) =
    let unit = unit_of q (extract_word rest) in scaled q unit (scale unit (sizes q) value)

-- `operator=` of the argument's class.
unfoldable pub assign : Quantity → Text → Result ℕ
unfolding assign_number tolower extract_u64
assign q str = assign_number q str (extract_u64 (map tolower str))
