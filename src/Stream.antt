-- ===== src/Stream.antt =====
-- What the source uses of std::istream: skipping white space, extracting an unsigned 64-bit number
-- or a word, and ignoring up to a delimiter. A stream is the text that is left to read.
pub mod Numbers
use sio2jail.Common.{
  ℕ, ◌-◌, ◌^◌, Bool, true, false, ◌&&◌, ◌||◌, ltb, leb, ◌==◌, if◌then◌else◌, Text, [], ◌∷◌, Option,
  none, some, u64, is_digit, read_digits,
}

unfoldable pub is_space : ℕ → Bool
is_space c = c == 32 || (leb 9 c && leb c 13)

unfoldable pub skip_spaces : Text → Text
unfolding is_space
skip_spaces [] = []
skip_spaces (c ∷ cs) = if is_space c then skip_spaces cs else c ∷ cs

unfoldable pub starts_with_digit : Text → Bool
starts_with_digit [] = false
starts_with_digit (c ∷ cs) = is_digit c

-- The digits after the sign: at least one, and a value that fits into 64 bits. A minus sign wraps.
unfoldable pub extract_digits : Bool → Text → Option (ℕ × Text)
unfolding starts_with_digit
extract_digits minus t =
    if starts_with_digit t
    then if ltb (read_digits 0 t).0 (2 ^ 64)
      then some (
        if minus then u64 (2 ^ 64 - (read_digits 0 t).0) else (read_digits 0 t).0,
        (read_digits 0 t).1,
      )
      else none
    else none

unfoldable pub extract_signed : Text → Option (ℕ × Text)
unfolding extract_digits
extract_signed [] = none
extract_signed (c ∷ cs) =
    if c == b'-'
    then extract_digits true cs
    else if c == b'+'
    then extract_digits false cs
    else extract_digits false (c ∷ cs)

-- `stream >> number`; `none` is the failed state.
unfoldable pub extract_u64 : Text → Option (ℕ × Text)
unfolding extract_signed
extract_u64 t = extract_signed (skip_spaces t)

unfoldable pub take_word : Text → Text
take_word [] = []
take_word (c ∷ cs) = if is_space c then [] else c ∷ take_word cs

unfoldable pub is_empty : Text → Bool
is_empty [] = true
is_empty (c ∷ cs) = false

-- `stream >> word`; what follows the word is never read by the source.
unfoldable pub extract_word : Text → Option Text
unfolding take_word is_empty
extract_word t = if is_empty (skip_spaces t) then none else some (take_word (skip_spaces t))

-- `ignore(max, delimiter)` where the stream stays good: `none` when the end is reached first.
unfoldable pub ignore_until : ℕ → Text → Option Text
ignore_until d [] = none
ignore_until d (c ∷ cs) = if c == d then some cs else ignore_until d cs
