-- ===== src/Common/Decimal.antt =====
-- Decimal numerals: what `operator<<` of an output stream writes for an unsigned number, and the
-- digits that the extraction of a number consumes.
use Prim.Native.Nat.{ℕ, zero, suc, ◌+◌, ◌-◌, ◌*◌, ◌/◌, ◌%◌, ◌<◌}
use mathlib.Core.Path.{◌≡◌, refl, ◌∙◌, ap}
use mathlib.Core.Logic.{inl, inr}
use mathlib.Core.Bool.{Bool, true, false, ◌&&◌}
use mathlib.Core.List.{[], ◌∷◌, ◌++◌, append_assoc}
use native.Mathlib.Omega.{arith}
use sio2jail.Common.Tests.{ltb, leb, if◌then◌else◌, Bool-cases, ltb→lt}
use sio2jail.Common.Bytes.{Text}
use sio2jail.Common.Lists.{All, All-append}

unfoldable pub is_digit : ℕ → Bool
is_digit c = leb b'0' c && leb c b'9'

show_fuel : ℕ → ℕ → Text
show_fuel zero n = []
show_fuel (suc f) n = elim (ltb n 10) [
  | true ↦ (b'0' + n) ∷ []
  | false ↦ show_fuel f (n / 10) ++ (b'0' + n % 10) ∷ []
]

-- `std::to_string` and `<<` of an unsigned number.
unfoldable pub show : ℕ → Text
unfolding show_fuel
show n = show_fuel (suc n) n

-- The value of the leading digits, after `acc`, and the text that follows them.
unfoldable pub read_digits : ℕ → Text → ℕ × Text
unfolding is_digit
read_digits acc [] = (acc, [])
read_digits acc (c ∷ cs) =
    if is_digit c then read_digits (acc * 10 + (c - b'0')) cs else (acc, c ∷ cs)

-- What the digits of `n` multiply an accumulator by.
weight : ℕ → ℕ → ℕ
weight zero n = 1
weight (suc f) n = elim (ltb n 10) [ true ↦ 10 | false ↦ weight f (n / 10) * 10 ]

read_digit :
    (acc d : ℕ) (rest : Text)
    → d < 10
    → read_digits acc ((b'0' + d) ∷ rest) ≡ read_digits (acc * 10 + d) rest
unfolding read_digits
read_digit acc d rest h = ground arith

-- The text does not go on with a digit.
abbrev pub StopsDigits : Text → Type 0
StopsDigits [] = Unit {0}
StopsDigits (c ∷ cs) = is_digit c ≡ false

read_digits-stop : (n : ℕ) (rest : Text) → StopsDigits rest → read_digits n rest ≡ (n, rest)
unfolding read_digits
read_digits-stop n [] h = refl
read_digits-stop n (c ∷ cs) h = rw h

read_digits-show_fuel :
    (f n acc : ℕ) (rest : Text)
    → n < f
    → read_digits acc (show_fuel f n ++ rest) ≡ read_digits (acc * weight f n + n) rest
unfolding show_fuel weight
read_digits-show_fuel zero n acc rest h = absurd (omega arith)
read_digits-show_fuel (suc f) n acc rest h = elim (Bool-cases (ltb n 10)) [
  | inl small ↦ rw (small, show_fuel, weight) (read_digit acc n rest (ltb→lt _ _ small))
  | inr large ↦
      rw (large, show_fuel, weight, append_assoc (show_fuel f (n / 10)) ((b'0' + n % 10) ∷ []) rest)
        (read_digits-show_fuel f (n / 10) acc ((b'0' + n % 10) ∷ rest) (ground arith)
          ∙ read_digit (acc * weight f (n / 10) + n / 10) (n % 10) rest (omega arith)
          ∙ ap (λ k. read_digits k rest) (omega arith))
]

-- A printed number is read back, up to the end of its digits.
pub read_digits-show :
    (n : ℕ) (rest : Text) → StopsDigits rest → read_digits 0 (show n ++ rest) ≡ (n, rest)
unfolding show
read_digits-show n rest h =
    read_digits-show_fuel (suc n) n 0 rest (omega arith)
    ∙ ap (λ k. read_digits k rest) (omega arith)
    ∙ read_digits-stop n rest h

show_fuel_head :
    (f n : ℕ) → n < f → (c : ℕ) × (t : Text) × (show_fuel f n ≡ c ∷ t) × (is_digit c ≡ true)
unfolding show_fuel is_digit
show_fuel_head zero n h = absurd (omega arith)
show_fuel_head (suc f) n h = elim (Bool-cases (ltb n 10)) [
  | inl small ↦ (b'0' + n, [], rw (small, show_fuel), ground arith)
  | inr large ↦
      let (c, t, e, d) = show_fuel_head f (n / 10) (ground arith) in
      (c, t ++ (b'0' + n % 10) ∷ [], rw (large, show_fuel) (rw e), d)
]

-- A printed number begins with a digit.
pub show_head : (n : ℕ) → (c : ℕ) × (t : Text) × (show n ≡ c ∷ t) × (is_digit c ≡ true)
unfolding show
show_head n = show_fuel_head (suc n) n (omega arith)

show_fuel_digits : (f n : ℕ) → All (λ c. is_digit c ≡ true) (show_fuel f n)
unfolding show_fuel is_digit
show_fuel_digits zero n = tt
show_fuel_digits (suc f) n = elim (Bool-cases (ltb n 10)) [
  | inl small ↦ rw (small, show_fuel) (ground arith, tt)
  | inr large ↦
      rw (large, show_fuel)
        (All-append _ (show_fuel f (n / 10)) _ (show_fuel_digits f (n / 10)) (ground arith, tt))
]

-- A printed number consists of digits.
pub show_digits : (n : ℕ) → All (λ c. is_digit c ≡ true) (show n)
unfolding show
show_digits n = show_fuel_digits (suc n) n
