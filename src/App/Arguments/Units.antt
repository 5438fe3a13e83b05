-- ===== src/App/Arguments/Units.antt =====
-- A printed number with a unit is read as so many bytes, microseconds or instructions.
use mathlib.Core.List.{map-append}
use sio2jail.Common.{
  ℕ, ◌*◌, ◌^◌, ◌<◌, ◌≡◌, refl, ◌∙◌, ap, true, Text, codes, u64, List, [], ◌∷◌, ◌++◌, map, All, In,
  All-In, some, arith, is_digit, show, show_digits, StopsDigits,
}
use sio2jail.Stream.{is_space, skip_spaces, is_empty, take_word, extract_word}
use sio2jail.Stream.Numbers.{extract_u64-show}
use sio2jail.App.{ok}
use sio2jail.App.Arguments.{
  Quantity, memory, time, amount, tolower, scale, unit_of, scaled, assign_number, assign,
}

-- The units of the options' help, with the size that each stands for, the default where there is
-- none. They are those of the help, but for a day, which counts as 60 hours.
abbrev pub unit_sizes : Quantity → List (Text × ℕ)
unit_sizes memory =
    ([], 1024)
    ∷ (codes "b", 1)
    ∷ (codes "k", 1024)
    ∷ (codes "m", 1024 ^ 2)
    ∷ (codes "g", 1024 ^ 3)
    ∷ []
unit_sizes time =
    ([], 1)
    ∷ (codes "u", 1)
    ∷ (codes "ms", 1000)
    ∷ (codes "s", 1000 * 1000)
    ∷ (codes "m", 60 * 1000 * 1000)
    ∷ (codes "h", 60 * 60 * 1000 * 1000)
    ∷ (codes "d", 60 * 60 * 60 * 1000 * 1000)
    ∷ []
unit_sizes amount = ([], 1) ∷ (codes "k", 10 ^ 3) ∷ (codes "m", 10 ^ 6) ∷ (codes "g", 10 ^ 9) ∷ []

abbrev ReadsUnit : Quantity → Text → ℕ → Text × ℕ → Type 0
ReadsUnit q str n entry =
    StopsDigits entry.0 × (assign_number q str (some (n, entry.0)) ≡ ok (u64 (n * entry.1)))

hours :
    (n : ℕ) → u64 (u64 (u64 (u64 (n * 1000) * 1000) * 60) * 60) ≡ u64 (n * (60 * 60 * 1000 * 1000))
hours n = omega arith

read_units :
    (q : Quantity) (str : Text) (n : ℕ) → n < 2 ^ 64 → All (ReadsUnit q str n) (unit_sizes q)
unfolding assign_number is_space skip_spaces is_empty take_word scale unit_of scaled extract_word
    is_digit
read_units memory str n h = (
  (tt, ap ok (omega arith)),
  (
    (refl, ap ok (omega arith)),
    ((refl, ap ok (omega arith)), ((refl, ap ok (omega arith)), ((refl, ap ok (omega arith)), tt))),
  ),
)
read_units time str n h = (
  (tt, ap ok (omega arith)),
  (
    (refl, ap ok (omega arith)),
    (
      (refl, ap ok (omega arith)),
      (
        (refl, ap ok (omega arith)),
        (
          (refl, ap ok (omega arith)),
          (
            (refl, ap ok (omega arith)),
            ((refl, ap ok (ap (λ v. u64 (v * 60)) (hours n) ∙ omega arith)), tt),
          ),
        ),
      ),
    ),
  ),
)
read_units amount str n h = (
  (tt, ap ok (omega arith)),
  ((refl, ap ok (omega arith)), ((refl, ap ok (omega arith)), ((refl, ap ok (omega arith)), tt))),
)

map-tolower-digits : (t : Text) → All (λ c. is_digit c ≡ true) t → map tolower t ≡ t
unfolding tolower is_digit
map-tolower-digits [] h = refl
map-tolower-digits (c ∷ t) h = ground (arith, map-tolower-digits t h.1)

-- A 64-bit number, printed, with a unit of the table, in any case, or with none where the table has
-- a default, is read as that many bytes, microseconds or instructions, but modulo 2 ^ 64; a day is
-- 60 hours.
pub assign-show :
    (q : Quantity) (n factor : ℕ) (suffix unit : Text)
    → n < 2 ^ 64
    → map tolower suffix ≡ unit
    → In (unit, factor) (unit_sizes q)
    → assign q (show n ++ suffix) ≡ ok (u64 (n * factor))
unfolding assign
assign-show q n factor suffix unit hn hs hi =
    let reads = All-In _ (unit, factor) (unit_sizes q) (read_units q (show n ++ suffix) n hn) hi in
    let lower : map tolower (show n ++ suffix) ≡ show n ++ unit =
      map-append tolower (show n) suffix
      ∙ ap (λ t. t ++ map tolower suffix) (map-tolower-digits (show n) (show_digits n))
      ∙ ap (λ t. show n ++ t) hs in
    rw (lower, extract_u64-show n unit hn reads.0) reads.1
