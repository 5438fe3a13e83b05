-- ===== src/Stream/Numbers.antt =====
-- Extracting a printed number gives it back.
use sio2jail.Common.{
  ℕ, ◌^◌, ◌<◌, ◌≡◌, subst, ◌∙◌, true, false, Text, ◌∷◌, ◌++◌, some, arith, is_digit, show,
  show_head, StopsDigits, read_digits, read_digits-show, lt→ltb,
}
use sio2jail.Stream.{skip_spaces, extract_digits, extract_u64}

extract_u64-digit :
    (c : ℕ) (t : Text) → is_digit c ≡ true → extract_u64 (c ∷ t) ≡ extract_digits false (c ∷ t)
unfolding extract_u64 skip_spaces is_digit
extract_u64-digit c t h = ground arith

extract_digits-digit :
    (c : ℕ) (t rest : Text) (n : ℕ)
    → is_digit c ≡ true
    → n < 2 ^ 64
    → read_digits 0 (c ∷ t) ≡ (n, rest)
    → extract_digits false (c ∷ t) ≡ some (n, rest)
unfolding extract_digits
extract_digits-digit c t rest n h hn e = rw (h, e, lt→ltb _ _ hn)

-- A printed 64-bit number, followed by no digit, is extracted.
pub extract_u64-show :
    (n : ℕ) (rest : Text)
    → n < 2 ^ 64
    → StopsDigits rest
    → extract_u64 (show n ++ rest) ≡ some (n, rest)
extract_u64-show n rest hn hr =
    let (c, t, e, d) = show_head n in
    let read : read_digits 0 (c ∷ (t ++ rest)) ≡ (n, rest) =
      subst (λ s. read_digits 0 (s ++ rest) ≡ (n, rest)) e (read_digits-show n rest hr) in
    rw e (extract_u64-digit c (t ++ rest) d ∙ extract_digits-digit c (t ++ rest) rest n d hn read)
