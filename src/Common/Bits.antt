-- ===== src/Common/Bits.antt =====
-- Single bits of a number, and what the native operations on bits do to them.
use Prim.Native.Nat.{
  ℕ, zero, suc, ◌+◌, ◌-◌, ◌*◌, ◌/◌, ◌%◌, ◌^◌, ◌≤◌, ◌<◌, min, max, digits, bit_and, bit_or,
  bit_and-bitwise, bit_or-bitwise,
}
use mathlib.Core.Path.{◌≡◌, refl, ap, ◌∙◌}
use mathlib.Core.Bool.{Bool, true, ◌&&◌}
use native.Mathlib.Omega.{arith}
use native.Mathlib.Nat.{
  pow-suc, one-le-pow, mod-lt, mod-eq_of_lt, div-add-mod, mul-add-mod_self_left,
}

-- Both operations mean a recursion on binary digits with fuel; any fuel that suffices gives the same.
module _ (z : ℕ → ℕ) (f : ℕ → ℕ → ℕ) where
  digits_enough : (n m a b : ℕ) → a ≤ n → a ≤ m → digits z f n a b ≡ digits z f m a b
  digits_enough zero zero zero b p q = refl
  digits_enough zero zero (suc a) b p q = refl
  digits_enough zero (suc m) zero b p q = refl
  digits_enough zero (suc m) (suc a) b p q = absurd (omega arith)
  digits_enough (suc n) zero zero b p q = refl
  digits_enough (suc n) zero (suc a) b p q = absurd (omega arith)
  digits_enough (suc n) (suc m) zero b p q = refl
  digits_enough (suc n) (suc m) (suc a) b p q =
      omega (arith, digits_enough n m (suc a / 2) (b / 2) (omega arith) (omega arith))

pub bit_and_halves : (a b : ℕ) → bit_and a b ≡ min (a % 2) (b % 2) + 2 * bit_and (a / 2) (b / 2)
bit_and_halves zero b = omega (arith, bit_and-bitwise 0 b, bit_and-bitwise 0 (b / 2))
bit_and_halves (suc a) b = omega (
  arith,
  bit_and-bitwise (suc a) b,
  bit_and-bitwise (suc a / 2) (b / 2),
  digits_enough (λ n. 0) min a (suc a / 2) (suc a / 2) (b / 2) (omega arith) (omega arith),
)

pub bit_or_halves : (a b : ℕ) → bit_or a b ≡ max (a % 2) (b % 2) + 2 * bit_or (a / 2) (b / 2)
bit_or_halves zero b = omega (arith, bit_or-bitwise 0 b, bit_or-bitwise 0 (b / 2))
bit_or_halves (suc a) b = omega (
  arith,
  bit_or-bitwise (suc a) b,
  bit_or-bitwise (suc a / 2) (b / 2),
  digits_enough (λ n. n) max a (suc a / 2) (suc a / 2) (b / 2) (omega arith) (omega arith),
)

-- Bit `i` of a number, 0 or 1.
unfoldable pub bit : ℕ → ℕ → ℕ
bit zero n = n % 2
bit (suc i) n = bit i (n / 2)

pub bit-le-one : (i n : ℕ) → bit i n ≤ 1
unfolding bit
bit-le-one zero n = omega arith
bit-le-one (suc i) n = bit-le-one i (n / 2)

pub bit-bit_or : (i a b : ℕ) → bit i (bit_or a b) ≡ max (bit i a) (bit i b)
unfolding bit
bit-bit_or zero a b = omega (arith, bit_or_halves a b)
bit-bit_or (suc i) a b =
    let half : bit_or a b / 2 ≡ bit_or (a / 2) (b / 2) = omega (arith, bit_or_halves a b) in
    ap (bit i) half ∙ bit-bit_or i (a / 2) (b / 2)

pub bit-bit_and : (i a b : ℕ) → bit i (bit_and a b) ≡ min (bit i a) (bit i b)
unfolding bit
bit-bit_and zero a b = omega (arith, bit_and_halves a b)
bit-bit_and (suc i) a b =
    let half : bit_and a b / 2 ≡ bit_and (a / 2) (b / 2) = omega (arith, bit_and_halves a b) in
    ap (bit i) half ∙ bit-bit_and i (a / 2) (b / 2)

pub bit-zero : (i : ℕ) → bit i 0 ≡ 0
unfolding bit
bit-zero zero = refl
bit-zero (suc i) = bit-zero i

bit_or-zero_below : (n a : ℕ) → a ≤ n → bit_or a 0 ≡ a
bit_or-zero_below n zero h = refl
bit_or-zero_below zero (suc a) h = absurd (omega arith)
bit_or-zero_below (suc n) (suc a) h =
    omega (arith, bit_or_halves (suc a) 0, bit_or-zero_below n (suc a / 2) (omega arith))

pub bit_or-zero : (a : ℕ) → bit_or a 0 ≡ a
bit_or-zero a = bit_or-zero_below a a (omega arith)

bit_and-zero_below : (n a : ℕ) → a ≤ n → bit_and a 0 ≡ 0
bit_and-zero_below n zero h = refl
bit_and-zero_below zero (suc a) h = absurd (omega arith)
bit_and-zero_below (suc n) (suc a) h =
    omega (arith, bit_and_halves (suc a) 0, bit_and-zero_below n (suc a / 2) (omega arith))

pub bit_and-zero : (a : ℕ) → bit_and a 0 ≡ 0
bit_and-zero a = bit_and-zero_below a a (omega arith)

-- Masking with one bit.
pub bit_and-pow : (i a : ℕ) → bit_and a (2 ^ i) ≡ bit i a * 2 ^ i
unfolding bit
bit_and-pow zero a =
    omega (arith, bit_and_halves a 1, bit_and-zero_below (a / 2) (a / 2) (omega arith))
bit_and-pow (suc i) a =
    let halved : 2 ^ suc i / 2 ≡ 2 ^ i = omega (arith, pow-suc 2 i) in
    let rest : bit_and (a / 2) (2 ^ suc i / 2) ≡ bit i (a / 2) * 2 ^ i =
      ap (bit_and (a / 2)) halved ∙ bit_and-pow i (a / 2) in
    omega (
      arith,
      bit_and_halves a (2 ^ suc i),
      rest,
      pow-suc 2 i,
      ap (λ (t : ℕ). bit i (a / 2) * t) (pow-suc 2 i),
    )

half-mod : (n p : ℕ) → 0 < p → n % (2 * p) ≡ 2 * (n / 2 % p) + n % 2
half-mod n p h =
    let whole : n ≡ 2 * p * (n / 2 / p) + (2 * (n / 2 % p) + n % 2) =
      omega (arith, div-add-mod (n / 2) p) in
    ap (λ (t : ℕ). t % (2 * p)) whole
    ∙ mul-add-mod_self_left (2 * p) (n / 2 / p) (2 * (n / 2 % p) + n % 2)
    ∙ mod-eq_of_lt (omega (arith, mod-lt (n / 2) h))

-- Bits below the width are kept.
pub bit-mod_pow : (i w n : ℕ) → i < w → bit i (n % 2 ^ w) ≡ bit i n
unfolding bit
bit-mod_pow i zero n h = absurd (omega arith)
bit-mod_pow zero (suc w) n h =
    omega
      (arith, half-mod n (2 ^ w) (one-le-pow w 2 (omega arith)), ap (λ (t : ℕ). n % t) (double w))
  where
    double : (v : ℕ) → 2 ^ suc v ≡ 2 * 2 ^ v
    double v = omega (arith, pow-suc 2 v)
bit-mod_pow (suc i) (suc w) n h =
    let double : 2 ^ suc w ≡ 2 * 2 ^ w = omega (arith, pow-suc 2 w) in
    let halved : n % 2 ^ suc w / 2 ≡ n / 2 % 2 ^ w =
      omega
        (arith, half-mod n (2 ^ w) (one-le-pow w 2 (omega arith)), ap (λ (t : ℕ). n % t) double) in
    ap (bit i) halved ∙ bit-mod_pow i w (n / 2) (omega arith)

-- Over a small range, every value is checked by evaluation.
unfoldable pub below_all : ℕ → (ℕ → Bool) → Bool
below_all zero p = true
below_all (suc n) p = p n && below_all n p

pub everywhere_below : (n : ℕ) (p : ℕ → Bool) (x : ℕ) → below_all n p ≡ true → x < n → p x ≡ true
unfolding below_all
everywhere_below zero p x h lt = absurd (omega arith)
everywhere_below (suc n) p x h lt = ground (arith, everywhere_below n p x)

-- Masking with all bits below a width.
pub bit_and-mask : (w a : ℕ) → bit_and a (2 ^ w - 1) ≡ a % 2 ^ w
bit_and-mask zero a = omega (arith, bit_and-zero a)
bit_and-mask (suc w) a =
    let double : 2 ^ suc w ≡ 2 * 2 ^ w = omega (arith, pow-suc 2 w) in
    let some_bits = one-le-pow w 2 (omega arith) in
    let halved : (2 ^ suc w - 1) / 2 ≡ 2 ^ w - 1 = omega (arith, double, some_bits) in
    let rest : bit_and (a / 2) ((2 ^ suc w - 1) / 2) ≡ a / 2 % 2 ^ w =
      ap (bit_and (a / 2)) halved ∙ bit_and-mask w (a / 2) in
    omega (
      arith,
      bit_and_halves a (2 ^ suc w - 1),
      rest,
      double,
      some_bits,
      half-mod a (2 ^ w) some_bits,
      ap (λ (t : ℕ). a % t) double,
    )
