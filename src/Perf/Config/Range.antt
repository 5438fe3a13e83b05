-- ===== src/Perf/Config/Range.antt =====
-- A value goes to the bits of its range.
use Prim.Native.Nat.{bit_and, bit_or, bit_or-bitwise}
use native.Mathlib.Nat.{pow-suc, div-eq_of_lt, pow-le-pow_right, mod-eq_of_lt}
use sio2jail.Common.{
  ℕ, zero, suc, ◌+◌, ◌-◌, ◌*◌, ◌/◌, ◌^◌, ◌≤◌, ◌<◌, ◌≡◌, ◌≢◌, refl, sym, subst, ap, ◌∙◌, true, false,
  leb, Text, codes, u64, All-append, [], ◌∷◌, ◌++◌, All, some, arith, show, show_digits, show_head,
  is_digit, bit_and-mask, append-nil,
}
use sio2jail.App.Utils.{last_token, split}
use sio2jail.App.Utils.Split.{FreeOf, split-join}
use sio2jail.App.BindMounts.{tokens_of}
use sio2jail.Stream.{extract_u64}
use sio2jail.Stream.Numbers.{extract_u64-show}
use sio2jail.ProcFs.{starts_with, drop}
use sio2jail.System.{done}
use sio2jail.Perf.Config.{
  EventConfig, ◌>>=◌, or_field, stoul, range_of, insert_range, insert_ranges, insert_under,
  insert_into_config, digit_field, config_field_number,
}

bit_or_zero : (a : ℕ) → bit_or 0 a ≡ a
bit_or_zero a = omega (arith, bit_or-bitwise 0 a)

shift_below :
    (start width value : ℕ) → value < 2 ^ width → start + width ≤ 64 → value * 2 ^ start < 2 ^ 64
shift_below zero width value hv hw =
    omega (arith, pow-le-pow_right {n = 2} (omega arith) {i = width} {j = 64} (omega arith))
shift_below (suc start) width value hv hw =
    let rest =
      shift_below start (suc width) (2 * value) (omega (arith, pow-suc 2 width)) (omega arith) in
    let moved : value * 2 ^ suc start ≡ 2 * value * 2 ^ start =
      ap (λ (t : ℕ). value * t) (pow-suc 2 start) ∙ omega arith in
    omega (arith, rest, moved)

-- The bits of a value below a width, moved to a start, are the value times a power of two.
placed :
    (value start width : ℕ)
    → value < 2 ^ width
    → start + width ≤ 64
    → u64 (bit_and value (2 ^ width - 1) * 2 ^ start) ≡ value * 2 ^ start
placed value start width hv hw =
    let low : bit_and value (2 ^ width - 1) ≡ value = bit_and-mask width value ∙ mod-eq_of_lt hv in
    let small : value * 2 ^ start < 2 ^ 64 = shift_below start width value hv hw in
    rw low (mod-eq_of_lt small)

true_no_false : true ≡ false → ⊥
true_no_false h = ground arith

show-FreeOf : (d n : ℕ) → is_digit d ≡ false → FreeOf d (show n)
show-FreeOf d n h = digits_free (show n) (show_digits n)
  where
    digits_free : (t : Text) → All (λ c. is_digit c ≡ true) t → FreeOf d t
    digits_free [] a = tt
    digits_free (c ∷ t) a = (λ e. true_no_false (sym a.0 ∙ ap is_digit e ∙ h), digits_free t a.1)

stoul-show : (n : ℕ) → n < 2 ^ 64 → stoul (show n) ≡ done (some n)
unfolding stoul
stoul-show n h =
    let read : extract_u64 (show n) ≡ some (n, []) =
      subst (λ t. extract_u64 t ≡ some (n, [])) (append-nil (show n))
        (extract_u64-show n [] h tt) in
    rw (read, stoul)

range_of-show :
    (start end : ℕ)
    → start < 2 ^ 64
    → end < 2 ^ 64
    → range_of (tokens_of (show start ++ (codes "-" ++ show end)) (codes "-"))
      ≡ done (some (start, end))
unfolding tokens_of range_of is_digit
range_of-show start end hs he =
    let found : split (show start ++ (codes "-" ++ show end)) (codes "-")
        ≡ some (show start ∷ last_token (show end)) =
      split-join b'-' (show start ∷ []) (show end) (show-FreeOf b'-' start refl, tt)
        (show-FreeOf b'-' end refl) in
    let (c, t, e, d) = show_head end in
    let kept : last_token (show end) ≡ show end ∷ [] = rw e refl in
    rw (tokens_of, found, kept, stoul-show start hs, stoul-show end he, ◌>>=◌)

-- The three fields of a configuration that a format can name.
pub data ConfigField : Type 0 where
  config config1 config2 : ConfigField

abbrev pub name_of : ConfigField → Text
name_of config = codes "config"
name_of config1 = codes "config1"
name_of config2 = codes "config2"

abbrev pub get : ConfigField → EventConfig → ℕ
get config c = c.config0
get config1 c = c.config1
get config2 c = c.config2

abbrev pub set : ConfigField → ℕ → EventConfig → EventConfig
set config n c = record c { config0 = n }
set config1 n c = record c { config1 = n }
set config2 n c = record c { config2 = n }

abbrev number_of : ConfigField → ℕ
number_of config = 0
number_of config1 = 1
number_of config2 = 2

name_of-number_of : (f : ConfigField) → config_field_number (name_of f) ≡ some (number_of f)
unfolding config_field_number digit_field starts_with drop
name_of-number_of config = refl
name_of-number_of config1 = refl
name_of-number_of config2 = refl

or_field_lem :
    (f : ConfigField) (bits : ℕ) (c : EventConfig)
    → or_field (number_of f) bits c ≡ done (some (set f (bit_or (get f c) bits) c))
unfolding or_field
or_field_lem config bits c = refl
or_field_lem config1 bits c = refl
or_field_lem config2 bits c = refl

insert_range_lem :
    (f : ConfigField) (value start width : ℕ) (c : EventConfig)
    → get f c ≡ 0
    → value < 2 ^ suc width
    → width < 63
    → start + width < 64
    → insert_range (number_of f) (start, start + width) value c
      ≡ done (some (set f (value * 2 ^ start) c, 0))
unfolding insert_range
insert_range_lem f value start width c hc hv hw hs =
    let ordered : leb start (start + width) ≡ true = ground arith in
    let wide : u64 (start + width - start + 1) ≡ suc width = omega arith in
    let narrow : leb 64 (suc width) ≡ false = ground arith in
    let near : leb 64 start ≡ false = ground arith in
    let none_left : value / 2 ^ suc width ≡ 0 = div-eq_of_lt hv in
    rw (
      ordered,
      wide,
      narrow,
      near,
      or_field_lem f (u64 (bit_and value (2 ^ suc width - 1) * 2 ^ start)) c,
      hc,
      placed value start (suc width) hv (omega arith),
      none_left,
      bit_or_zero (value * 2 ^ start),
      ◌>>=◌,
    )

abbrev pub range_text : ℕ → ℕ → Text
range_text start end = show start ++ (codes "-" ++ show end)

range_text-FreeOf :
    (d start end : ℕ) → is_digit d ≡ false → b'-' ≢ d → FreeOf d (range_text start end)
range_text-FreeOf d start end h n =
    All-append (λ c. c ≢ d) (show start) (codes "-" ++ show end) (show-FreeOf d start h)
      (n, show-FreeOf d end h)

range_text_kept : (start end : ℕ) → last_token (range_text start end) ≡ range_text start end ∷ []
range_text_kept start end = let (c, t, e, d) = show_head start in rw e refl

name_of-FreeOf : (f : ConfigField) → FreeOf b':' (name_of f)
name_of-FreeOf config = ground arith
name_of-FreeOf config1 = ground arith
name_of-FreeOf config2 = ground arith

-- A field's format with one range.
abbrev pub format_of : ConfigField → ℕ → ℕ → Text
format_of f start end = name_of f ++ (codes ":" ++ range_text start end)

tokens_of_format :
    (f : ConfigField) (start end : ℕ)
    → tokens_of (format_of f start end) (codes ":") ≡ name_of f ∷ range_text start end ∷ []
unfolding tokens_of is_digit
tokens_of_format f start end =
    let found : split (format_of f start end) (codes ":")
        ≡ some (name_of f ∷ last_token (range_text start end)) =
      split-join b':' (name_of f ∷ []) (range_text start end) (name_of-FreeOf f, tt)
        (range_text-FreeOf b':' start end refl (ground arith)) in
    rw (tokens_of, found, range_text_kept start end)

tokens_of-range_text :
    (start end : ℕ) → tokens_of (range_text start end) (codes ",") ≡ range_text start end ∷ []
unfolding tokens_of is_digit
tokens_of-range_text start end =
    let found : split (range_text start end) (codes ",")
        ≡ some (last_token (range_text start end)) =
      split-join b',' [] (range_text start end) tt
        (range_text-FreeOf b',' start end refl (ground arith)) in
    rw (tokens_of, found, range_text_kept start end)

-- For a format that names the field config, config1 or config2, whose value is 0, and prints a range
-- of less than 64 bits, all below bit 64, and for a value that fits into the range: the value's bits
-- go to the range of that field, and nothing else changes.
pub insert_into_config_range :
    (f : ConfigField) (value start width : ℕ) (c : EventConfig)
    → get f c ≡ 0
    → value < 2 ^ suc width
    → width < 63
    → start + width < 64
    → insert_into_config (format_of f start (start + width)) value c
      ≡ done (some (set f (value * 2 ^ start) c))
unfolding insert_into_config
insert_into_config_range f value start width c hc hv hw hs =
    let end : ℕ = start + width in
    rw (
      tokens_of_format f start end,
      insert_under,
      name_of-number_of f,
      tokens_of-range_text start end,
      insert_ranges,
      range_of-show start end (omega arith) (omega arith),
      insert_range_lem f value start width c hc hv hw hs,
      ◌>>=◌,
    )
