-- ===== src/ProcFs/Lookup.antt =====
-- The first line with the field's label decides the value.
use native.Mathlib.Numerals.{add-one}
use sio2jail.Common.{
  ℕ, suc, ◌^◌, ◌+◌, ◌<◌, ◌≡◌, ◌≢◌, refl, ◌∙◌, true, false, Text, List, [], ◌∷◌, ◌++◌, All, some,
  length, arith, show, show_head, StopsDigits, is_digit,
}
use sio2jail.Stream.Numbers.{extract_u64-show}
use sio2jail.System.{Kernel, World, done, read_status}
use sio2jail.ProcFs.{
  Field, vm_peak, vm_size, sig_cgt, label, starts_with, drop, skip_blanks, read_value, read_line,
  read_lines, read_file, lift, read_proc_fs, stoull_decimal,
}

starts_with-append : (l t : Text) → starts_with l (l ++ t) ≡ true
unfolding starts_with
starts_with-append [] t = refl
starts_with-append (c ∷ l) t = ground (arith, starts_with-append l t)

drop-append : (l t : Text) (c : ℕ) → drop (suc (length l)) (l ++ c ∷ t) ≡ t
unfolding drop
drop-append [] t c = refl
drop-append (d ∷ l) t c = drop-append l t c

-- Blanks only: spaces and tabs.
abbrev pub IsBlank : ℕ → Type 0
IsBlank c = skip_blanks (c ∷ []) ≡ []

skip_blanks-blank : (c : ℕ) (t : Text) → IsBlank c → skip_blanks (c ∷ t) ≡ skip_blanks t
unfolding skip_blanks
skip_blanks-blank c t h = ground arith

skip_blanks-append :
    (blanks t : Text) → All IsBlank blanks → skip_blanks (blanks ++ t) ≡ skip_blanks t
skip_blanks-append [] t h = refl
skip_blanks-append (c ∷ blanks) t h =
    skip_blanks-blank c (blanks ++ t) h.0 ∙ skip_blanks-append blanks t h.1

skip_blanks-digit : (c : ℕ) (t : Text) → is_digit c ≡ true → skip_blanks (c ∷ t) ≡ c ∷ t
unfolding skip_blanks is_digit
skip_blanks-digit c t h = ground arith

skip_blanks-show : (v : ℕ) (rest : Text) → skip_blanks (show v ++ rest) ≡ show v ++ rest
skip_blanks-show v rest = let (c, t, e, d) = show_head v in rw e (skip_blanks-digit c (t ++ rest) d)

read_lines-skip :
    (f : Field) (d : ℕ) (before rest : List Text)
    → All (λ line. starts_with (label f) line ≡ false) before
    → read_lines f d (before ++ rest) ≡ read_lines f d rest
unfolding read_lines
read_lines-skip f d [] rest h = refl
read_lines-skip f d (l ∷ before) rest h = rw (h.0, read_lines) (read_lines-skip f d before rest h.1)

read_lines-first :
    (f : Field) (d : ℕ) (line : Text) (rest : List Text)
    → starts_with (label f) line ≡ true
    → read_lines f d (line ∷ rest) ≡ read_line f line
unfolding read_lines
read_lines-first f d line rest h = rw (h, read_lines)

read_line-show :
    (f : Field) (blanks rest : Text) (v : ℕ)
    → All IsBlank blanks
    → read_line f (label f ++ b':' ∷ (blanks ++ (show v ++ rest))) ≡ read_value f (show v ++ rest)
unfolding read_line
read_line-show f blanks rest v hb =
    let (c, t, e, d) = show_head v in
    let dropped : drop (length (label f) + 1) (label f ++ b':' ∷ (blanks ++ (show v ++ rest)))
        ≡ blanks ++ (show v ++ rest) =
      rw add-one (drop-append (label f) (blanks ++ (show v ++ rest)) b':') in
    rw (dropped, skip_blanks-append blanks (show v ++ rest) hb, skip_blanks-show v rest, read_line)
      (rw e)

read_value-show :
    (f : Field) (v : ℕ) (rest : Text)
    → f ≢ sig_cgt
    → v < 2 ^ 64
    → StopsDigits rest
    → read_value f (show v ++ rest) ≡ done v
unfolding read_value
read_value-show vm_peak v rest h hv hr = rw (extract_u64-show v rest hv hr, stoull_decimal)
read_value-show vm_size v rest h hv hr = rw (extract_u64-show v rest hv hr, stoull_decimal)
read_value-show sig_cgt v rest h hv hr = absurd (h refl)

-- Where the status file has lines that do not start with the label of a memory field, and then the
-- line of that field, with a colon, blanks and a 64-bit decimal number, the number is what is read,
-- whatever follows; the only call made is the reading of the file.
pub read_proc_fs-memory :
    (f : Field) (before after : List Text) (blanks rest : Text) (v pid : ℕ) (k : Kernel) (w : World)
    → f ≢ sig_cgt
    → All (λ line. starts_with (label f) line ≡ false) before
    → All IsBlank blanks
    → v < 2 ^ 64
    → StopsDigits rest
    → k.status_file w.history pid
      ≡ some (before ++ (label f ++ b':' ∷ (blanks ++ (show v ++ rest))) ∷ after)
    → read_proc_fs pid f k w ≡ done (v, record w { history = read_status pid ∷ w.history })
unfolding read_proc_fs read_file lift
read_proc_fs-memory f before after blanks rest v pid k w hf hb hs hv hr e =
    let line = label f ++ b':' ∷ (blanks ++ (show v ++ rest)) in
    let found : read_lines f 0 (before ++ line ∷ after) ≡ done v =
      read_lines-skip f 0 before (line ∷ after) hb
      ∙ read_lines-first f 0 line after (starts_with-append (label f) _)
      ∙ read_line-show f blanks rest v hs
      ∙ read_value-show f v rest hf hv hr in
    rw (e, read_file) (rw (found, lift))
