-- ===== src/Printer/Fields.antt =====
-- Reading a result back: the first line of a dump holds the numbers that were put into it.
use sio2jail.Common.{
  ℕ, zero, suc, ◌^◌, ◌<◌, ◌≡◌, refl, false, ap, ◌∙◌, Text, List, [], ◌∷◌, ◌++◌, lt→ltb, show,
  is_digit, read_digits, read_digits-show,
}
use sio2jail.Printer.{OiModel}
use sio2jail.Printer.Dump.{oitt, dump, encode_status_code, show_int, tail_fields}

skip_byte : Text → Text
skip_byte [] = []
skip_byte (c ∷ cs) = cs

pub skip_bytes : ℕ → Text → Text
unfolding skip_byte
skip_bytes zero t = t
skip_bytes (suc n) t = skip_bytes n (skip_byte t)

-- `n` numbers, one separator after each.
pub read_fields : ℕ → Text → List ℕ
unfolding skip_byte
read_fields zero t = []
read_fields (suc n) t = (read_digits 0 t).0 ∷ read_fields n (skip_byte (read_digits 0 t).1)

read_fields-show :
    (n v c : ℕ) (rest : Text)
    → is_digit c ≡ false
    → read_fields (suc n) (show v ++ c ∷ rest) ≡ v ∷ read_fields n rest
unfolding read_fields
read_fields-show n v c rest h = rw (read_digits-show v (c ∷ rest) h)

read_fields-tail_fields :
    (ms : ℕ) (o : OiModel)
    → read_fields 4 (tail_fields ms o) ≡ ms ∷ 0 ∷ o.memory_peak_kb ∷ o.syscalls_counter ∷ []
unfolding tail_fields is_digit read_fields
read_fields-tail_fields ms o =
    read_fields-show 3 ms 32 _ refl
    ∙ ap (◌∷◌ ms) (
        read_fields-show 2 0 32 _ refl
        ∙ ap (◌∷◌ 0) (
            read_fields-show 1 o.memory_peak_kb 32 _ refl
            ∙ ap (◌∷◌ o.memory_peak_kb) (read_fields-show 0 o.syscalls_counter 10 _ refl)))

-- The first line of the oitt format gives back, after its mark of eleven bytes, the status code,
-- the time used, the zero of the reserved column, the memory peak and the counter of syscalls, if
-- the code is not negative as an int.
pub read_fields-dump_oitt :
    (show_seconds : ℕ → Text) (o : OiModel)
    → encode_status_code o < 2 ^ 31
    → read_fields 5 (skip_bytes 11 (dump show_seconds oitt o))
      ≡ encode_status_code o
        ∷ o.milli_seconds_elapsed
        ∷ 0
        ∷ o.memory_peak_kb
        ∷ o.syscalls_counter
        ∷ []
unfolding dump show_int skip_bytes is_digit
read_fields-dump_oitt show_seconds o h = rw (lt→ltb _ _ h) (
    read_fields-show 4 (encode_status_code o) 32 _ refl
    ∙ ap (◌∷◌ (encode_status_code o)) (read_fields-tail_fields _ o))
