-- ===== src/Limits/Time/Stat/Fields.antt =====
-- The user and system ticks are found behind thirteen fields that hold no space.
use sio2jail.Common.{
  ℕ, ◌*◌, ◌/◌, ◌^◌, ◌<◌, ◌≡◌, ◌≢◌, refl, subst, false, Text, List, [], ◌∷◌, ◌++◌, All, some, length,
  u64, arith, show, is_digit,
}
use sio2jail.Stream.{ignore_until, skip_spaces, extract_u64}
use sio2jail.Stream.Numbers.{extract_u64-show}
use sio2jail.System.{Kernel, World, ◌>>=◌, done, read_stat}
use sio2jail.Limits.Time.Stat.{
  ignore_fields, read_ticks, stat_ticks, ticks_or_throw, get_process_time_usage,
}

abbrev pub SpaceFree : Text → Type 0
SpaceFree = All (λ c. c ≢ 32)

-- The fields, one space after each, before a text.
abbrev pub join_fields : List Text → Text → Text
join_fields [] t = t
join_fields (f ∷ fs) t = f ++ 32 ∷ join_fields fs t

ignore_until-field : (f rest : Text) → SpaceFree f → ignore_until 32 (f ++ 32 ∷ rest) ≡ some rest
unfolding ignore_until
ignore_until-field [] rest h = refl
ignore_until-field (c ∷ f) rest h = ground (arith, ignore_until-field f rest h.1)

ignore_fields-join_fields :
    (fs : List Text) (t : Text)
    → All SpaceFree fs
    → ignore_fields (length fs) (join_fields fs t) ≡ some t
unfolding ignore_fields
ignore_fields-join_fields [] t h = refl
ignore_fields-join_fields (f ∷ fs) t h =
    rw (ignore_until-field f (join_fields fs t) h.0, ignore_fields)
      (ignore_fields-join_fields fs t h.1)

extract_u64-space : (t : Text) → extract_u64 (32 ∷ t) ≡ extract_u64 t
unfolding extract_u64 skip_spaces
extract_u64-space t = refl

read_ticks-show :
    (u s c : ℕ) (end : Text)
    → u < 2 ^ 64
    → s < 2 ^ 64
    → is_digit c ≡ false
    → read_ticks (show u ++ 32 ∷ (show s ++ c ∷ end)) ≡ some (u, s)
unfolding read_ticks is_digit
read_ticks-show u s c end hu hs hc = rw (
  extract_u64-show u (32 ∷ (show s ++ c ∷ end)) hu refl,
  extract_u64-space (show s ++ c ∷ end),
  extract_u64-show s (c ∷ end) hs hc,
  read_ticks,
)

stat_ticks-join_fields :
    (fs : List Text) (u s c : ℕ) (end : Text)
    → length fs ≡ 13
    → All SpaceFree fs
    → u < 2 ^ 64
    → s < 2 ^ 64
    → is_digit c ≡ false
    → stat_ticks (join_fields fs (show u ++ 32 ∷ (show s ++ c ∷ end))) ≡ some (u, s)
unfolding stat_ticks
stat_ticks-join_fields fs u s c end hl hf hu hs hc =
    let t = show u ++ 32 ∷ (show s ++ c ∷ end) in
    let found : ignore_fields 13 (join_fields fs t) ≡ some t =
      subst (λ n. ignore_fields n (join_fields fs t) ≡ some t) hl
        (ignore_fields-join_fields fs t hf) in
    rw (found, stat_ticks) (read_ticks-show u s c end hu hs hc)

-- If the stat file holds thirteen fields without spaces, then two numbers of ticks, each of 64 bits
-- and each followed by a byte that is no digit, of which the first is a space, then the times are
-- those ticks in microseconds, and the only call made is the reading of the file.
pub get_process_time_usage-stat :
    (fs : List Text) (u s c : ℕ) (end : Text) (pid ticks_per_second : ℕ) (k : Kernel) (w : World)
    → length fs ≡ 13
    → All SpaceFree fs
    → u < 2 ^ 64
    → s < 2 ^ 64
    → is_digit c ≡ false
    → k.stat_file w.history pid ≡ some (join_fields fs (show u ++ 32 ∷ (show s ++ c ∷ end)))
    → get_process_time_usage pid ticks_per_second k w
      ≡ done (
        record {
          u_time_us = u64 (u * 1000000) / ticks_per_second;
          s_time_us = u64 (s * 1000000) / ticks_per_second;
        },
        record w { history = read_stat pid ∷ w.history },
      )
unfolding get_process_time_usage
get_process_time_usage-stat fs u s c end pid tps k w hl hf hu hs hc e =
    rw (e, stat_ticks-join_fields fs u s c end hl hf hu hs hc, ticks_or_throw, ◌>>=◌)
