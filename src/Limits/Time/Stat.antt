-- ===== src/Limits/Time/Stat.antt =====
-- limits/TimeLimitListener.cc, getProcessTimeUsage: the 14th and 15th fields of /proc/pid/stat.
pub mod Fields
use sio2jail.Common.{ℕ, zero, suc, ◌*◌, ◌/◌, Text, [], ◌∷◌, Option, none, some, u64}
use sio2jail.Stream.{extract_u64, ignore_until}
use sio2jail.System.{M, ◌>>=◌, pure, throw, query, read_stat, system_exception}

pub record ProcessTimeUsage : Type 0 where
  pub u_time_us : ℕ
  pub s_time_us : ℕ

-- A loop of `stat.ignore(max, ' ')`, with the check of the stream after each.
unfoldable pub ignore_fields : ℕ → Text → Option Text
ignore_fields zero t = some t
ignore_fields (suc n) t = elim (ignore_until 32 t) [
  | none ↦ none
  | some rest ↦ ignore_fields n rest
]

-- `stat >> uTimeTicks >> sTimeTicks`, good only if something follows the second number.
unfoldable pub read_ticks : Text → Option (ℕ × ℕ)
read_ticks t = elim (extract_u64 t) [
  | none ↦ none
  | some (u, rest) ↦ elim (extract_u64 rest) [
    | none ↦ none
    | some (s, end) ↦ elim end [ [] ↦ none | _ ∷ _ ↦ some (u, s) ]
  ]
]

-- The ticks in the text of a stat file, `none` where the code throws.
unfoldable pub stat_ticks : Text → Option (ℕ × ℕ)
stat_ticks t = elim (ignore_fields 13 t) [ none ↦ none | some rest ↦ read_ticks rest ]

unfoldable pub ticks_or_throw : ℕ → Option Text → M (ℕ × ℕ)
ticks_or_throw errno none = throw (system_exception errno)
ticks_or_throw errno (some t) = elim (stat_ticks t) [
  | none ↦ throw (system_exception errno)
  | some ticks ↦ pure ticks
]

unfoldable pub get_process_time_usage : ℕ → ℕ → M ProcessTimeUsage
unfolding ticks_or_throw
get_process_time_usage child_pid ticks_per_second = do
  errno ← (λ k w. pure (k.reply w.history (read_stat child_pid)).errno k w)
  stat ← query (read_stat child_pid) (λ k h. k.stat_file h child_pid)
  ticks ← ticks_or_throw errno stat
  pure (record {
    u_time_us = u64 (ticks.0 * 1000000) / ticks_per_second;
    s_time_us = u64 (ticks.1 * 1000000) / ticks_per_second;
  })
