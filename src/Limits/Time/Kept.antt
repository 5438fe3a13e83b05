-- ===== src/Limits/Time/Kept.antt =====
-- The time listener takes back no kill reason.
use sio2jail.Common.{ℕ, ◌*◌, ◌/◌, u64, Text, Option, none, some}
use sio2jail.System.{M, pure, throw, read_stat, query, system_exception, ◌>>=◌}
use sio2jail.System.Kept.{Keeps, keeping, bind-Keeps, pure-Keeps, throw-Keeps, ask-Keeps}
use sio2jail.System.Kept.Reports.{reporting}
use sio2jail.Limits.Time.{
  TimeLimits, TimeUsage, start_timer, on_post_fork_parent, exceed, verify_time_usage,
  get_time_usage, on_sigalrm_signal, on_post_execute,
}
use sio2jail.Limits.Time.Stat.{ProcessTimeUsage, stat_ticks, ticks_or_throw, get_process_time_usage}

start_timer-Keeps : (tick : ℕ) → Keeps (start_timer tick)
unfolding start_timer
start_timer-Keeps tick = search keeping

pub on_post_fork_parent-Keeps : (child : ℕ) (l : TimeLimits) → Keeps (on_post_fork_parent child l)
unfolding on_post_fork_parent
on_post_fork_parent-Keeps child l = search (keeping, start_timer-Keeps)

exceed-Keeps : (t : Text) → Keeps (exceed t)
unfolding exceed
exceed-Keeps t = search (keeping, reporting)

verify_time_usage-Keeps : (l : TimeLimits) (t : TimeUsage) → Keeps (verify_time_usage l t)
unfolding verify_time_usage
verify_time_usage-Keeps l t = search (keeping, exceed-Keeps) depth 10

-- The end of `ticks_or_throw`.
taken : ℕ → Option (ℕ × ℕ) → M (ℕ × ℕ)
taken errno t = elim t [ none ↦ throw (system_exception errno) | some ticks ↦ pure ticks ]

taken-Keeps : (errno : ℕ) (t : Option (ℕ × ℕ)) → Keeps (taken errno t)
unfolding taken
taken-Keeps errno none = throw-Keeps _
taken-Keeps errno (some ticks) = pure-Keeps ticks

ticks_or_throw-Keeps : (errno : ℕ) (t : Option Text) → Keeps (ticks_or_throw errno t)
unfolding ticks_or_throw taken
ticks_or_throw-Keeps errno none = throw-Keeps _
ticks_or_throw-Keeps errno (some t) = taken-Keeps errno (stat_ticks t)

rest_of : ℕ → ℕ → ℕ → M ProcessTimeUsage
rest_of child ticks_per_second errno =
    query (read_stat child) (λ k h. k.stat_file h child) >>= λ stat.
    ticks_or_throw errno stat >>= λ ticks. pure (record {
      u_time_us = u64 (ticks.0 * 1000000) / ticks_per_second;
      s_time_us = u64 (ticks.1 * 1000000) / ticks_per_second;
    })

get_process_time_usage-Keeps : (child ticks : ℕ) → Keeps (get_process_time_usage child ticks)
unfolding get_process_time_usage rest_of
get_process_time_usage-Keeps child ticks =
    bind-Keeps _ (rest_of child ticks) (ask-Keeps (λ k h. (k.reply h (read_stat child)).errno))
      (λ errno. search (keeping, ticks_or_throw-Keeps))

get_time_usage-Keeps : (l : TimeLimits) → Keeps (get_time_usage l)
unfolding get_time_usage
get_time_usage-Keeps l = search (keeping, get_process_time_usage-Keeps)

pub on_sigalrm_signal-Keeps : (l : TimeLimits) → Keeps (on_sigalrm_signal l)
unfolding on_sigalrm_signal
on_sigalrm_signal-Keeps l = search (keeping, get_time_usage-Keeps, verify_time_usage-Keeps)

pub on_post_execute-Keeps : (l : TimeLimits) → Keeps (on_post_execute l)
unfolding on_post_execute
on_post_execute-Keeps l =
    search (keeping, reporting, get_time_usage-Keeps, verify_time_usage-Keeps) depth 12
