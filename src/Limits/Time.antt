-- ===== src/Limits/Time.antt =====
-- limits/TimeLimitListener.cc. Times are in microseconds. The clock, the timer and /proc/pid/stat
-- are the kernel's. The destructor, which deletes the timer, is left out.
pub mod Stat
pub mod Kept
pub mod Verify
pub mod Timer
use sio2jail.Common.{
  ℕ, ◌-◌, ◌/◌, ◌+◌, ◌*◌, ◌%◌, ◌^◌, Bool, true, false, not, ◌&&◌, ◌||◌, ltb, leb, ◌==◌,
  if◌then◌else◌, Text, codes, [], u64,
}
use sio2jail.Executor.Event.{ExecuteAction}
use sio2jail.Printer.{
  KillReason, set_kill_reason, set_real_time_microseconds, set_user_time_microseconds,
  set_sys_time_microseconds,
}
use sio2jail.System.{
  M, ◌>>=◌, ◌>>◌, pure, report, query, with_errno_check_, timer_create, timer_settime, clock_now,
}
use Stat.{ProcessTimeUsage, get_process_time_usage}

pub record TimeLimits : Type 0 where
  pub r_time_limit_us : ℕ
  pub u_time_limit_us : ℕ
  pub s_time_limit_us : ℕ
  pub us_time_limit_us : ℕ
  pub clock_ticks_per_second : ℕ
  pub child_pid : ℕ
  pub start_real_time : ℕ
  pub is_timer_created : Bool

pub record TimeUsage : Type 0 where
  pub real_time_us : ℕ
  pub process_time_us : ProcessTimeUsage

abbrev pub timer_ticking_interval_us : ℕ
timer_ticking_interval_us = 200 * 1000

abbrev pub max_u64 : ℕ
max_u64 = 2 ^ 64 - 1

earlier : ℕ → ℕ → ℕ
earlier limit tick = if not (limit == 0) && ltb limit tick then limit else tick

unfoldable pub first_timer_tick : TimeLimits → ℕ
unfolding earlier
first_timer_tick l =
    earlier l.us_time_limit_us
      (earlier l.s_time_limit_us (earlier l.u_time_limit_us (earlier l.r_time_limit_us max_u64)))

unfoldable pub start_timer : ℕ → M Bool
start_timer tick = if tick == max_u64 then pure false else do
  with_errno_check_ [] timer_create
  with_errno_check_ [] (
      timer_settime (tick / 1000000) (tick % 1000000 * 1000) (timer_ticking_interval_us / 1000000)
        (timer_ticking_interval_us % 1000000 * 1000))
  pure true

unfoldable pub on_post_fork_parent : ℕ → TimeLimits → M TimeLimits
on_post_fork_parent child_pid l = do
  now ← query clock_now (λ k h. (k.reply h clock_now).value)
  created ← start_timer (first_timer_tick l)
  pure (record l {
    child_pid = child_pid;
    start_real_time = now;
    is_timer_created = created || l.is_timer_created;
  })

unfoldable pub exceed : Text → M ExecuteAction
exceed comment = do report (set_kill_reason KillReason.tle comment); pure ExecuteAction.kill

unfoldable pub verify_time_usage : TimeLimits → TimeUsage → M ExecuteAction
unfolding exceed
verify_time_usage l t =
    if not (r_time_limit_us == 0) && ltb r_time_limit_us t.real_time_us
    then exceed (codes "real time limit exceeded")
    else if not (u_time_limit_us == 0)
        || (not (s_time_limit_us == 0) || not (us_time_limit_us == 0))
    then if not (u_time_limit_us == 0) && ltb u_time_limit_us u_time_us
      then exceed (codes "user time limit exceeded")
      else if not (s_time_limit_us == 0) && ltb s_time_limit_us s_time_us
      then exceed (codes "system time limit exceeded")
      else if not (us_time_limit_us == 0) && ltb us_time_limit_us (u64 (u_time_us + s_time_us))
      then exceed (codes "user+system time limit exceeded")
      else pure ExecuteAction.continue
    else pure ExecuteAction.continue
  where
    open l use {r_time_limit_us, u_time_limit_us, s_time_limit_us, us_time_limit_us}
    open t.process_time_us use {u_time_us, s_time_us}

-- The clock is steady; were it to run back, the difference would wrap.
elapsed_us : ℕ → ℕ → ℕ
elapsed_us start now =
    if leb start now then u64 ((now - start) / 1000) else u64 (2 ^ 64 - (start - now) / 1000)

unfoldable pub get_time_usage : TimeLimits → M TimeUsage
unfolding elapsed_us
get_time_usage l = do
  now ← query clock_now (λ k h. (k.reply h clock_now).value)
  process ← get_process_time_usage l.child_pid l.clock_ticks_per_second
  pure (record { real_time_us = elapsed_us l.start_real_time now; process_time_us = process })

unfoldable pub on_sigalrm_signal : TimeLimits → M ExecuteAction
unfolding get_time_usage verify_time_usage
on_sigalrm_signal l =
    if l.is_timer_created
    then (do time ← get_time_usage l; verify_time_usage l time)
    else pure ExecuteAction.continue

unfoldable pub on_post_execute : TimeLimits → M ExecuteAction
unfolding get_time_usage verify_time_usage
on_post_execute l = do
  time ← get_time_usage l
  report (set_real_time_microseconds time.real_time_us)
  report (set_user_time_microseconds time.process_time_us.u_time_us)
  report (set_sys_time_microseconds time.process_time_us.s_time_us)
  verify_time_usage l time
