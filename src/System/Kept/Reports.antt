-- ===== src/System/Kept/Reports.antt =====
-- The setters of the result builder take back no kill reason.
use sio2jail.Common.{ℕ, Text, arith}
use sio2jail.Printer.{
  KillReason, set_kill_reason, set_kill_signal, set_exit_status, set_memory_peak, set_cycles_used,
  set_real_time_microseconds, set_user_time_microseconds, set_sys_time_microseconds,
}
use sio2jail.System.{report}
use sio2jail.System.Kept.{Keeps, report-Keeps}

pub set_kill_reason-Keeps : (r : KillReason) (t : Text) → Keeps (report (set_kill_reason r t))
unfolding set_kill_reason
set_kill_reason-Keeps r t = report-Keeps _ (λ o h. ground (arith, h))

pub set_kill_signal-Keeps : (n : ℕ) → Keeps (report (set_kill_signal n))
unfolding set_kill_signal
set_kill_signal-Keeps n = report-Keeps _ (λ o h. ground arith)

pub set_exit_status-Keeps : (n : ℕ) → Keeps (report (set_exit_status n))
unfolding set_exit_status
set_exit_status-Keeps n = report-Keeps _ (λ o h. ground arith)

pub set_memory_peak-Keeps : (n : ℕ) → Keeps (report (set_memory_peak n))
unfolding set_memory_peak
set_memory_peak-Keeps n = report-Keeps _ (λ o h. h)

pub set_cycles_used-Keeps : (n : ℕ) → Keeps (report (set_cycles_used n))
unfolding set_cycles_used
set_cycles_used-Keeps n = report-Keeps _ (λ o h. h)

pub set_real_time-Keeps : (n : ℕ) → Keeps (report (set_real_time_microseconds n))
unfolding set_real_time_microseconds
set_real_time-Keeps n = report-Keeps _ (λ o h. h)

pub set_user_time-Keeps : (n : ℕ) → Keeps (report (set_user_time_microseconds n))
unfolding set_user_time_microseconds
set_user_time-Keeps n = report-Keeps _ (λ o h. h)

pub set_sys_time-Keeps : (n : ℕ) → Keeps (report (set_sys_time_microseconds n))
unfolding set_sys_time_microseconds
set_sys_time-Keeps n = report-Keeps _ (λ o h. h)

pub ruleset reporting = (
  set_kill_reason-Keeps, set_kill_signal-Keeps, set_exit_status-Keeps, set_memory_peak-Keeps,
  set_cycles_used-Keeps, set_real_time-Keeps, set_user_time-Keeps, set_sys_time-Keeps,
)
