-- ===== src/Printer.antt =====
-- src/printer: the builder of the result that the supervisor reports. OutputBuilder.h's interface
-- is the set of setters below, and OIModelOutputBuilder, which all five formats share, is their
-- implementation on a record. The setters return the builder that C++ mutates.
pub mod Dump
pub mod Verdict
pub mod Calls
pub mod Fields
mod Examples
use sio2jail.Common.{
  ℕ, ◌+◌, ◌*◌, ◌/◌, Bool, true, false, ltb, ◌==◌, if◌then◌else◌, Text, codes, u32, u64,
}

pub data KillReason : Type 0 where
  none re rv tle mle ole : KillReason

unfoldable pub kill_reason_name : KillReason → Text
kill_reason_name none = codes "OK"
kill_reason_name re = codes "RE"
kill_reason_name rv = codes "RV"
kill_reason_name tle = codes "TLE"
kill_reason_name mle = codes "MLE"
kill_reason_name ole = codes "OLE"

abbrev pub is_none : KillReason → Bool
is_none none = true
is_none _ = false

pub record OiModel : Type 0 where
  pub milli_seconds_elapsed : ℕ  -- uint64
  pub real_milli_seconds_elapsed : ℕ  -- uint64
  pub user_milli_seconds_elapsed : ℕ  -- uint64
  pub sys_milli_seconds_elapsed : ℕ  -- uint64
  pub memory_peak_kb : ℕ  -- uint64
  pub syscalls_counter : ℕ  -- uint64
  pub exit_status : ℕ  -- uint32
  pub kill_signal : ℕ  -- uint32
  pub kill_reason : KillReason
  pub kill_reason_comment : Text

-- The constructor leaves the user and the system time unset: what they hold is an argument.
unfoldable pub make : ℕ → ℕ → OiModel
make user sys = record {
  milli_seconds_elapsed = 0;
  real_milli_seconds_elapsed = 0;
  user_milli_seconds_elapsed = user;
  sys_milli_seconds_elapsed = sys;
  memory_peak_kb = 0;
  syscalls_counter = 0;
  exit_status = 0;
  kill_signal = 0;
  kill_reason = none;
  kill_reason_comment = codes "";
}

abbrev pub cycles_per_second : ℕ
cycles_per_second = 2_000_000_000

unfoldable pub set_cycles_used : ℕ → OiModel → OiModel
set_cycles_used cycles o = record o {
  milli_seconds_elapsed = u64 (cycles * 1000) / cycles_per_second;
}

unfoldable pub set_real_time_microseconds : ℕ → OiModel → OiModel
set_real_time_microseconds time o = record o { real_milli_seconds_elapsed = time / 1000 }

unfoldable pub set_user_time_microseconds : ℕ → OiModel → OiModel
set_user_time_microseconds time o = record o { user_milli_seconds_elapsed = time / 1000 }

unfoldable pub set_sys_time_microseconds : ℕ → OiModel → OiModel
set_sys_time_microseconds time o = record o { sys_milli_seconds_elapsed = time / 1000 }

unfoldable pub set_memory_peak : ℕ → OiModel → OiModel
set_memory_peak peak_kb o = record o { memory_peak_kb = peak_kb }

unfoldable pub set_exit_status : ℕ → OiModel → OiModel
set_exit_status status o = if o.exit_status == 0 then record o { exit_status = status } else o

unfoldable pub set_kill_signal : ℕ → OiModel → OiModel
unfolding set_exit_status
set_kill_signal signal o =
    if o.kill_signal == 0
    then set_exit_status (u32 (128 + signal)) (record o { kill_signal = signal })
    else o

-- Only the first kill reason is remembered.
unfoldable pub set_kill_reason : KillReason → Text → OiModel → OiModel
set_kill_reason reason comment o =
    if is_none o.kill_reason
    then record o { kill_reason = reason; kill_reason_comment = comment }
    else o
