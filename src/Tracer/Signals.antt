-- ===== src/Tracer/Signals.antt =====
-- tracer/TraceExecutor.cc, handleTraceeSignal.
pub mod Uncaught
use Prim.Native.Nat.{bit_and, bit_or}
use sio2jail.Common.{ℕ, ◌+◌, ◌-◌, ◌*◌, ◌^◌, Bool, true, false, ◌&&◌, ltb, ◌==◌, if◌then◌else◌, u64}
use sio2jail.Executor.Event.{ExecuteEvent}
use sio2jail.Printer.{set_kill_signal}
use sio2jail.ProcFs.{sig_cgt, read_proc_fs}
use sio2jail.System.{M, ◌>>=◌, ◌>>◌, pure, report}
use sio2jail.Tracer.Action.{TraceAction}
use sio2jail.Tracer.Tracee.{Tracee}

abbrev pub sigtrap : ℕ
sigtrap = 5

abbrev pub sigkill : ℕ
sigkill = 9

-- SIGCHLD, SIGCLD, SIGURG, SIGWINCH, SIGSTOP and SIGCONT.
abbrev pub ignored_signals : ℕ
ignored_signals =
    bit_or (2 ^ 17) (bit_or (2 ^ 17) (bit_or (2 ^ 23) (bit_or (2 ^ 28) (bit_or (2 ^ 19) (2 ^ 18)))))

-- The machine's shift of the int 1, as 64 bits: at 31 the sign is extended, and from 32 on C++
-- leaves the result undefined, so it is an argument.
unfoldable pub shift_one : (ℕ → ℕ) → ℕ → ℕ
shift_one undefined signal =
    if ltb signal 31 then 2 ^ signal else if signal == 31 then 2 ^ 64 - 2 ^ 31 else undefined signal

module _ (undefined : ℕ → ℕ) where
  -- What follows the reading of the mask of caught signals.
  unfoldable pub deliver : ℕ → ℕ → M (TraceAction × ℕ)
  unfolding shift_one
  deliver sig_cgt_mask signal =
      let caught = bit_or (u64 (sig_cgt_mask * 2)) ignored_signals in
      if bit_and caught (shift_one undefined signal) == 0
      then (do report (set_kill_signal signal); pure (TraceAction.kill, sigkill))
      else pure (TraceAction.continue, signal)

  unfoldable pub handle_tracee_signal : ExecuteEvent → Tracee → M (TraceAction × ℕ)
  handle_tracee_signal event tracee =
      let signal = bit_and event.signal 0xff in
      if tracee.signal_suppressed
      then pure (TraceAction.continue, 0)
      else if event.trapped && signal == sigtrap
      then pure (TraceAction.continue, 0)
      else if ltb 0 signal
      then (do mask ← read_proc_fs tracee.pid sig_cgt; deliver mask signal)
      else pure (TraceAction.continue, signal)
