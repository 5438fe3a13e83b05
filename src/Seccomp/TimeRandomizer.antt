-- ===== src/Seccomp/TimeRandomizer.antt =====
-- seccomp/TimeRandomizerListener.cc: the instructions that read the time-stamp counter trap, and are
-- emulated with made-up values.
pub mod Emulated
use Prim.Native.Nat.{bit_and}
use sio2jail.Common.{
  ℕ, ◌+◌, ◌*◌, ◌/◌, ◌%◌, Bool, true, false, not, ◌&&◌, ◌==◌, if◌then◌else◌, u64, [], Option, none,
  some,
}
use sio2jail.Executor.Event.{ExecuteEvent}
use sio2jail.System.{
  M, ◌>>=◌, ◌>>◌, pure, Reply, invoke, rand, set_tsc_sigsegv, ptrace_peektext, with_errno_check_,
}
use sio2jail.Tracer.Action.{TraceAction}
use sio2jail.Tracer.Tracee.{Tracee, set_registers, suppress_signal}

abbrev pub sigsegv : ℕ
sigsegv = 11

unfoldable pub on_post_fork_child : M (Unit {0})
unfolding with_errno_check_
on_post_fork_child = with_errno_check_ [] set_tsc_sigsegv

-- The size of RDTSC or RDTSCP at the start of the word; no other instruction is emulated.
unfoldable pub instruction_size : ℕ → Option ℕ
instruction_size word =
    let byte0 : ℕ = word % 256 in
    let byte1 : ℕ = word / 256 % 256 in
    let byte2 : ℕ = word / (256 * 256) % 256 in
    if byte0 == 0x0F && byte1 == 0x31
    then some 2
    else if byte0 == 0x0F && (byte1 == 0x01 && byte2 == 0xF9)
    then some 3
    else none

unfoldable pub fake_value : Bool → M ℕ
fake_value true = pure 0
fake_value false = do r ← invoke rand; pure r.value

unfoldable pub emulate : Bool → Tracee → Option ℕ → M (TraceAction × Tracee)
unfolding fake_value set_registers suppress_signal
emulate return_zero tracee none = pure (TraceAction.continue, tracee)
emulate return_zero tracee (some size) = do
  rax ← fake_value return_zero
  rdx ← fake_value return_zero
  set ← set_registers (u64 (tracee.regs.rip + size)) rax rdx tracee
  pure (TraceAction.continue, suppress_signal set)

-- `errno` is 0 before the word is read: what it holds after tells an error from a value.
unfoldable pub on_trace_event : Bool → ExecuteEvent → Tracee → M (TraceAction × Tracee)
unfolding emulate instruction_size
on_trace_event return_zero event tracee =
    if bit_and event.signal 0xff == sigsegv
    then (do
      r ← invoke (ptrace_peektext tracee.pid tracee.regs.rip)
      if r.errno == 0
          then emulate return_zero tracee (instruction_size r.value)
          else pure (TraceAction.continue, tracee))
    else pure (TraceAction.continue, tracee)
