-- ===== src/Seccomp/TimeRandomizer/Emulated.antt =====
-- A program that reads the counter goes on behind the instruction, with the made-up values.
use Prim.Native.Nat.{bit_and}
use sio2jail.Common.{
  ℕ, ◌+◌, ◌*◌, ◌≡◌, ◌⊎◌, inl, inr, Bool, true, false, u64, List, [], ◌∷◌, some, arith,
}
use sio2jail.Executor.Event.{ExecuteEvent}
use sio2jail.System.{Kernel, World, ◌>>=◌, done, Syscall, rand, ptrace_peektext, ptrace_setregs}
use sio2jail.System.Checks.{with_errno_check_-succeeds}
use sio2jail.Tracer.Action.{TraceAction}
use sio2jail.Tracer.Tracee.{Tracee, set_registers, suppress_signal}
use sio2jail.Seccomp.TimeRandomizer.{instruction_size, fake_value, emulate, on_trace_event}

-- The bytes 0F 31, or 0F 01 F9, at the start of a little-endian word, and their number.
abbrev pub Rdtsc : ℕ → ℕ → ℕ → Type 0
Rdtsc word rest size =
    (((word ≡ 0x0F + 256 * (0x31 + 256 * rest)) × (size ≡ 2))
      ⊎ ((word ≡ 0x0F + 256 * (0x01 + 256 * (0xF9 + 256 * rest))) × (size ≡ 3)))

instruction_size-Rdtsc :
    (word rest size : ℕ) → Rdtsc word rest size → instruction_size word ≡ some size
unfolding instruction_size
instruction_size-Rdtsc word rest size (inl (e, f)) = ground arith
instruction_size-Rdtsc word rest size (inr (e, f)) = ground arith

-- The made-up values: zeros, or two answers of rand in turn.
abbrev pub fakes : Bool → Kernel → List Syscall → ℕ × ℕ
fakes true k h = (0, 0)
fakes false k h = ((k.reply h rand).value, (k.reply (rand ∷ h) rand).value)

abbrev pub fake_calls : Bool → List Syscall → List Syscall
fake_calls true h = h
fake_calls false h = rand ∷ rand ∷ h

-- The registers behind an instruction of the size, with the values.
abbrev pub behind : ℕ → ℕ × ℕ → Tracee → Tracee
behind size values t = record t {
  regs = record t.regs { rip = u64 (t.regs.rip + size); rax = values.0; rdx = values.1 };
  signal_suppressed = true;
}

emulate_lem :
    (return_zero : Bool) (t : Tracee) (size : ℕ) (k : Kernel) (w : World)
    → ((h : List Syscall) (c : Syscall) → (k.reply h c).failed ≡ false)
    → emulate return_zero t (some size) k w
      ≡ done (
        (TraceAction.continue, behind size (fakes return_zero k w.history) t),
        record w {
          history =
              ptrace_setregs t.pid (behind size (fakes return_zero k w.history) t).regs
              ∷ fake_calls return_zero w.history;
        },
      )
unfolding emulate fake_value set_registers suppress_signal
emulate_lem true t size k w h = rw (
  with_errno_check_-succeeds [] (ptrace_setregs t.pid (behind size (fakes true k w.history) t).regs)
      k w (h _ _),
  ◌>>=◌,
)
emulate_lem false t size k w h = rw (
  with_errno_check_-succeeds []
      (ptrace_setregs t.pid (behind size (fakes false k w.history) t).regs) k
      (record w { history = rand ∷ rand ∷ w.history }) (h _ _),
  ◌>>=◌,
)

-- If all calls succeed, then at a SIGSEGV on an instruction that reads the counter, whose bytes are
-- read without an errno, the program's registers are set to those behind the instruction with the
-- made-up values, and the signal is marked as suppressed; nothing else changes.
pub on_trace_event_emulates :
    (return_zero : Bool) (event : ExecuteEvent) (t : Tracee) (rest size : ℕ) (k : Kernel)
    (w : World)
    → bit_and event.signal 0xff ≡ 11
    → (k.reply w.history (ptrace_peektext t.pid t.regs.rip)).errno ≡ 0
    → Rdtsc (k.reply w.history (ptrace_peektext t.pid t.regs.rip)).value rest size
    → ((h : List Syscall) (c : Syscall) → (k.reply h c).failed ≡ false)
    → on_trace_event return_zero event t k w
      ≡ done (
        (
          TraceAction.continue,
          behind size (fakes return_zero k (ptrace_peektext t.pid t.regs.rip ∷ w.history)) t,
        ),
        record w {
          history =
              ptrace_setregs t.pid
                (behind size
                  (fakes return_zero k (ptrace_peektext t.pid t.regs.rip ∷ w.history))
                  t).regs
              ∷ fake_calls return_zero (ptrace_peektext t.pid t.regs.rip ∷ w.history);
        },
      )
unfolding on_trace_event
on_trace_event_emulates return_zero event t rest size k w hs he hr hk =
    rw (hs, he, instruction_size-Rdtsc _ rest size hr, ◌>>=◌)
      (emulate_lem return_zero t size k
        (record w { history = ptrace_peektext t.pid t.regs.rip ∷ w.history }) hk)
