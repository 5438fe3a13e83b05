-- ===== src/Tracer/Tracee.antt =====
-- tracer/Tracee.{h,cc}, built for x86_64: the handle of a stopped process. `getMemoryString`,
-- which only throws, and the printing of an architecture are left out.
use sio2jail.Common.{ℕ, Bool, true, false, not, ◌==◌, if◌then◌else◌, [], u32, ◌-◌, ◌^◌}
use sio2jail.System.{
  M, ◌>>=◌, ◌>>◌, pure, throw, Outcome, done, threw, exception, system_exception, invoke, query,
  with_errno_check, with_errno_check_, kill, Regs, Reply, ptrace_getregs, ptrace_setregs,
  ptrace_geteventmsg, esrch,
}

pub data Arch : Type 0 where
  unknown x86 x86_64 : Arch

pub record Tracee : Type 0 where
  pub pid : ℕ
  pub regs : Regs
  pub signal_suppressed : Bool
  pub syscall_arch : Arch

abbrev pub zero_regs : Regs
zero_regs = record {
  rip = 0;
  rax = 0;
  rbx = 0;
  rcx = 0;
  rdx = 0;
  rsi = 0;
  rdi = 0;
  rbp = 0;
  r8 = 0;
  r9 = 0;
  r10 = 0;
  orig_rax = 0;
}

-- `kill(pid, 0) == 0`.
unfoldable pub is_alive : ℕ → M Bool
is_alive pid = do r ← invoke (kill pid 0); pure (not r.failed)

unfoldable pub checked_regs : Reply → Regs → M Regs
checked_regs r regs =
    if r.failed
    then if r.errno == esrch then pure zero_regs else throw (system_exception r.errno)
    else pure regs

unfoldable pub get_regs : ℕ → M Regs
unfolding checked_regs
get_regs pid = do
  r ← (λ k w. pure (k.reply w.history (ptrace_getregs pid)) k w)
  regs ← query (ptrace_getregs pid) (λ k h. k.registers h pid)
  checked_regs r regs

-- The constructor: the registers of a process that is gone stay zero.
unfoldable pub make : ℕ → M Tracee
make pid = do
  alive ← is_alive pid
  regs ← (if alive then get_regs pid else pure zero_regs)
  pure (record { pid = pid; regs = regs; signal_suppressed = false; syscall_arch = Arch.unknown })

unfoldable pub get_event_msg : Tracee → M ℕ
get_event_msg t = do r ← with_errno_check [] (ptrace_geteventmsg t.pid); pure r.value

unfoldable pub set_syscall_arch : Arch → Tracee → Tracee
set_syscall_arch arch t = record t { syscall_arch = arch }

unfoldable pub number_under : Arch → Regs → Outcome ℕ
number_under Arch.unknown r = threw exception
number_under Arch.x86 r = done r.orig_rax
number_under Arch.x86_64 r = done r.orig_rax

unfoldable pub get_syscall_number : Tracee → Outcome ℕ
unfolding number_under
get_syscall_number t = number_under t.syscall_arch t.regs

unfoldable pub argument_under : Arch → Regs → ℕ → Outcome ℕ
argument_under Arch.unknown r n = threw exception
argument_under Arch.x86 r n =
    if n == 0
    then done (u32 r.rbx)
    else if n == 1
    then done (u32 r.rcx)
    else if n == 2
    then done (u32 r.rdx)
    else if n == 3
    then done (u32 r.rsi)
    else if n == 4
    then done (u32 r.rdi)
    else if n == 5
    then done (u32 r.rbp)
    else threw exception
argument_under Arch.x86_64 r n =
    if n == 0
    then done r.rdi
    else if n == 1
    then done r.rsi
    else if n == 2
    then done r.rdx
    else if n == 3
    then done r.r10
    else if n == 4
    then done r.r8
    else if n == 5
    then done r.r9
    else threw exception

unfoldable pub get_syscall_argument : Tracee → ℕ → Outcome ℕ
unfolding argument_under
get_syscall_argument t n = argument_under t.syscall_arch t.regs n

unfoldable pub set_registers : ℕ → ℕ → ℕ → Tracee → M Tracee
set_registers rip rax rdx t = do
  let regs = record t.regs { rip = rip; rax = rax; rdx = rdx }
  with_errno_check_ [] (ptrace_setregs t.pid regs)
  pure (record t { regs = regs })

-- The number -1 makes the kernel skip the call; the result is what the program gets.
unfoldable pub cancel_syscall : ℕ → Tracee → M Tracee
cancel_syscall return_value t = do
  let regs = record t.regs { orig_rax = 2 ^ 64 - 1; rax = return_value }
  with_errno_check_ [] (ptrace_setregs t.pid regs)
  pure (record t { regs = regs })

unfoldable pub suppress_signal : Tracee → Tracee
suppress_signal t = record t { signal_suppressed = true }
