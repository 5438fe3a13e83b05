-- ===== src/System.antt =====
-- The operating system as the program sees it, and common/WithErrnoCheck.h, common/Exception.h and
-- common/Assert.h. The kernel is a parameter: it answers a call from the calls made so far, so a
-- statement over every `Kernel` covers all its behaviours. A computation reads the kernel, extends
-- the history of calls, changes the shared result builder, and may throw.
pub mod Checks
pub mod Sample
pub mod Sequence
pub mod Kept
use sio2jail.Common.{
  ℕ, Bool, true, false, not, ◌&&◌, ◌==◌, if◌then◌else◌, Text, List, [], ◌∷◌, Option,
}
use sio2jail.Printer.{OiModel}
use sio2jail.Seccomp.Library.{ArgCmp, LibAction}

pub record Regs : Type 0 where
  pub rip : ℕ
  pub rax : ℕ
  pub rbx : ℕ
  pub rcx : ℕ
  pub rdx : ℕ
  pub rsi : ℕ
  pub rdi : ℕ
  pub rbp : ℕ
  pub r8 : ℕ
  pub r9 : ℕ
  pub r10 : ℕ
  pub orig_rax : ℕ

pub data RlimitResource : Type 0 where
  rlimit_as rlimit_stack rlimit_fsize : RlimitResource

-- The calls that the modelled code makes, with the arguments that it computes; those of libseccomp
-- too, which give a negated errno where they fail.
pub data Syscall : Type 0 where
  kill ptrace_cont : (pid signal : ℕ) → Syscall
  ptrace_traceme : Syscall
  ptrace_setoptions : (pid options : ℕ) → Syscall
  ptrace_geteventmsg ptrace_getregs : (pid : ℕ) → Syscall
  ptrace_setregs : (pid : ℕ) → Regs → Syscall
  ptrace_peektext : (pid address : ℕ) → Syscall
  waitid_clear : (pid : ℕ) → Syscall
  waitid_any waitpid_final : Syscall
  waitid_pid waitpid : (pid : ℕ) → Syscall
  setrlimit : RlimitResource → (cur max : ℕ) → Syscall
  timer_create : Syscall
  timer_settime : (value_sec value_nsec interval_sec interval_nsec : ℕ) → Syscall
  read_status read_stat : (pid : ℕ) → Syscall
  clock_now : Syscall
  set_tsc_sigsegv rand getpid : Syscall
  set_securebits : (bits : ℕ) → Syscall
  write : (fd : ℕ) → Text → Syscall
  unshare : (flags : ℕ) → Syscall
  mount : (source target : Text) → (fstype : Option Text) → (flags : ℕ) → Syscall
  umount2 : (target : Text) → (flags : ℕ) → Syscall
  pivot_root : (new_root put_old : Text) → Syscall
  chdir chroot opendir sethostname setdomainname : Text → Syscall
  mkdir : (path : Text) → (mode : ℕ) → Syscall
  open_file : (path : Text) → (flags : ℕ) → Syscall
  close : (fd : ℕ) → Syscall
  dup2 : (fd target : ℕ) → Syscall
  fcntl : (fd command argument : ℕ) → Syscall
  getuid getgid : Syscall
  get_securebits clear_ambient no_new_privs capset_empty : Syscall
  capbset_drop : (capability : ℕ) → Syscall
  perf_event_open : (type config config1 config2 sample_period wakeup_events pid : ℕ) → Syscall
  read_counter : (fd : ℕ) → Syscall
  execv : (path : Text) → (argv : List Text) → Syscall
  map_barrier unmap_barrier barrier_wait : Syscall
  fork sigfillset : Syscall
  seccomp_init : (default_action : LibAction) → Syscall
  seccomp_arch_remove_native : (ctx : ℕ) → Syscall
  seccomp_arch_add : (ctx arch : ℕ) → Syscall
  seccomp_rule_add : (ctx : ℕ) → LibAction → (syscall : ℕ) → List ArgCmp → Syscall
  seccomp_merge : (ctx source : ℕ) → Syscall
  seccomp_load : (ctx : ℕ) → Syscall
  seccomp_export_pfc : (ctx fd : ℕ) → Syscall
  memfd_create : Syscall
  ftruncate : (fd length : ℕ) → Syscall
  lseek_start read_buffer : (fd : ℕ) → Syscall
  sigaction : (signal : ℕ) → Syscall

-- A result below 0 is `failed`; `errno` is what the variable holds after the call.
pub record Reply : Type 0 where
  pub failed : Bool
  pub value : ℕ
  pub errno : ℕ

pub data SiCode : Type 0 where
  cld_exited cld_killed cld_dumped cld_trapped cld_stopped cld_other : SiCode

pub record SigInfo : Type 0 where
  pub si_pid : ℕ
  pub si_code : SiCode
  pub si_status : ℕ

pub record Kernel : Type 0 where
  pub reply : List Syscall → Syscall → Reply
  pub wait_info : List Syscall → SigInfo
  pub registers : List Syscall → ℕ → Regs
  pub status_file : List Syscall → ℕ → Option (List Text)
  pub stat_file : List Syscall → ℕ → Option Text

pub data Exn : Type 0 where
  system_exception : (errno : ℕ) → Exn
  assertion_exception exception stl_exception : Exn

pub data Outcome {ℓ} (A : Type ℓ) : Type ℓ where
  done : A → Outcome A
  threw : Exn → Outcome A

-- The calls made so far, the latest first, and the builder that the listeners share.
pub record World : Type 0 where
  pub history : List Syscall
  pub output : OiModel

abbrev pub M : Type 0 → Type 0
M A = Kernel → World → Outcome (A × World)

infixl 5 ◌>>=◌ ◌>>◌
abbrev pub ◌>>=◌ : {A B : Type 0} → M A → (A → M B) → M B
◌>>=◌ m f k w = elim (m k w) [ done (a, w') ↦ f a k w' | threw e ↦ threw e ]

abbrev pub ◌>>◌ : {B : Type 0} → M (Unit {0}) → M B → M B
m >> n = m >>= λ _. n

abbrev pub pure : {A : Type 0} → A → M A
pure a k w = done (a, w)

abbrev pub throw : {A : Type 0} → Exn → M A
throw e k w = threw e

-- `assert` of common/Assert.h.
abbrev pub assert_that : Bool → M (Unit {0})
assert_that true = pure tt
assert_that false = throw assertion_exception

-- A call of a setter on the shared builder.
abbrev pub report : (OiModel → OiModel) → M (Unit {0})
report f k w = done (tt, record w { output = f w.output })

-- A call whose result the code looks at itself.
abbrev pub invoke : Syscall → M Reply
invoke c k w = done (k.reply w.history c, record w { history = c ∷ w.history })

abbrev pub query : {A : Type 0} → Syscall → (Kernel → List Syscall → A) → M A
query c f k w = done (f k w.history, record w { history = c ∷ w.history })

unfoldable pub contains : ℕ → List ℕ → Bool
contains e [] = false
contains e (x ∷ xs) = if x == e then true else contains e xs

-- `withErrnoCheck`: a failure whose errno is not to be ignored throws.
unfoldable pub check_errno : List ℕ → Reply → M Reply
unfolding contains
check_errno ignored r =
    if r.failed && not (contains r.errno ignored) then throw (system_exception r.errno) else pure r

unfoldable pub with_errno_check : List ℕ → Syscall → M Reply
unfolding check_errno
with_errno_check ignored c = do r ← invoke c; check_errno ignored r

-- The same, for a call whose result is not used.
unfoldable pub with_errno_check_ : List ℕ → Syscall → M (Unit {0})
unfolding with_errno_check
with_errno_check_ ignored c = do r ← with_errno_check ignored c; pure tt

abbrev pub esrch : ℕ
esrch = 3

abbrev pub eintr : ℕ
eintr = 4

abbrev pub echild : ℕ
echild = 10

abbrev pub eagain : ℕ
eagain = 11

abbrev pub eperm : ℕ
eperm = 1

abbrev pub einval : ℕ
einval = 22

abbrev pub enosys : ℕ
enosys = 38

abbrev pub ebadf : ℕ
ebadf = 9

abbrev pub eexist : ℕ
eexist = 17
