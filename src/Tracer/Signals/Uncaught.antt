-- ===== src/Tracer/Signals/Uncaught.antt =====
-- Which signals are fatal: those that the program does not catch and that are not on the tracer's
-- list of ignored ones.
use Prim.Native.Nat.{bit_and, bit_or}
use sio2jail.Common.{
  ℕ, zero, suc, ◌-◌, ◌*◌, ◌^◌, ◌≤◌, ◌<◌, ◌≡◌, ◌≢◌, refl, ap, ◌∙◌, Bool, true, false, not, ◌==◌,
  ◌||◌, ltb, if◌then◌else◌, u64, arith, ≢→==, ==_iff, bit, bit-zero, bit-bit_and, bit-bit_or,
  bit_and-pow, bit-mod_pow, bit-le-one, below_all, everywhere_below,
}
use native.Mathlib.Nat.{one-le-pow}
use sio2jail.Printer.{set_kill_signal}
use sio2jail.System.{Kernel, World, done}
use sio2jail.Tracer.Action.{TraceAction}
use sio2jail.Tracer.Signals.{deliver, ignored_signals, sigkill}

-- SIGCHLD, SIGCONT, SIGSTOP, SIGURG and SIGWINCH.
unfoldable pub is_ignored : ℕ → Bool
is_ignored s = s == 17 || (s == 18 || (s == 19 || (s == 23 || s == 28)))

-- SigCgt has signal `s` at bit `s - 1`.
unfoldable pub is_caught : ℕ → ℕ → Bool
is_caught mask zero = false
is_caught mask (suc t) = bit t mask == 1

ignored_table : below_all 31 (λ s. bit s ignored_signals == (if is_ignored s then 1 else 0)) ≡ true
unfolding below_all bit is_ignored
ignored_table = refl

ignored_bit : (s : ℕ) → s < 31 → bit s ignored_signals ≡ (if is_ignored s then 1 else 0)
ignored_bit s h = (==_iff _ _).0 (
    everywhere_below 31 (λ t. bit t ignored_signals == (if is_ignored t then 1 else 0)) s
      ignored_table h)

caught_bit : (mask t : ℕ) → suc t < 31 → bit (suc t) (u64 (mask * 2)) ≡ bit t mask
unfolding bit
caught_bit mask t h = bit-mod_pow (suc t) 64 (mask * 2) (omega arith) ∙ ap (bit t) (omega arith)

test_bit :
    (mask t : ℕ)
    → suc t < 31
    → (bit_and (bit_or (u64 (mask * 2)) ignored_signals) (2 ^ suc t) == 0)
      ≡ not (is_caught mask (suc t) || is_ignored (suc t))
unfolding is_caught
test_bit mask t h = ground (
  arith,
  bit_and-pow (suc t) (bit_or (u64 (mask * 2)) ignored_signals),
  bit-bit_or (suc t) (u64 (mask * 2)) ignored_signals,
  caught_bit mask t h,
  ignored_bit (suc t) h,
  bit-le-one t mask,
  one-le-pow (suc t) 2 (omega arith),
)

-- A signal from 1 to 30 is delivered if the program catches it or if it is SIGCHLD, SIGCONT,
-- SIGSTOP, SIGURG or SIGWINCH, and nothing else changes. Any other one, SIGTSTP, SIGTTIN and SIGTTOU
-- included, is replaced by SIGKILL, asks for a kill, and is what the builder is told.
pub deliver_lem :
    (undefined : ℕ → ℕ) (mask s : ℕ) (k : Kernel) (w : World)
    → 0 < s
    → s < 31
    → deliver undefined mask s k w ≡ (
        if is_caught mask s || is_ignored s
        then done ((TraceAction.continue, s), w)
        else done ((TraceAction.kill, sigkill), record w { output = set_kill_signal s w.output }))
unfolding deliver
deliver_lem undefined mask zero k w h₀ h = absurd (omega arith)
deliver_lem undefined mask (suc t) k w h₀ h = ground (arith, test_bit mask t h)

high_table : below_all 64 (λ i. ltb i 31 || bit i (2 ^ 64 - 2 ^ 31) == 1) ≡ true
unfolding below_all bit
high_table = refl

high_bit : (i : ℕ) → 31 ≤ i → i < 64 → bit i (2 ^ 64 - 2 ^ 31) ≡ 1
high_bit i lo hi =
    ground
      (arith, everywhere_below 64 (λ j. ltb j 31 || bit j (2 ^ 64 - 2 ^ 31) == 1) i high_table hi)

any_high_bit :
    (mask i : ℕ)
    → 31 ≤ i
    → i < 63
    → bit i mask ≡ 1
    → bit_and (bit_or (u64 (mask * 2)) ignored_signals) (2 ^ 64 - 2 ^ 31) ≢ 0
unfolding bit
any_high_bit mask i lo hi set zero_and =
    let shifted : bit (suc i) (u64 (mask * 2)) ≡ 1 =
      bit-mod_pow (suc i) 64 (mask * 2) (omega arith) ∙ ap (bit i) (omega arith) ∙ set in
    omega (
      arith,
      bit-bit_and (suc i) (bit_or (u64 (mask * 2)) ignored_signals) (2 ^ 64 - 2 ^ 31),
      bit-bit_or (suc i) (u64 (mask * 2)) ignored_signals,
      shifted,
      high_bit (suc i) (omega arith) (omega arith),
      ap (bit (suc i)) zero_and,
      bit-zero (suc i),
    )

-- Signal 31, SIGSYS, is delivered without a kill to any program that catches some signal from 32 to
-- 63, also if it does not catch SIGSYS.
pub deliver_sigsys :
    (undefined : ℕ → ℕ) (mask i : ℕ) (k : Kernel) (w : World)
    → 31 ≤ i
    → i < 63
    → bit i mask ≡ 1
    → deliver undefined mask 31 k w ≡ done ((TraceAction.continue, 31), w)
unfolding deliver
deliver_sigsys undefined mask i k w lo hi set = rw (≢→== _ _ (any_high_bit mask i lo hi set))
