-- ===== src/Printer/Calls.antt =====
-- Sequences of calls on the shared builder, as the listeners make them during a run.
use sio2jail.Common.{ℕ, ◌-◌, ◌^◌, ◌<◌, ◌≡◌, ◌≢◌, refl, Text, List, [], ◌∷◌, ◌++◌, All, arith}
use sio2jail.Printer.{
  OiModel, KillReason, none, make, set_cycles_used, set_real_time_microseconds,
  set_user_time_microseconds, set_sys_time_microseconds, set_memory_peak, set_exit_status,
  set_kill_signal, set_kill_reason,
}

pub data Setter : Type 0 where
  cycles_used real_time user_time sys_time memory_peak exit_status kill_signal : ℕ → Setter
  kill_reason : KillReason → Text → Setter

pub apply : Setter → OiModel → OiModel
apply (cycles_used n) o = set_cycles_used n o
apply (real_time n) o = set_real_time_microseconds n o
apply (user_time n) o = set_user_time_microseconds n o
apply (sys_time n) o = set_sys_time_microseconds n o
apply (memory_peak n) o = set_memory_peak n o
apply (exit_status n) o = set_exit_status n o
apply (kill_signal n) o = set_kill_signal n o
apply (kill_reason r c) o = set_kill_reason r c o

pub run : List Setter → OiModel → OiModel
run [] o = o
run (s ∷ ss) o = run ss (apply s o)

run-append : (xs ys : List Setter) (o : OiModel) → run (xs ++ ys) o ≡ run ys (run xs o)
unfolding run
run-append [] ys o = refl
run-append (x ∷ xs) ys o = run-append xs ys (apply x o)

-- The call sets no kill reason.
abbrev pub SetsNoReason : Setter → Type 0
SetsNoReason (kill_reason r c) = r ≡ none
SetsNoReason _ = Unit {0}

apply-keeps_reason :
    (s : Setter) (o : OiModel)
    → o.kill_reason ≢ none
    → ((apply s o).kill_reason ≡ o.kill_reason)
      × ((apply s o).kill_reason_comment ≡ o.kill_reason_comment)
unfolding apply set_cycles_used set_real_time_microseconds set_user_time_microseconds
    set_sys_time_microseconds set_memory_peak set_exit_status set_kill_signal set_kill_reason
apply-keeps_reason (cycles_used n) o h = ground arith
apply-keeps_reason _ o h = ground arith

run-keeps_reason :
    (ss : List Setter) (o : OiModel)
    → o.kill_reason ≢ none
    → ((run ss o).kill_reason ≡ o.kill_reason)
      × ((run ss o).kill_reason_comment ≡ o.kill_reason_comment)
unfolding run
run-keeps_reason [] o h = (refl, refl)
run-keeps_reason (s ∷ ss) o h =
    ground (arith, apply-keeps_reason s o, run-keeps_reason ss (apply s o))

apply-no_reason :
    (s : Setter) (o : OiModel)
    → SetsNoReason s
    → o.kill_reason ≡ none
    → (apply s o).kill_reason ≡ none
unfolding apply set_cycles_used set_real_time_microseconds set_user_time_microseconds
    set_sys_time_microseconds set_memory_peak set_exit_status set_kill_signal set_kill_reason
apply-no_reason (cycles_used n) o h e = ground arith
apply-no_reason _ o h e = ground arith

run-no_reason :
    (ss : List Setter) (o : OiModel)
    → All SetsNoReason ss
    → o.kill_reason ≡ none
    → (run ss o).kill_reason ≡ none
unfolding run
run-no_reason [] o h e = e
run-no_reason (s ∷ ss) o h e = run-no_reason ss (apply s o) h.1 (apply-no_reason s o h.0 e)

set_kill_reason_first :
    (r : KillReason) (c : Text) (o : OiModel)
    → o.kill_reason ≡ none
    → ((set_kill_reason r c o).kill_reason ≡ r) × ((set_kill_reason r c o).kill_reason_comment ≡ c)
unfolding set_kill_reason
set_kill_reason_first r c o e = ground arith

-- From a builder with no kill reason, the first call of a sequence that gives one decides both the
-- reason and its comment, whatever setters are called before and after it.
pub run_first_reason :
    (xs ys : List Setter) (r : KillReason) (c : Text) (o : OiModel)
    → o.kill_reason ≡ none
    → All SetsNoReason xs
    → r ≢ none
    → ((run (xs ++ kill_reason r c ∷ ys) o).kill_reason ≡ r)
      × ((run (xs ++ kill_reason r c ∷ ys) o).kill_reason_comment ≡ c)
unfolding run apply
run_first_reason xs ys r c o e h hr = ground (
  arith,
  run-append xs (kill_reason r c ∷ ys) o,
  run-no_reason xs o h e,
  set_kill_reason_first r c (run xs o),
  run-keeps_reason ys (set_kill_reason r c (run xs o)),
)

-- A builder that holds a signal holds an exit status too, as the oitt format's order of tests asks.
abbrev pub SignalExits : OiModel → Type 0
SignalExits o = 0 < o.kill_signal → 0 < o.exit_status

-- The signal that the call gives, if any, does not wrap when 128 is added.
abbrev pub SmallSignal : Setter → Type 0
SmallSignal (kill_signal n) = n < 2 ^ 32 - 128
SmallSignal _ = Unit {0}

apply-SignalExits :
    (s : Setter) (o : OiModel) → SmallSignal s → SignalExits o → SignalExits (apply s o)
unfolding apply set_cycles_used set_real_time_microseconds set_user_time_microseconds
    set_sys_time_microseconds set_memory_peak set_exit_status set_kill_signal set_kill_reason
apply-SignalExits (cycles_used n) o b h = ground arith
apply-SignalExits _ o b h = ground arith

run-SignalExits_from :
    (ss : List Setter) (o : OiModel) → All SmallSignal ss → SignalExits o → SignalExits (run ss o)
unfolding run
run-SignalExits_from [] o b h = h
run-SignalExits_from (s ∷ ss) o b h =
    run-SignalExits_from ss (apply s o) b.1 (apply-SignalExits s o b.0 h)

-- After any sequence of setters on a new builder, a nonzero signal comes with a nonzero exit
-- status, if no signal is so large that 128 plus it wraps.
pub run-SignalExits :
    (ss : List Setter) (user sys : ℕ) → All SmallSignal ss → SignalExits (run ss (make user sys))
unfolding make
run-SignalExits ss user sys b = run-SignalExits_from ss (make user sys) b (ground arith)
