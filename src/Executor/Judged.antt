-- ===== src/Executor/Judged.antt =====
-- A property of the shared state through the stages of the listeners: it holds until a kill reason is
-- given.
pub mod Loop
use sio2jail.Common.{
  ℕ, suc, zero, ◌≡◌, ◌≢◌, ◌⊎◌, inl, inr, refl, Bool, Bool-cases, true, false, ◌||◌, ◌==◌,
  if◌then◌else◌, List, [], ◌∷◌, Option, none, some, All, ◌∙◌, ap, arith,
}
use sio2jail.Executor.Event.{ExecuteEvent, ExecuteAction, max}
use sio2jail.Executor.{
  Listener, Flags, event_of, kill_child, obey, wait, wait_call, report_end, finish_event,
  setup_signal_handling, notify_pre_fork, notify, notify_sigio, notify_sigalrm, notify_forked,
  notify_ended, check_signals, on_wait, round, loop, after_loop, execute_parent, sigkill, execute,
  Returned, in_child, in_parent,
}
use sio2jail.Printer.{KillReason, set_kill_signal, set_exit_status}
use sio2jail.System.{
  Kernel, World, Reply, fork, with_errno_check, M, ◌>>=◌, ◌>>◌, pure, throw, Outcome, done, threw,
  report, Syscall, SigInfo, assert_that, with_errno_check_, invoke, system_exception, echild,
  waitpid_final,
}
use sio2jail.System.Checks.{>>=-eq-done}
use sio2jail.System.Kept.Reports.{set_kill_signal-Keeps, set_exit_status-Keeps}
use sio2jail.System.Kept.{
  Keeps, keeping, bind-Keeps, if-Keeps, pure-Keeps, report-Keeps, Judged, Judges, Keeps-Judges,
  bind-Judges, pure-Judges, aside, returned, with_errno_check_-Keeps, with_errno_check-Keeps,
}

kill_child-Keeps : (child : ℕ) → Keeps (kill_child child)
unfolding kill_child
kill_child-Keeps child = search (keeping, set_kill_signal-Keeps)

pub obey-Keeps : (child : ℕ) (action : ExecuteAction) → Keeps (obey child action)
unfolding obey
obey-Keeps child ExecuteAction.continue = pure-Keeps tt
obey-Keeps child ExecuteAction.kill = kill_child-Keeps child

report_end-Keeps : (event : ExecuteEvent) → Keeps (report_end event)
unfolding report_end
report_end-Keeps event = search (keeping, set_kill_signal-Keeps, set_exit_status-Keeps)

assert_that-Keeps : (b : Bool) → Keeps (assert_that b)
assert_that-Keeps true = search keeping
assert_that-Keeps false = search keeping

pub finish_event-Keeps :
    (support_threads : Bool) (child : ℕ) (event : ExecuteEvent) (action : ExecuteAction)
    → Keeps (finish_event support_threads child event action)
unfolding finish_event
finish_event-Keeps support_threads child event action =
    search (keeping, report_end-Keeps, assert_that-Keeps, obey-Keeps) depth 12

read_info-Keeps : Keeps (λ k w. pure (some (k.wait_info w.history)) k w)
read_info-Keeps = record { keeps = λ k w w' a h e. ground (arith, e) }

pub wait-Keeps : (support_threads : Bool) (child : ℕ) → Keeps (wait support_threads child)
unfolding wait
wait-Keeps support_threads child = search (keeping, read_info-Keeps)

pub setup_signal_handling-Keeps : Keeps setup_signal_handling
unfolding setup_signal_handling
setup_signal_handling-Keeps = search keeping

-- Each callback of a listener keeps the property, or gives a reason.
pub record Faithful {S : Type 0} (P : S → Type 0) (l : Listener S) : Type 0 where
  pub pre_fork : (s : S) → Judges P s (l.on_pre_fork s) (λ s'. s')
  pub forked : (child : ℕ) (s : S) → Judges P s (l.on_post_fork_parent child s) (λ s'. s')
  pub event : (e : ExecuteEvent) (s : S) → Judges P s (l.on_execute_event e s) (λ r. r.1)
  pub sigio : (s : S) → Judges P s (l.on_sigio_signal s) (λ r. r.1)
  pub sigalrm : (s : S) → Judges P s (l.on_sigalrm_signal s) (λ r. r.1)
  pub ended : (s : S) → Judges P s (l.on_post_execute s) (λ s'. s')

module _ {S : Type 0} (P : S → Type 0) where
  pub notify_pre_fork-Judges :
      (ls : List (Listener S)) (s : S)
      → All (Faithful P) ls
      → Judges P s (notify_pre_fork ls s) (λ s'. s')
  unfolding notify_pre_fork
  notify_pre_fork-Judges [] s h = pure-Judges P s (λ s'. s')
  notify_pre_fork-Judges (l ∷ ls) s h =
      bind-Judges P s (l.on_pre_fork s) (notify_pre_fork ls) (λ s'. s') (λ s'. s') (h.0.pre_fork s)
        (λ s'. notify_pre_fork-Judges ls s' h.1)

  pub notify-Judges :
      (ls : List (Listener S)) (event : ExecuteEvent) (action : ExecuteAction) (s : S)
      → All (Faithful P) ls
      → Judges P s (notify ls event action s) (λ r. r.1)
  unfolding notify
  notify-Judges [] event action s h = pure-Judges P (action, s) (λ r. r.1)
  notify-Judges (l ∷ ls) event action s h =
      bind-Judges P s (l.on_execute_event event s) (λ r. notify ls event (max action r.0) r.1)
        (λ r. r.1) (λ r. r.1) (h.0.event event s)
        (λ r. notify-Judges ls event (max action r.0) r.1 h.1)

  pub notify_sigio-Judges :
      (ls : List (Listener S)) (action : ExecuteAction) (s : S)
      → All (Faithful P) ls
      → Judges P s (notify_sigio ls action s) (λ r. r.1)
  unfolding notify_sigio
  notify_sigio-Judges [] action s h = pure-Judges P (action, s) (λ r. r.1)
  notify_sigio-Judges (l ∷ ls) action s h =
      bind-Judges P s (l.on_sigio_signal s) (λ r. notify_sigio ls (max action r.0) r.1) (λ r. r.1)
        (λ r. r.1) (h.0.sigio s) (λ r. notify_sigio-Judges ls (max action r.0) r.1 h.1)

  pub notify_sigalrm-Judges :
      (ls : List (Listener S)) (action : ExecuteAction) (s : S)
      → All (Faithful P) ls
      → Judges P s (notify_sigalrm ls action s) (λ r. r.1)
  unfolding notify_sigalrm
  notify_sigalrm-Judges [] action s h = pure-Judges P (action, s) (λ r. r.1)
  notify_sigalrm-Judges (l ∷ ls) action s h =
      bind-Judges P s (l.on_sigalrm_signal s) (λ r. notify_sigalrm ls (max action r.0) r.1)
        (λ r. r.1) (λ r. r.1) (h.0.sigalrm s)
        (λ r. notify_sigalrm-Judges ls (max action r.0) r.1 h.1)

  pub notify_forked-Judges :
      (ls : List (Listener S)) (child : ℕ) (s : S)
      → All (Faithful P) ls
      → Judges P s (notify_forked ls child s) (λ s'. s')
  unfolding notify_forked
  notify_forked-Judges [] child s h = pure-Judges P s (λ s'. s')
  notify_forked-Judges (l ∷ ls) child s h =
      bind-Judges P s (l.on_post_fork_parent child s) (notify_forked ls child) (λ s'. s') (λ s'. s')
        (h.0.forked child s) (λ s'. notify_forked-Judges ls child s' h.1)

  pub notify_ended-Judges :
      (ls : List (Listener S)) (s : S)
      → All (Faithful P) ls
      → Judges P s (notify_ended ls s) (λ s'. s')
  unfolding notify_ended
  notify_ended-Judges [] s h = pure-Judges P s (λ s'. s')
  notify_ended-Judges (l ∷ ls) s h =
      bind-Judges P s (l.on_post_execute s) (notify_ended ls) (λ s'. s') (λ s'. s') (h.0.ended s)
        (λ s'. notify_ended-Judges ls s' h.1)
