-- ===== src/Executor.antt =====
-- executor/Executor.{h,cc}: the fork and the supervisor's main loop (`executeParent`). A listener is a
-- record of callbacks over a state that all of them share. The two handlers of signals only set a
-- flag; which signals came since the last round is a parameter, asked with the calls made so far. A
-- signal that comes between the look at the flags and the wait is one of the next round.
-- `executeChild` is in App/Child.antt. The loop runs on fuel.
pub mod Event
pub mod Rounds
pub mod Loop
pub mod Waits
pub mod Ends
pub mod Judged
mod Examples
use sio2jail.Common.{
  ℕ, Bool, true, false, not, ◌&&◌, ◌||◌, ◌==◌, if◌then◌else◌, List, [], ◌∷◌, Option, none, some,
  suc, zero,
}
use sio2jail.Executor.Event.{ExecuteEvent, ExecuteAction, max}
use sio2jail.Printer.{set_kill_signal, set_exit_status}
use sio2jail.System.{
  M, ◌>>=◌, ◌>>◌, pure, throw, Outcome, done, threw, system_exception, report, invoke, assert_that,
  with_errno_check_, kill, waitid_any, waitid_pid, waitid_clear, waitpid_final, esrch,
  with_errno_check, fork, sigfillset, sigaction, eintr, echild, Syscall, SigInfo, SiCode,
  cld_exited, cld_killed, cld_dumped, cld_trapped, cld_stopped, cld_other,
}

pub record Listener (S : Type 0) : Type 0 where
  pub on_pre_fork : S → M S
  pub on_post_fork_parent : ℕ → S → M S
  pub on_execute_event : ExecuteEvent → S → M (ExecuteAction × S)
  pub on_sigio_signal : S → M (ExecuteAction × S)
  pub on_sigalrm_signal : S → M (ExecuteAction × S)
  pub on_post_execute : S → M S

-- The flags that the handlers of SIGIO and SIGALRM set.
pub record Flags : Type 0 where
  pub sigio : Bool
  pub sigalrm : Bool

abbrev pub sigkill : ℕ
sigkill = 9

unfoldable pub event_of : SigInfo → ExecuteEvent
event_of i =
    let none_of : ExecuteEvent = record {
      pid = i.si_pid;
      exit_status = 0;
      signal = 0;
      exited = false;
      killed = false;
      stopped = false;
      trapped = false;
    } in
    elim i.si_code [
      | cld_exited ↦ record none_of { exited = true; exit_status = i.si_status }
      | cld_killed ↦ record none_of { killed = true; signal = i.si_status }
      | cld_dumped ↦ record none_of { killed = true; signal = i.si_status }
      | cld_stopped ↦ record none_of { stopped = true; signal = i.si_status }
      | cld_trapped ↦ record none_of { trapped = true; signal = i.si_status }
      | cld_other ↦ none_of
    ]

-- The child may be gone already.
unfoldable pub kill_child : ℕ → M (Unit {0})
kill_child child = do
  report (set_kill_signal sigkill)
  with_errno_check_ (esrch ∷ []) (kill child sigkill)

unfoldable pub obey : ℕ → ExecuteAction → M (Unit {0})
obey child ExecuteAction.continue = pure tt
obey child ExecuteAction.kill = kill_child child

unfoldable pub wait_call : Bool → ℕ → Syscall
wait_call true child = waitid_any
wait_call false child = waitid_pid child

-- None where a signal interrupted the wait.
unfoldable pub wait : Bool → ℕ → M (Option SigInfo)
wait support_threads child = do
  r ← invoke (wait_call support_threads child)
  if r.failed
      then (if r.errno == eintr then pure none else throw (system_exception r.errno))
      else (λ k w. pure (some (k.wait_info w.history)) k w)

-- The end of the child is reported.
unfoldable pub report_end : ExecuteEvent → M (Unit {0})
report_end event =
    if event.exited
    then (if event.killed
        then (do report (set_exit_status event.exit_status); report (set_kill_signal event.signal))
        else report (set_exit_status event.exit_status))
    else (if event.killed then report (set_kill_signal event.signal) else pure tt)

-- What follows the listeners: true where the loop ends.
unfoldable pub finish_event : Bool → ℕ → ExecuteEvent → ExecuteAction → M Bool
finish_event support_threads child event action =
    if event.exited || event.killed
    then (if event.pid == child then (do report_end event; pure true) else (do
      assert_that support_threads
      with_errno_check_ (echild ∷ []) (waitid_clear event.pid)
      obey child action
      pure false))
    else (do obey child action; pure false)

-- SIGIO and SIGALRM. The flags are reset, and each handler sets its own.
unfoldable pub setup_signal_handling : M (Unit {0})
setup_signal_handling = do
  with_errno_check_ [] sigfillset
  with_errno_check_ [] (sigaction 29)
  with_errno_check_ [] (sigaction 14)

module _ {S : Type 0} where
  unfoldable pub notify_pre_fork : List (Listener S) → S → M S
  notify_pre_fork [] s = pure s
  notify_pre_fork (l ∷ ls) s = do s' ← l.on_pre_fork s; notify_pre_fork ls s'

  unfoldable pub notify :
      List (Listener S) → ExecuteEvent → ExecuteAction → S → M (ExecuteAction × S)
  notify [] event action s = pure (action, s)
  notify (l ∷ ls) event action s = do
    (a, s') ← l.on_execute_event event s
    notify ls event (max action a) s'

  unfoldable pub notify_sigio : List (Listener S) → ExecuteAction → S → M (ExecuteAction × S)
  notify_sigio [] action s = pure (action, s)
  notify_sigio (l ∷ ls) action s = do
    (a, s') ← l.on_sigio_signal s
    notify_sigio ls (max action a) s'

  unfoldable pub notify_sigalrm : List (Listener S) → ExecuteAction → S → M (ExecuteAction × S)
  notify_sigalrm [] action s = pure (action, s)
  notify_sigalrm (l ∷ ls) action s = do
    (a, s') ← l.on_sigalrm_signal s
    notify_sigalrm ls (max action a) s'

  unfoldable pub notify_forked : List (Listener S) → ℕ → S → M S
  notify_forked [] child s = pure s
  notify_forked (l ∷ ls) child s = do s' ← l.on_post_fork_parent child s; notify_forked ls child s'

  unfoldable pub notify_ended : List (Listener S) → S → M S
  notify_ended [] s = pure s
  notify_ended (l ∷ ls) s = do s' ← l.on_post_execute s; notify_ended ls s'

-- The parts of a round, and the loop.
module _ {S : Type 0} (listeners : List (Listener S)) (signals : List Syscall → Flags)
    (support_threads : Bool) (child : ℕ) where
  -- `checkSignals`.
  unfoldable pub check_signals : S → M (ExecuteAction × S)
  check_signals s = do
    flags ← (λ k w. pure (signals w.history) k w)
    (action, s') ←
        (if flags.sigio
          then notify_sigio listeners ExecuteAction.continue s
          else pure (ExecuteAction.continue, s))
    if flags.sigalrm then notify_sigalrm listeners action s' else pure (action, s')

  unfoldable pub on_wait : ExecuteAction → S → Option SigInfo → M (Bool × S)
  on_wait action s none = pure (false, s)
  on_wait action s (some info) = do
    (action', s') ← notify listeners (event_of info) action s
    ended ← finish_event support_threads child (event_of info) action'
    pure (ended, s')

  unfoldable pub round : S → M (Bool × S)
  round s = do
    (action, s') ← check_signals s
    obey child action
    info ← wait support_threads child
    on_wait action s' info

  -- None when the fuel is out.
  unfoldable pub loop : ℕ → S → M (Option S)
  loop zero s = pure none
  loop (suc n) s = do (ended, s') ← round s; if ended then pure (some s') else loop n s'

  unfoldable pub after_loop : Option S → M (Option S)
  after_loop none = pure none
  after_loop (some s) = do
    s' ← notify_ended listeners s
    with_errno_check_ (echild ∷ []) waitpid_final
    pure (some s')

  unfoldable pub execute_parent : ℕ → S → M (Option S)
  execute_parent fuel s = do
    setup_signal_handling
    s₁ ← notify_forked listeners child s
    ended ← loop fuel s₁
    after_loop ended

-- The process that returned from `execute`: the child's part is a parameter, for it is that of
-- other state. The fork gives the child 0. Nothing is returned by the parent when the fuel is out.
pub data Returned (S : Type 0) : Type 0 where
  in_child : Returned S
  in_parent : Option S → Returned S

module _ {S : Type 0} (listeners : List (Listener S)) (signals : List Syscall → Flags)
    (support_threads : Bool) (execute_child : S → M (Unit {0})) where
  unfoldable pub execute : ℕ → S → M (Returned S)
  execute fuel s = do
    s₁ ← notify_pre_fork listeners s
    r ← with_errno_check [] fork
    if r.value == 0 then (do execute_child s₁; pure in_child) else (do
      ended ← execute_parent listeners signals support_threads r.value fuel s₁
      pure (in_parent ended))
