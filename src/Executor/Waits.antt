-- ===== src/Executor/Waits.antt =====
-- How many waits for a status are made, and what makes none.
use sio2jail.Common.{
  ℕ, suc, ◌≡◌, inl, inr, refl, sym, ◌∙◌, Bool, true, false, if◌then◌else◌, List, [], ◌∷◌, All,
  arith,
}
use sio2jail.Executor.Event.{ExecuteEvent, ExecuteAction}
use sio2jail.Executor.{
  Listener, kill_child, obey, report_end, notify, notify_sigio, notify_sigalrm, finish_event,
}
use sio2jail.Printer.{OiModel}
use sio2jail.System.{
  Kernel, World, M, ◌>>=◌, pure, report, assert_that, with_errno_check_, waitid_any, waitid_pid,
  waitid_clear, kill, echild, esrch, done, Syscall,
}
use sio2jail.System.Checks.{>>=-eq-done, with_errno_check_-cases}

-- How many waits for a status have been made.
abbrev pub waits : List Syscall → ℕ
waits [] = 0
waits (waitid_any ∷ h) = suc (waits h)
waits (waitid_pid pid ∷ h) = suc (waits h)
waits (c ∷ h) = waits h

-- A computation that returns has made no such wait.
pub record Busy (k : Kernel) {A : Type 0} (m : M A) : Type 0 where
  pub same : (w w' : World) (a : A) → m k w ≡ done (a, w') → waits w'.history ≡ waits w.history

module _ (k : Kernel) where
  pub bind-Busy :
      {A B : Type 0} (m : M A) (f : A → M B)
      → Busy k m
      → ((a : A) → Busy k (f a))
      → Busy k (m >>= f)
  bind-Busy m f hm hf = record {
    same = λ w w' b e.
        (let (a, v, here, rest) = >>=-eq-done m f e in
          (hf a).same v w' b rest ∙ hm.same w v a here);
  }

  pub pure-Busy : {A : Type 0} (a : A) → Busy k (pure a)
  pure-Busy a = record { same = λ w w' b e. ground arith }

  pub if-Busy :
      {A : Type 0} (b : Bool) (m n : M A) → Busy k m → Busy k n → Busy k (if b then m else n)
  if-Busy true m n p q = p
  if-Busy false m n p q = q

  assert-Busy : (b : Bool) → Busy k (assert_that b)
  assert-Busy b = record { same = λ w w' a e. ground arith }

  report-Busy : (f : OiModel → OiModel) → Busy k (report f)
  report-Busy f = record { same = λ w w' a e. ground arith }

  check-Busy :
      (ignored : List ℕ) (c : Syscall)
      → ((h : List Syscall) → waits (c ∷ h) ≡ waits h)
      → Busy k (with_errno_check_ ignored c)
  check-Busy ignored c other = record {
    same = λ w w' a e. (elim (with_errno_check_-cases ignored c k w) [
      | inl (_, made) ↦ (let both = sym made ∙ e in ground (arith, other w.history))
      | inr fails ↦ (let both = sym fails ∙ e in ground arith)
    ]);
  }

  kill-Busy : (pid signal : ℕ) → Busy k (with_errno_check_ (esrch ∷ []) (kill pid signal))
  kill-Busy pid signal = check-Busy (esrch ∷ []) (kill pid signal) (λ h. refl)

  clear-Busy : (pid : ℕ) → Busy k (with_errno_check_ (echild ∷ []) (waitid_clear pid))
  clear-Busy pid = check-Busy (echild ∷ []) (waitid_clear pid) (λ h. refl)

  ruleset busy = (bind-Busy, pure-Busy, if-Busy, assert-Busy, report-Busy, kill-Busy, clear-Busy)

  pub obey-Busy : (child : ℕ) (action : ExecuteAction) → Busy k (obey child action)
  unfolding obey kill_child
  obey-Busy child ExecuteAction.continue = search busy
  obey-Busy child ExecuteAction.kill = search busy

  pub report_end-Busy : (event : ExecuteEvent) → Busy k (report_end event)
  unfolding report_end
  report_end-Busy event = search busy

  pub finish_event-Busy :
      (support_threads : Bool) (child : ℕ) (event : ExecuteEvent) (action : ExecuteAction)
      → Busy k (finish_event support_threads child event action)
  unfolding finish_event
  finish_event-Busy support_threads child event action =
      search (busy, obey-Busy, report_end-Busy) depth 12

  -- A listener waits for no status itself.
  pub record WaitsNot {S : Type 0} (l : Listener S) : Type 0 where
    pub at_event : (event : ExecuteEvent) (s : S) → Busy k (l.on_execute_event event s)
    pub at_sigio : (s : S) → Busy k (l.on_sigio_signal s)
    pub at_sigalrm : (s : S) → Busy k (l.on_sigalrm_signal s)

  module _ {S : Type 0} where
    pub notify-Busy :
        (ls : List (Listener S)) (event : ExecuteEvent) (action : ExecuteAction) (s : S)
        → All WaitsNot ls
        → Busy k (notify ls event action s)
    unfolding notify
    notify-Busy [] event action s h = pure-Busy (action, s)
    notify-Busy (l ∷ ls) event action s h =
        bind-Busy _ _ (h.0.at_event event s) (λ r. notify-Busy ls event _ _ h.1)

    pub notify_sigio-Busy :
        (ls : List (Listener S)) (action : ExecuteAction) (s : S)
        → All WaitsNot ls
        → Busy k (notify_sigio ls action s)
    unfolding notify_sigio
    notify_sigio-Busy [] action s h = pure-Busy (action, s)
    notify_sigio-Busy (l ∷ ls) action s h =
        bind-Busy _ _ (h.0.at_sigio s) (λ r. notify_sigio-Busy ls _ _ h.1)

    pub notify_sigalrm-Busy :
        (ls : List (Listener S)) (action : ExecuteAction) (s : S)
        → All WaitsNot ls
        → Busy k (notify_sigalrm ls action s)
    unfolding notify_sigalrm
    notify_sigalrm-Busy [] action s h = pure-Busy (action, s)
    notify_sigalrm-Busy (l ∷ ls) action s h =
        bind-Busy _ _ (h.0.at_sigalrm s) (λ r. notify_sigalrm-Busy ls _ _ h.1)
