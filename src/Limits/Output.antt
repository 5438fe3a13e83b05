-- ===== src/Limits/Output.antt =====
-- limits/OutputLimitListener.cc: the limit on the size of files that the child writes.
use sio2jail.Common.{ℕ, ◌&&◌, ltb, ◌==◌, if◌then◌else◌, codes, [], minus_one}
use sio2jail.Executor.Event.{ExecuteAction, ExecuteEvent}
use sio2jail.Printer.{KillReason, set_kill_reason}
use sio2jail.System.{M, ◌>>◌, pure, report, with_errno_check_, setrlimit, rlimit_fsize}

pub record OutputLimit : Type 0 where
  pub output_limit_b : ℕ
  pub child_pid : ℕ

abbrev pub sigxfsz : ℕ
sigxfsz = 25

unfoldable pub make : ℕ → OutputLimit
make output_limit_b = record { output_limit_b = output_limit_b; child_pid = minus_one }

unfoldable pub on_post_fork_child : OutputLimit → M (Unit {0})
on_post_fork_child l =
    if ltb 0 l.output_limit_b
    then with_errno_check_ [] (setrlimit rlimit_fsize l.output_limit_b l.output_limit_b)
    else pure tt

unfoldable pub on_post_fork_parent : ℕ → OutputLimit → OutputLimit
on_post_fork_parent child_pid l = record l { child_pid = child_pid }

unfoldable pub on_execute_event : ExecuteEvent → OutputLimit → M ExecuteAction
on_execute_event e l =
    if ltb 0 l.output_limit_b && e.signal == sigxfsz
    then (do
      report (set_kill_reason KillReason.ole (codes "output limit exceeded"))
      pure ExecuteAction.kill)
    else pure ExecuteAction.continue
