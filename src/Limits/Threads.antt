-- ===== src/Limits/Threads.antt =====
-- limits/ThreadsLimitListener.cc: the limit on the number of threads. A `std::set` is a list without
-- duplicates.
pub mod Count
pub mod Judged
pub mod Rules
use sio2jail.Common.{
  ℕ, Bool, true, false, ◌||◌, ltb, ◌==◌, if◌then◌else◌, codes, List, [], ◌∷◌, length, ℤ, pos,
  negsuc,
}
use sio2jail.Executor.Event.{ExecuteAction, ExecuteEvent}
use sio2jail.Tracer.Action.{TraceAction}
use sio2jail.Printer.{KillReason, set_kill_reason}
use sio2jail.System.{M, ◌>>=◌, ◌>>◌, pure, report, contains}

pub record ThreadsLimit : Type 0 where
  pub threads_limit : ℤ
  pub threads_pids : List ℕ

unfoldable pub make : ℤ → ThreadsLimit
make threads_limit = record { threads_limit = threads_limit; threads_pids = [] }

unfoldable pub insert : ℕ → List ℕ → List ℕ
insert p pids = if contains p pids then pids else p ∷ pids

unfoldable pub erase : ℕ → List ℕ → List ℕ
erase p [] = []
erase p (q ∷ pids) = if q == p then pids else q ∷ erase p pids

-- The result holds the actions for the parent and for the new thread.
unfoldable pub clone_under : ℤ → ℕ → ThreadsLimit → M ((TraceAction × TraceAction) × ThreadsLimit)
unfolding insert
clone_under (negsuc n) child l = do
  report (set_kill_reason KillReason.rv (codes "Threads are not allowed"))
  pure ((TraceAction.kill, TraceAction.kill), l)
clone_under (pos limit) child l =
    let pids = insert child l.threads_pids in
    let l' = record l { threads_pids = pids } in
    if ltb limit (length pids)
    then (do
      report (set_kill_reason KillReason.rv (codes "threads limit exceeded"))
      pure ((TraceAction.kill, TraceAction.kill), l'))
    else pure ((TraceAction.continue, TraceAction.continue), l')

unfoldable pub on_post_clone : ℕ → ThreadsLimit → M ((TraceAction × TraceAction) × ThreadsLimit)
unfolding clone_under
on_post_clone child l = clone_under l.threads_limit child l

unfoldable pub event_under : ℤ → ExecuteEvent → ThreadsLimit → ThreadsLimit
unfolding erase
event_under (negsuc n) e l = l
event_under (pos limit) e l =
    if e.exited || e.killed then record l { threads_pids = erase e.pid l.threads_pids } else l

-- The action is always to go on.
unfoldable pub on_execute_event : ExecuteEvent → ThreadsLimit → ExecuteAction × ThreadsLimit
unfolding event_under
on_execute_event e l = (ExecuteAction.continue, event_under l.threads_limit e l)
