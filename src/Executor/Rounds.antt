-- ===== src/Executor/Rounds.antt =====
-- What one round of the supervisor's loop does with the status that the wait returns.
use sio2jail.Common.{
  ℕ, ◌≡◌, ◌⊎◌, refl, Bool, true, false, not, ◌&&◌, ◌||◌, ◌==◌, if◌then◌else◌, [], ◌∷◌, arith, ◌++◌,
}
use sio2jail.Executor.Event.{ExecuteEvent, ExecuteAction}
use sio2jail.Executor.{sigkill, event_of, kill_child, obey, finish_event}
use sio2jail.Printer.{OiModel, set_kill_signal, set_exit_status}
use sio2jail.System.{
  Kernel, World, done, threw, assertion_exception, kill, waitid_clear, with_errno_check_, SigInfo,
  echild, contains,
}
use sio2jail.System.Checks.{with_errno_check_-tolerates}
use sio2jail.Tracer.TraceExecutor.Laws.{Tolerant, kill_done}

-- An event is of at most one kind, and of the kind that the kernel's code names.
pub event_of_one_kind :
    (i : SigInfo) → ((event_of i).exited ≡ false) ⊎ ((event_of i).killed ≡ false)
unfolding event_of
event_of_one_kind i = ground arith

cleared :
    (pid : ℕ) (k : Kernel) (w : World)
    → ((k.reply w.history (waitid_clear pid)).failed ≡ false)
      ⊎ ((k.reply w.history (waitid_clear pid)).errno ≡ echild)
    → with_errno_check_ (echild ∷ []) (waitid_clear pid) k w
      ≡ done (tt, record w { history = waitid_clear pid ∷ w.history })
unfolding contains
cleared pid k w h =
    with_errno_check_-tolerates (echild ∷ []) (waitid_clear pid) k w (ground (arith, h))

kill_child_done :
    (k : Kernel) (tolerant : Tolerant k) (child : ℕ) (w : World)
    → kill_child child k w
      ≡ done (
        tt,
        record {
          output = set_kill_signal sigkill w.output;
          history = kill child sigkill ∷ w.history;
        },
      )
unfolding kill_child
kill_child_done k tolerant child w = kill_done k tolerant child sigkill _

-- What a status does to the result.
unfoldable pub ending : ExecuteEvent → OiModel → OiModel
ending e o =
    let o' = if e.exited then set_exit_status e.exit_status o else o in
    if e.killed then set_kill_signal e.signal o' else o'

-- The end of another process without the support for threads is an error.
pub finish_event_unknown :
    (child : ℕ) (event : ExecuteEvent) (action : ExecuteAction) (k : Kernel) (w : World)
    → (event.exited || event.killed) ≡ true
    → (event.pid == child) ≡ false
    → finish_event false child event action k w ≡ threw assertion_exception
unfolding finish_event
finish_event_unknown child event action k w e p = rw (e, p) refl

-- If the kernel sends signals unless the process is gone, then after a status that is not the end
-- of the child, and that is no end at all where threads are not supported, an action to kill sends
-- SIGKILL to the child and reports it, and the loop goes on. Before that the status of an ended
-- process is cleared, a call that must succeed or say that there is no such child.
pub finish_event_kills :
    (k : Kernel) (tolerant : Tolerant k) (support_threads : Bool) (child : ℕ) (event : ExecuteEvent)
    (w : World)
    → ((event.exited || event.killed) && (event.pid == child)) ≡ false
    → ((event.exited || event.killed) && not support_threads) ≡ false
    → ((k.reply w.history (waitid_clear event.pid)).failed ≡ false)
      ⊎ ((k.reply w.history (waitid_clear event.pid)).errno ≡ echild)
    → finish_event support_threads child event ExecuteAction.kill k w
      ≡ done (
        false,
        record {
          output = set_kill_signal sigkill w.output;
          history =
              kill child sigkill
              ∷ ((if event.exited || event.killed then waitid_clear event.pid ∷ [] else [])
                  ++ w.history);
        },
      )
unfolding finish_event obey
finish_event_kills k tolerant support_threads child event w e t c = ground (
  arith,
  kill_child_done k tolerant child w,
  cleared event.pid k w c,
  kill_child_done k tolerant child (record w { history = waitid_clear event.pid ∷ w.history }),
)
