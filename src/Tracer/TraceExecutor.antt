-- ===== src/Tracer/TraceExecutor.antt =====
-- tracer/TraceExecutor.{h,cc} and TraceEventListener.h. The listeners are a parameter: a list of
-- records of the three callbacks, over one state that they share. Set-up before the first event
-- (`onPostForkChild`, `onPostForkParent`) is at the end.
pub mod Laws
pub mod Tree
pub mod Judged
use Prim.Native.Nat.{bit_or}
use sio2jail.Common.{
  ℕ, ◌+◌, ◌-◌, ◌*◌, ◌^◌, Bool, true, false, not, ◌&&◌, ◌||◌, ltb, ◌==◌, if◌then◌else◌, List, [],
  ◌∷◌, Option, none, some,
}
use sio2jail.Executor.Event.{ExecuteEvent, ExecuteAction}
use sio2jail.Printer.{set_kill_signal}
use sio2jail.ProcFs.{lift}
use sio2jail.System.{
  M, ◌>>=◌, ◌>>◌, pure, report, invoke, with_errno_check, with_errno_check_, kill, ptrace_cont,
  ptrace_traceme, ptrace_setoptions, ptrace_geteventmsg, waitid_clear, waitpid, getpid, esrch,
  echild, Reply,
}
use sio2jail.Tracer.Action.{TraceAction, max}
use sio2jail.Tracer.ProcessTree.{
  ProcessTree, get_process, get_parent, add_child, del_child, make_root,
}
use sio2jail.Tracer.Tracee
use sio2jail.Tracer.Tracee.{Tracee}
use sio2jail.Tracer.Signals.{sigtrap, sigkill, handle_tracee_signal}

-- PTRACE_O_EXITKILL | PTRACE_O_TRACESECCOMP | PTRACE_O_TRACEEXEC | PTRACE_O_TRACECLONE.
abbrev pub ptrace_options : ℕ
ptrace_options = bit_or (2 ^ 20) (bit_or (2 ^ 7) (bit_or (2 ^ 4) (2 ^ 3)))

-- SIGTRAP | (PTRACE_EVENT_EXEC << 8), and the same for PTRACE_EVENT_CLONE.
abbrev pub exec_stop : ℕ
exec_stop = bit_or sigtrap (4 * 2 ^ 8)

abbrev pub clone_stop : ℕ
clone_stop = bit_or sigtrap (3 * 2 ^ 8)

pub record TraceListener (S : Type 0) : Type 0 where
  pub on_post_exec : ExecuteEvent → Tracee → S → M (TraceAction × S)
  pub on_post_clone : ExecuteEvent → Tracee → ℕ → S → M ((TraceAction × TraceAction) × S)
  pub on_trace_event : ExecuteEvent → Tracee → S → M (TraceAction × Tracee × S)

pub record TraceExecutor : Type 0 where
  pub root : ℕ
  pub tree : ProcessTree
  pub has_execved : Bool

module _ {S : Type 0} where
  unfoldable pub post_exec :
      List (TraceListener S) → ExecuteEvent → Tracee → TraceAction → S → M (TraceAction × S)
  post_exec [] event tracee action s = pure (action, s)
  post_exec (l ∷ ls) event tracee action s = do
    (a, s') ← l.on_post_exec event tracee s
    post_exec ls event tracee (max action a) s'

  unfoldable pub post_clone :
      List (TraceListener S)
      → ExecuteEvent
      → Tracee
      → ℕ
      → TraceAction
      → TraceAction
      → S
      → M ((TraceAction × TraceAction) × S)
  post_clone [] event tracee child action child_action s = pure ((action, child_action), s)
  post_clone (l ∷ ls) event tracee child action child_action s = do
    ((a, b), s') ← l.on_post_clone event tracee child s
    post_clone ls event tracee child (max action a) (max child_action b) s'

  unfoldable pub trace_event :
      List (TraceListener S)
      → ExecuteEvent
      → Tracee
      → TraceAction
      → S
      → M (TraceAction × Tracee × S)
  trace_event [] event tracee action s = pure (action, tracee, s)
  trace_event (l ∷ ls) event tracee action s = do
    (a, tracee', s') ← l.on_trace_event event tracee s
    trace_event ls event tracee' (max action a) s'

unfoldable pub kill_root : ℕ → ℕ → M (Unit {0})
kill_root root pid = do
  report (set_kill_signal sigkill)
  with_errno_check_ (esrch ∷ []) (kill root sigkill)
  if not (root == pid) then with_errno_check_ (esrch ∷ []) (kill pid sigkill) else pure tt

unfoldable pub continue_tracee : ℕ → ℕ → TraceAction → ℕ → M (Unit {0})
continue_tracee root pid TraceAction.continue injected_signal =
    with_errno_check_ (esrch ∷ []) (ptrace_cont pid injected_signal)
continue_tracee root pid TraceAction.kill injected_signal = do
  kill_root root pid
  with_errno_check_ (esrch ∷ []) (ptrace_cont pid injected_signal)

-- The new thread is killed before it is restarted, if a listener asks for that.
unfoldable pub restart_child : ℕ → TraceAction → M (Unit {0})
restart_child child TraceAction.continue = with_errno_check_ (esrch ∷ []) (ptrace_cont child 0)
restart_child child TraceAction.kill = do
  with_errno_check_ [] (kill child sigkill)
  with_errno_check_ (esrch ∷ []) (ptrace_cont child sigkill)

-- An event for a process that is not yet known: its status is cleared, so that a later wait does
-- not return it again.
unfoldable pub delay : ℕ → M (Unit {0})
delay pid = with_errno_check_ (echild ∷ []) (waitid_clear pid)

unfoldable pub forget : ℕ → Option ℕ → ProcessTree → M ProcessTree
forget pid none tree = pure tree
forget pid (some parent) tree = lift (del_child parent pid tree)

unfoldable pub execute_action : TraceAction → ExecuteAction
execute_action TraceAction.kill = ExecuteAction.kill
execute_action TraceAction.continue = ExecuteAction.continue

module _ {S : Type 0} (listeners : List (TraceListener S)) (undefined : ℕ → ℕ) where
  unfoldable pub on_event_exec :
      ExecuteEvent → Tracee → TraceExecutor → S → M (TraceAction × TraceExecutor × S)
  on_event_exec event tracee x s = do
    (action, s') ← post_exec listeners event tracee TraceAction.continue s
    pure (action, record x { has_execved = true }, s')

  -- What follows the options' call for the new thread; a thread that is gone is not added.
  unfoldable pub on_new_thread :
      ExecuteEvent → Tracee → ℕ → Reply → TraceExecutor → S → M (TraceAction × TraceExecutor × S)
  on_new_thread event tracee child options_reply x s =
      if options_reply.errno == esrch then pure (TraceAction.continue, x, s) else (do
        tree ← lift (add_child tracee.pid child x.tree)
        child_tracee ← Tracee.make child
        ((action, child_action), s') ←
            post_clone listeners event tracee child TraceAction.continue TraceAction.continue s
        restart_child child child_action
        pure (action, record x { tree = tree }, s'))

  unfoldable pub on_event_clone :
      ExecuteEvent → Tracee → TraceExecutor → S → M (TraceAction × TraceExecutor × S)
  on_event_clone event tracee x s = do
    message ← with_errno_check [] (ptrace_geteventmsg event.pid)
    options_reply ← with_errno_check (esrch ∷ []) (ptrace_setoptions message.value ptrace_options)
    on_new_thread event tracee message.value options_reply x s

  unfoldable pub when_exec :
      ExecuteEvent → Tracee → TraceExecutor → S → M (TraceAction × TraceExecutor × S)
  when_exec event tracee x s =
      if not x.has_execved && (event.trapped && event.signal == exec_stop)
      then on_event_exec event tracee x s
      else pure (TraceAction.continue, x, s)

  unfoldable pub when_clone :
      ExecuteEvent → Tracee → TraceExecutor → S → M (TraceAction × TraceExecutor × S)
  when_clone event tracee x s =
      if event.signal == clone_stop
      then on_event_clone event tracee x s
      else pure (TraceAction.continue, x, s)

  -- The rest of the handler for an event that is no end of a process, after the two kinds of stop.
  unfoldable pub on_stop :
      ExecuteEvent
      → Tracee
      → TraceAction
      → TraceExecutor
      → S
      → M (ExecuteAction × TraceExecutor × S)
  on_stop event tracee before x s = do
    (action, tracee', s') ← trace_event listeners event tracee before s
    alive ← Tracee.is_alive tracee.pid
    if alive
        then (do
          (signal_action, injected) ← handle_tracee_signal undefined event tracee'
          continue_tracee x.root tracee.pid (max action signal_action) injected
          pure (execute_action (max action signal_action), x, s'))
        else pure (execute_action action, x, s')

  unfoldable pub on_known : ExecuteEvent → TraceExecutor → S → M (ExecuteAction × TraceExecutor × S)
  on_known event x s = do
    tracee ← Tracee.make event.pid
    (exec_action, x₁, s₁) ← when_exec event tracee x s
    (clone_action, x₂, s₂) ← when_clone event tracee x₁ s₁
    if event.exited || event.killed
        then (do
          tree ← forget event.pid (get_parent event.pid x₂.tree) x₂.tree
          pure (ExecuteAction.continue, record x₂ { tree = tree }, s₂))
        else on_stop event tracee (max exec_action clone_action) x₂ s₂

  unfoldable pub on_execute_event :
      ExecuteEvent → TraceExecutor → S → M (ExecuteAction × TraceExecutor × S)
  on_execute_event event x s =
      let (found, tree) = get_process event.pid x.tree in
      let x' = record x { tree = tree } in
      if found
      then on_known event x' s
      else (do delay event.pid; pure (ExecuteAction.continue, x', s))

-- The result of the `kill` that stops the child is not looked at.
unfoldable pub on_post_fork_child : M (Unit {0})
on_post_fork_child = do
  with_errno_check_ [] ptrace_traceme
  self ← invoke getpid
  stopped ← invoke (kill self.value sigtrap)
  pure tt

unfoldable pub on_post_fork_parent : ℕ → M TraceExecutor
on_post_fork_parent child_pid = do
  with_errno_check_ [] (waitpid child_pid)
  with_errno_check_ [] (ptrace_setoptions child_pid ptrace_options)
  with_errno_check_ [] (ptrace_cont child_pid 0)
  pure (record { root = child_pid; tree = make_root child_pid; has_execved = false })
