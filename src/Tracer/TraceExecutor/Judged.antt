-- ===== src/Tracer/TraceExecutor/Judged.antt =====
-- The tracer's parts take back no kill reason.
pub mod Stages
pub mod Handler
use sio2jail.Common.{
  ℕ, ◌≡◌, ◌⊎◌, inl, inr, refl, Bool, Bool-cases, true, false, not, ◌&&◌, ◌||◌, ◌==◌, if◌then◌else◌,
  List, [], ◌∷◌, Text, Option, none, some, All, arith,
}
use sio2jail.Executor.Event.{ExecuteEvent, ExecuteAction}
use sio2jail.System.Kept.Reports.{set_kill_signal-Keeps}
use sio2jail.ProcFs.{lift}
use sio2jail.ProcFs.Kept.{lift-Keeps, read_proc_fs-Keeps}
use sio2jail.Printer.{set_kill_signal}
use sio2jail.System.{
  Kernel, World, M, ◌>>=◌, ◌>>◌, pure, throw, done, threw, Outcome, report, Reply, esrch,
  with_errno_check, with_errno_check_, query, Regs, ptrace_getregs, ptrace_geteventmsg,
  ptrace_setoptions,
}
use sio2jail.System.Kept.{
  Keeps, keeping, bind-Keeps, if-Keeps, pure-Keeps, throw-Keeps, Judged, Judges, Keeps-Judges,
  bind-Judges, pure-Judges, aside, ask-Keeps, with_errno_check-Keeps,
}
use sio2jail.Tracer.Action.{TraceAction, max}
use sio2jail.Tracer.ProcessTree.{ProcessTree, get_process, get_parent, add_child, del_child}
use sio2jail.Tracer.Signals.{deliver, handle_tracee_signal}
use sio2jail.Tracer.Tracee
use sio2jail.Tracer.Tracee.{Tracee}
use sio2jail.Tracer.TraceExecutor.{
  TraceListener, TraceExecutor, ptrace_options, clone_stop, exec_stop, post_exec, post_clone,
  trace_event, kill_root, continue_tracee, restart_child, delay, forget, execute_action,
  on_event_exec, on_new_thread, on_event_clone, when_exec, when_clone, on_stop, on_known,
  on_execute_event, on_post_fork_parent,
}

pub is_alive-Keeps : (pid : ℕ) → Keeps (Tracee.is_alive pid)
unfolding Tracee.is_alive
is_alive-Keeps pid = search keeping

pub checked_regs-Keeps : (r : Reply) (regs : Regs) → Keeps (Tracee.checked_regs r regs)
unfolding Tracee.checked_regs
checked_regs-Keeps r regs = search keeping

asked : ℕ → Reply → M Regs
asked pid r =
    query (ptrace_getregs pid) (λ k h. k.registers h pid) >>= λ regs. Tracee.checked_regs r regs

pub get_regs-Keeps : (pid : ℕ) → Keeps (Tracee.get_regs pid)
unfolding Tracee.get_regs asked
get_regs-Keeps pid =
    bind-Keeps (λ k w. pure (k.reply w.history (ptrace_getregs pid)) k w) (asked pid)
      (ask-Keeps (λ k h. k.reply h (ptrace_getregs pid)))
      (λ r. search (keeping, checked_regs-Keeps))

pub make-Keeps : (pid : ℕ) → Keeps (Tracee.make pid)
unfolding Tracee.make
make-Keeps pid = search (keeping, is_alive-Keeps, get_regs-Keeps)

kill_root-Keeps : (root pid : ℕ) → Keeps (kill_root root pid)
unfolding kill_root
kill_root-Keeps root pid = search (keeping, set_kill_signal-Keeps) depth 10

pub continue_tracee-Keeps :
    (root pid : ℕ) (action : TraceAction) (injected : ℕ)
    → Keeps (continue_tracee root pid action injected)
unfolding continue_tracee
continue_tracee-Keeps root pid TraceAction.continue injected = search keeping
continue_tracee-Keeps root pid TraceAction.kill injected = search (keeping, kill_root-Keeps)

pub restart_child-Keeps : (child : ℕ) (action : TraceAction) → Keeps (restart_child child action)
unfolding restart_child
restart_child-Keeps child TraceAction.continue = search keeping
restart_child-Keeps child TraceAction.kill = search keeping

pub forget-Keeps :
    (pid : ℕ) (parent : Option ℕ) (tree : ProcessTree) → Keeps (forget pid parent tree)
unfolding forget
forget-Keeps pid none tree = search keeping
forget-Keeps pid (some parent) tree = lift-Keeps (del_child parent pid tree)

pub delay-Keeps : (pid : ℕ) → Keeps (delay pid)
unfolding delay
delay-Keeps pid = search keeping

deliver-Keeps : (undefined : ℕ → ℕ) (caught signal : ℕ) → Keeps (deliver undefined caught signal)
unfolding deliver
deliver-Keeps undefined caught signal = search (keeping, set_kill_signal-Keeps)

pub handle_tracee_signal-Keeps :
    (undefined : ℕ → ℕ) (event : ExecuteEvent) (tracee : Tracee)
    → Keeps (handle_tracee_signal undefined event tracee)
unfolding handle_tracee_signal
handle_tracee_signal-Keeps undefined event tracee =
    search (keeping, read_proc_fs-Keeps, deliver-Keeps) depth 10
