-- ===== src/Tracer/Examples.antt =====
-- The theorems on the tracer at concrete inputs.
use sio2jail.Common.{ℕ, ◌*◌, ◌^◌, ◌≡◌, inl, inr, refl, true, false, [], ◌∷◌, arith, bit}
use sio2jail.Executor.Event.{ExecuteAction, ExecuteEvent}
use sio2jail.Printer.{set_kill_signal}
use sio2jail.ProcFs.{lift}
use sio2jail.System.{contains, World, done, pure, kill, ptrace_cont}
use sio2jail.System.Sample.{sample_kernel, sample_world, sample_regs}
use sio2jail.Tracer.Action.{TraceAction}
use sio2jail.Tracer.ProcessTree.{
  ProcessTree, end, process, make_root, get_process, del_child, destroyed_under, destroyed, pids,
  has_child, children_of, owns, owner, get_parent,
}
use sio2jail.Tracer.ProcessTree.Destroyed.{del_child_forgets}
use sio2jail.Tracer.ProcessTree.Registered.{Registered, occurs, del_child-Registered, Removed}
use sio2jail.Tracer.Signals.{deliver, sigkill, handle_tracee_signal}
use sio2jail.Tracer.Signals.Uncaught.{deliver_lem, deliver_sigsys, is_caught, is_ignored}
use sio2jail.Tracer.TraceExecutor.{
  TraceListener, TraceExecutor, continue_tracee, on_stop, trace_event, on_execute_event, on_known,
  when_exec, when_clone, forget,
}
use sio2jail.Tracer.TraceExecutor.Laws.{Tolerant, continue_tracee_kills, on_stop_kills}
use sio2jail.Tracer.TraceExecutor.Tree.Handler.{Handled, on_execute_event-Registered}
use sio2jail.Tracer.Tracee
use sio2jail.Tracer.Tracee.{Tracee}

abbrev tracee : Tracee
tracee = record {
  pid = 101;
  regs = sample_regs;
  signal_suppressed = true;
  syscall_arch = Tracee.Arch.x86_64;
}

abbrev stop : ExecuteEvent
stop = record {
  pid = 101;
  exit_status = 0;
  signal = 5;
  exited = false;
  killed = false;
  stopped = true;
  trapped = false;
}

abbrev x : TraceExecutor
x = record { root = 100; tree = make_root 100; has_execved = true }

-- A listener that asks for a kill at each event.
abbrev strict : TraceListener ℕ
strict = record {
  on_post_exec = λ e t s. pure (TraceAction.continue, s);
  on_post_clone = λ e t c s. pure ((TraceAction.continue, TraceAction.continue), s);
  on_trace_event = λ e t s. pure (TraceAction.kill, t, s);
}

abbrev lax : TraceListener ℕ
lax = record strict { on_trace_event = λ e t s. pure (TraceAction.continue, t, s) }

-- No signal is shifted that far.
abbrev undefined : ℕ → ℕ
undefined n = 0

tolerant : Tolerant sample_kernel
tolerant h pid signal = (inl refl, inl refl)

abbrev probed : World
probed = record sample_world { history = kill 101 0 ∷ [] }

on_stop_kills_example :
    on_stop (strict ∷ []) undefined stop tracee TraceAction.continue x 0 sample_kernel sample_world
    ≡ done (
      (ExecuteAction.kill, x, 0),
      record {
        output = set_kill_signal sigkill sample_world.output;
        history = ptrace_cont 101 0 ∷ kill 101 sigkill ∷ kill 100 sigkill ∷ kill 101 0 ∷ [];
      },
    )
unfolding trace_event Tracee.is_alive handle_tracee_signal sio2jail.Tracer.Action.max
on_stop_kills_example =
    on_stop_kills sample_kernel tolerant (strict ∷ []) undefined stop tracee tracee
      TraceAction.continue TraceAction.kill TraceAction.continue 0 x 0 0 sample_world sample_world
      probed probed refl refl refl refl

continue_tracee_kills_example :
    continue_tracee 100 101 TraceAction.kill 11 sample_kernel sample_world
    ≡ done (
      tt,
      record {
        output = set_kill_signal sigkill sample_world.output;
        history = ptrace_cont 101 11 ∷ kill 101 sigkill ∷ kill 100 sigkill ∷ [];
      },
    )
continue_tracee_kills_example = continue_tracee_kills sample_kernel tolerant 100 101 11 sample_world

-- A root with a thread, which has started another one.
abbrev family : ProcessTree
family = record {
  forest = process 100 (process 101 (process 102 end end) end) end;
  whole_tree_info = 102 ∷ 101 ∷ 100 ∷ [];
}

family-Registered : Registered family
unfolding occurs
family-Registered = record { registered = λ q. ground arith; once = λ q. ground arith }

del_child-Registered_example : Removed 100 101 family
unfolding has_child children_of owns
del_child-Registered_example = del_child-Registered 100 101 family family-Registered refl

del_child_forgets_example : get_process 102 (make_root 100) ≡ (false, make_root 100)
unfolding make_root has_child children_of owns del_child occurs
del_child_forgets_example =
    del_child_forgets 100 101 102 family (make_root 100) family-Registered refl (inr (omega arith))
      refl

deliver_lem_example :
    deliver undefined 1024 15 sample_kernel sample_world
    ≡ done (
      (TraceAction.kill, sigkill),
      record sample_world { output = set_kill_signal 15 sample_world.output },
    )
unfolding is_caught is_ignored bit
deliver_lem_example =
    deliver_lem undefined 1024 15 sample_kernel sample_world (omega arith) (omega arith)

deliver_sigsys_example :
    deliver undefined (2 * 2 ^ 32) 31 sample_kernel sample_world
    ≡ done ((TraceAction.continue, 31), sample_world)
unfolding bit
deliver_sigsys_example =
    deliver_sigsys undefined (2 * 2 ^ 32) 33 sample_kernel sample_world (omega arith) (omega arith)
      refl

-- The last thread ends.
abbrev thread_end : ExecuteEvent
thread_end = record {
  pid = 102;
  exit_status = 0;
  signal = 0;
  exited = true;
  killed = false;
  stopped = false;
  trapped = false;
}

abbrev traced : TraceExecutor
traced = record { root = 100; tree = family; has_execved = true }

abbrev traced_after : TraceExecutor
traced_after = record traced {
  tree = record {
    forest = process 100 (process 101 end end) end;
    whole_tree_info = 101 ∷ 100 ∷ [];
  };
}

on_execute_event-Registered_example : Handled thread_end traced traced_after
unfolding contains lift on_execute_event on_known get_process owns Tracee.make Tracee.is_alive
    Tracee.get_regs Tracee.checked_regs when_exec when_clone forget get_parent owner del_child
    has_child children_of destroyed_under destroyed pids
on_execute_event-Registered_example =
    on_execute_event-Registered (lax ∷ []) undefined thread_end traced traced_after 0 0
      ExecuteAction.continue sample_kernel sample_world _ family-Registered refl
