-- ===== src/Executor/Examples.antt =====
-- The supervisor's loop on a child that stops once and then ends, without listeners.
use sio2jail.Common.{
  ℕ, suc, ltb, if◌then◌else◌, arith, ◌≡◌, refl, true, false, List, [], ◌∷◌, some, inl,
}
use sio2jail.Executor.Event.{ExecuteAction, ExecuteEvent}
use sio2jail.Executor.{
  Listener, Flags, loop, round, check_signals, wait, wait_call, on_wait, notify, obey, finish_event,
  event_of, report_end, sigkill,
}
use sio2jail.Executor.Loop.{Rounds, loop_reports, loop_ends, EndReported}
use sio2jail.Executor.Waits.{waits, WaitsNot, pure-Busy}
use sio2jail.Executor.Ends.{EndsAfter, Ends, loop-Ends}
use sio2jail.Executor.Rounds.{finish_event_kills}
use sio2jail.Printer
use sio2jail.Printer.{set_kill_signal, set_exit_status}
use sio2jail.System.{
  Kernel, World, pure, cld_exited, cld_stopped, Syscall, done, waitid_any, kill, waitid_clear,
}
use sio2jail.System.Sample.{sample_kernel, sample_world}

-- No signal comes.
abbrev silent : List Syscall → Flags
silent h = record { sigio = false; sigalrm = false }

abbrev no_listeners : List (Listener ℕ)
no_listeners = []

abbrev ended_world : World
ended_world = record { history = waitid_any ∷ []; output = set_exit_status 3 (Printer.make 0 0) }

-- The end of another process.
abbrev stranger : ExecuteEvent
stranger = record {
  pid = 101;
  exit_status = 0;
  signal = 11;
  exited = false;
  killed = true;
  stopped = false;
  trapped = false;
}

loop_of_one_round :
    loop no_listeners silent true 100 3 5 sample_kernel sample_world ≡ done (some 5, ended_world)
unfolding round check_signals wait wait_call on_wait notify obey finish_event event_of report_end
loop_of_one_round = loop_ends no_listeners silent true 100 sample_kernel 2 Rounds.start refl

loop_reports_example : EndReported no_listeners silent true 100 sample_kernel 5 ended_world
loop_reports_example =
    loop_reports no_listeners silent true 100 sample_kernel 3 5 5 sample_world ended_world
      loop_of_one_round

finish_event_kills_example :
    finish_event true 100 stranger ExecuteAction.kill sample_kernel sample_world
    ≡ done (
      false,
      record {
        output = set_kill_signal sigkill sample_world.output;
        history = kill 100 sigkill ∷ waitid_clear 101 ∷ [];
      },
    )
finish_event_kills_example =
    finish_event_kills sample_kernel (λ h pid signal. (inl refl, inl refl)) true 100 stranger
      sample_world refl refl (inl refl)

-- A listener that counts the events.
abbrev counting : Listener ℕ
counting = record {
  on_pre_fork = λ s. pure s;
  on_post_fork_parent = λ child s. pure s;
  on_execute_event = λ event s. pure (ExecuteAction.continue, suc s);
  on_sigio_signal = λ s. pure (ExecuteAction.continue, s);
  on_sigalrm_signal = λ s. pure (ExecuteAction.continue, s);
  on_post_execute = λ s. pure s;
}

-- The child stops twice and then ends.
abbrev stopping_kernel : Kernel
stopping_kernel = record sample_kernel {
  wait_info = λ h. record {
    si_pid = 100;
    si_code = if ltb 2 (waits h) then cld_exited else cld_stopped;
    si_status = 3;
  };
}

counting-WaitsNot : WaitsNot stopping_kernel counting
counting-WaitsNot = record {
  at_event = λ event s. pure-Busy stopping_kernel (ExecuteAction.continue, suc s);
  at_sigio = λ s. pure-Busy stopping_kernel (ExecuteAction.continue, s);
  at_sigalrm = λ s. pure-Busy stopping_kernel (ExecuteAction.continue, s);
}

stopping_kernel-EndsAfter : EndsAfter stopping_kernel 2 true 100
unfolding wait_call event_of
stopping_kernel-EndsAfter h late =
    let over : ltb 2 (suc (waits h)) ≡ true = ground arith in (refl, rw over refl, rw over refl)

loop-Ends_example : Ends (counting ∷ []) silent true 100 stopping_kernel 3 0 sample_world
loop-Ends_example =
    loop-Ends (counting ∷ []) silent true 100 2 stopping_kernel (counting-WaitsNot, tt)
      stopping_kernel-EndsAfter 3 0 sample_world (omega arith) (omega arith)
