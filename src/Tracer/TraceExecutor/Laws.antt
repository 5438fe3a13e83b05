-- ===== src/Tracer/TraceExecutor/Laws.antt =====
-- What the tracer's handler guarantees: the root is killed before anything is resumed, and the map
-- of processes stays right.
use sio2jail.Common.{
  ℕ, ◌≡◌, ◌⊎◌, refl, true, false, ◌==◌, if◌then◌else◌, List, [], ◌∷◌, ◌++◌, arith,
}
use sio2jail.Executor.Event.{ExecuteEvent, ExecuteAction}
use sio2jail.Printer.{set_kill_signal}
use sio2jail.System.{
  Kernel, World, M, Reply, Syscall, done, ◌>>=◌, kill, ptrace_cont, esrch, with_errno_check_,
  contains,
}
use sio2jail.System.Checks.{with_errno_check_-tolerates, >>=-eq-done}
use sio2jail.Tracer.Action.{TraceAction, max}
use sio2jail.Tracer.Tracee
use sio2jail.Tracer.Tracee.{Tracee}
use sio2jail.Tracer.Signals.{sigkill, handle_tracee_signal}
use sio2jail.Tracer.TraceExecutor.{
  TraceExecutor, TraceListener, kill_root, continue_tracee, trace_event, on_stop, execute_action,
}

-- A call succeeds, or says that there is no such process.
abbrev pub GoneAtMost : Reply → Type 0
GoneAtMost r = (r.failed ≡ false) ⊎ (r.errno ≡ esrch)

-- Signals are sent and tracees resumed, unless the process is gone.
abbrev pub Tolerant : Kernel → Type 0
Tolerant k =
    (h : List Syscall) (pid signal : ℕ)
    → GoneAtMost (k.reply h (kill pid signal)) × GoneAtMost (k.reply h (ptrace_cont pid signal))

pub tolerated :
    (k : Kernel) (c : Syscall) (w : World)
    → GoneAtMost (k.reply w.history c)
    → with_errno_check_ (esrch ∷ []) c k w ≡ done (tt, record w { history = c ∷ w.history })
unfolding contains
tolerated k c w h = with_errno_check_-tolerates (esrch ∷ []) c k w (ground (arith, h))

module _ (k : Kernel) (tolerant : Tolerant k) where
  pub kill_done :
      (pid signal : ℕ) (w : World)
      → with_errno_check_ (esrch ∷ []) (kill pid signal) k w
        ≡ done (tt, record w { history = kill pid signal ∷ w.history })
  kill_done pid signal w = tolerated k (kill pid signal) w (tolerant w.history pid signal).0

  cont_done :
      (pid signal : ℕ) (w : World)
      → with_errno_check_ (esrch ∷ []) (ptrace_cont pid signal) k w
        ≡ done (tt, record w { history = ptrace_cont pid signal ∷ w.history })
  cont_done pid signal w = tolerated k (ptrace_cont pid signal) w (tolerant w.history pid signal).1

  kill_root_done :
      (root pid : ℕ) (w : World)
      → kill_root root pid k w
        ≡ done (
          tt,
          record {
            output = set_kill_signal sigkill w.output;
            history =
                (if root == pid then [] else kill pid sigkill ∷ [])
                ++ kill root sigkill ∷ w.history;
          },
        )
  unfolding kill_root
  kill_root_done root pid w =
      let w₁ = record w { output = set_kill_signal sigkill w.output } in
      ground (
        arith,
        kill_done root sigkill w₁,
        kill_done pid sigkill (record w₁ { history = kill root sigkill ∷ w.history }),
      )

  -- If the kernel does what it is asked or says that the process is gone, then after a kill action
  -- the calls are, in this order: SIGKILL for the root, SIGKILL for the tracee if it is another
  -- process, and only then the tracee is resumed; and SIGKILL is reported.
  pub continue_tracee_kills :
      (root pid injected : ℕ) (w : World)
      → continue_tracee root pid TraceAction.kill injected k w
        ≡ done (
          tt,
          record {
            output = set_kill_signal sigkill w.output;
            history =
                ptrace_cont pid injected
                ∷ ((if root == pid then [] else kill pid sigkill ∷ [])
                    ++ kill root sigkill ∷ w.history);
          },
        )
  unfolding continue_tracee
  continue_tracee_kills root pid injected w =
      rw (kill_root_done root pid w, ◌>>=◌) (cont_done pid injected _)

-- If the kernel sends signals and resumes tracees unless the process is gone, and at a stop
-- of a tracee that is still alive when the listeners have answered, the
-- greatest of the actions asked for before, by the listeners and for the signal is a kill, then
-- SIGKILL goes to the root, then to the tracee if it is another process, and only then the tracee
-- is resumed; SIGKILL is reported, and the supervisor is asked for a kill.
pub on_stop_kills :
    (k : Kernel) (tolerant : Tolerant k) {S : Type 0} (listeners : List (TraceListener S))
    (undefined : ℕ → ℕ) (event : ExecuteEvent) (tracee tracee' : Tracee)
    (before action signal_action : TraceAction) (injected : ℕ) (x : TraceExecutor) (s s' : S)
    (w w₁ w₂ w₃ : World)
    → trace_event listeners event tracee before s k w ≡ done ((action, tracee', s'), w₁)
    → Tracee.is_alive tracee.pid k w₁ ≡ done (true, w₂)
    → handle_tracee_signal undefined event tracee' k w₂ ≡ done ((signal_action, injected), w₃)
    → max action signal_action ≡ TraceAction.kill
    → on_stop listeners undefined event tracee before x s k w
      ≡ done (
        (ExecuteAction.kill, x, s'),
        record {
          output = set_kill_signal sigkill w₃.output;
          history =
              ptrace_cont tracee.pid injected
              ∷ ((if x.root == tracee.pid then [] else kill tracee.pid sigkill ∷ [])
                  ++ kill x.root sigkill ∷ w₃.history);
        },
      )
unfolding on_stop execute_action
on_stop_kills k tolerant listeners undefined event tracee tracee' before action sa injected x s s' w
      w₁ w₂ w₃ heard alive signal asks =
    rw (heard, ◌>>=◌)
      (rw (alive, ◌>>=◌)
        (rw (signal, ◌>>=◌)
          (rw (asks, continue_tracee_kills k tolerant x.root tracee.pid injected w₃, ◌>>=◌)
            (rw (asks)))))

max_kill : (a : TraceAction) → max a TraceAction.kill ≡ TraceAction.kill
unfolding max
max_kill TraceAction.continue = refl
max_kill TraceAction.kill = refl

-- What the listeners after the first do with what it returned.
heard_by :
    {S : Type 0}
    → List (TraceListener S)
    → ExecuteEvent
    → TraceAction
    → TraceAction × Tracee × S
    → M (TraceAction × Tracee × S)
heard_by ls event start (a, t, s) = trace_event ls event t (max start a) s

kill_stays :
    {S : Type 0} (ls : List (TraceListener S)) (event : ExecuteEvent) (t t' : Tracee) (s s' : S)
    (a : TraceAction) (k : Kernel) (w w' : World)
    → trace_event ls event t TraceAction.kill s k w ≡ done ((a, t', s'), w')
    → a ≡ TraceAction.kill
unfolding trace_event max heard_by
kill_stays [] event t t' s s' a k w w' e = ground arith
kill_stays (l ∷ ls) event t t' s s' a k w w' e =
    let ((b, t₁, s₁), v, _, rest) =
      >>=-eq-done (l.on_trace_event event t s) (heard_by ls event TraceAction.kill) e in
    kill_stays ls event t₁ t' s₁ s' a k v w' rest

-- Where any one listener asks for a kill, the listeners together do, whatever the ones before and
-- after it ask for.
pub trace_event_any_kill :
    {S : Type 0} (before after : List (TraceListener S)) (l : TraceListener S)
    (event : ExecuteEvent) (t t₁ t₂ t' : Tracee) (s s₁ s₂ s' : S) (start a₁ a : TraceAction)
    (k : Kernel) (w w₁ w₂ w' : World)
    → trace_event before event t start s k w ≡ done ((a₁, t₁, s₁), w₁)
    → l.on_trace_event event t₁ s₁ k w₁ ≡ done ((TraceAction.kill, t₂, s₂), w₂)
    → trace_event (before ++ l ∷ after) event t start s k w ≡ done ((a, t', s'), w')
    → a ≡ TraceAction.kill
unfolding trace_event heard_by
trace_event_any_kill [] after l event t t₁ t₂ t' s s₁ s₂ s' start a₁ a k w w₁ w₂ w' e h r =
    let ((b, t₃, s₃), v, here, rest) =
      >>=-eq-done (l.on_trace_event event t s) (heard_by after event start) r in
    let asks : b ≡ TraceAction.kill = cc in
    kill_stays after event t₃ t' s₃ s' a k v w' (rw (asks, max_kill start) at rest)
trace_event_any_kill (b ∷ before) after l event t t₁ t₂ t' s s₁ s₂ s' start a₁ a k w w₁ w₂ w' e h
      r =
    let ((a₃, t₃, s₃), v, here, rest) =
      >>=-eq-done (b.on_trace_event event t s) (heard_by (before ++ l ∷ after) event start) r in
    let ((a₄, t₄, s₄), v', here', rest') =
      >>=-eq-done (b.on_trace_event event t s) (heard_by before event start) e in
    let same : trace_event before event t₃ (max start a₃) s₃ k v ≡ done ((a₁, t₁, s₁), w₁) = cc in
    trace_event_any_kill before after l event t₃ t₁ t₂ t' s₃ s₁ s₂ s' (max start a₃) a₁ a k v w₁ w₂
      w' same h rest
