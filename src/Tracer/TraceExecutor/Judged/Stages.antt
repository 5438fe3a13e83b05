-- ===== src/Tracer/TraceExecutor/Judged/Stages.antt =====
-- A property of the listeners' state through the stages of the tracer's listeners: it holds until a
-- kill reason is given.
use sio2jail.Common.{ℕ, List, [], ◌∷◌, All}
use sio2jail.Executor.Event.{ExecuteEvent}
use sio2jail.System.Kept.{Judges, bind-Judges, pure-Judges}
use sio2jail.Tracer.Action.{TraceAction, max}
use sio2jail.Tracer.Tracee.{Tracee}
use sio2jail.Tracer.TraceExecutor.{TraceListener, post_exec, post_clone, trace_event}

-- Each callback of a listener keeps the property, or gives a reason.
pub record FaithfulTrace {S : Type 0} (P : S → Type 0) (l : TraceListener S) : Type 0 where
  pub exec :
      (event : ExecuteEvent) (tracee : Tracee) (s : S)
      → Judges P s (l.on_post_exec event tracee s) (λ r. r.1)
  pub clone :
      (event : ExecuteEvent) (tracee : Tracee) (child : ℕ) (s : S)
      → Judges P s (l.on_post_clone event tracee child s) (λ r. r.1)
  pub trace :
      (event : ExecuteEvent) (tracee : Tracee) (s : S)
      → Judges P s (l.on_trace_event event tracee s) (λ r. r.2)

module _ {S : Type 0} (P : S → Type 0) where
  pub post_exec-Judges :
      (ls : List (TraceListener S)) (event : ExecuteEvent) (tracee : Tracee) (action : TraceAction)
      (s : S)
      → All (FaithfulTrace P) ls
      → Judges P s (post_exec ls event tracee action s) (λ r. r.1)
  unfolding post_exec
  post_exec-Judges [] event tracee action s h = pure-Judges P (action, s) (λ r. r.1)
  post_exec-Judges (l ∷ ls) event tracee action s h =
      bind-Judges P s (l.on_post_exec event tracee s)
        (λ r. post_exec ls event tracee (max action r.0) r.1) (λ r. r.1) (λ r. r.1)
        (h.0.exec event tracee s) (λ r. post_exec-Judges ls event tracee (max action r.0) r.1 h.1)

  pub post_clone-Judges :
      (ls : List (TraceListener S)) (event : ExecuteEvent) (tracee : Tracee) (child : ℕ)
      (a b : TraceAction) (s : S)
      → All (FaithfulTrace P) ls
      → Judges P s (post_clone ls event tracee child a b s) (λ r. r.1)
  unfolding post_clone
  post_clone-Judges [] event tracee child a b s h = pure-Judges P ((a, b), s) (λ r. r.1)
  post_clone-Judges (l ∷ ls) event tracee child a b s h =
      bind-Judges P s (l.on_post_clone event tracee child s)
        (λ r. post_clone ls event tracee child (max a r.0.0) (max b r.0.1) r.1) (λ r. r.1)
        (λ r. r.1) (h.0.clone event tracee child s)
        (λ r. post_clone-Judges ls event tracee child (max a r.0.0) (max b r.0.1) r.1 h.1)

  pub trace_event-Judges :
      (ls : List (TraceListener S)) (event : ExecuteEvent) (tracee : Tracee) (action : TraceAction)
      (s : S)
      → All (FaithfulTrace P) ls
      → Judges P s (trace_event ls event tracee action s) (λ r. r.2)
  unfolding trace_event
  trace_event-Judges [] event tracee action s h = pure-Judges P (action, tracee, s) (λ r. r.2)
  trace_event-Judges (l ∷ ls) event tracee action s h =
      bind-Judges P s (l.on_trace_event event tracee s)
        (λ r. trace_event ls event r.1 (max action r.0) r.2) (λ r. r.2) (λ r. r.2)
        (h.0.trace event tracee s) (λ r. trace_event-Judges ls event r.1 (max action r.0) r.2 h.1)
