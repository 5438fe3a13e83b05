-- ===== src/Tracer/TraceExecutor/Judged/Handler.antt =====
-- A property of the listeners' state through the tracer's handler: it holds until a kill reason is
-- given.
use sio2jail.Common.{ℕ, true, not, ◌&&◌, ◌||◌, ◌==◌, if◌then◌else◌, List, [], ◌∷◌, All}
use sio2jail.Executor.Event.{ExecuteEvent, ExecuteAction}
use sio2jail.ProcFs.{lift}
use sio2jail.ProcFs.Kept.{lift-Keeps}
use sio2jail.System.{
  M, ◌>>=◌, ◌>>◌, pure, Reply, esrch, with_errno_check, ptrace_geteventmsg, ptrace_setoptions,
}
use sio2jail.System.Kept.{
  Judges, bind-Judges, pure-Judges, aside, if-Judges, with_errno_check-Keeps,
}
use sio2jail.Tracer.Action.{TraceAction, max}
use sio2jail.Tracer.ProcessTree.{ProcessTree, get_process, get_parent, add_child}
use sio2jail.Tracer.Signals.{handle_tracee_signal}
use sio2jail.Tracer.Tracee
use sio2jail.Tracer.Tracee.{Tracee}
use sio2jail.Tracer.TraceExecutor.{
  TraceListener, TraceExecutor, ptrace_options, clone_stop, exec_stop, post_exec, post_clone,
  trace_event, continue_tracee, restart_child, delay, forget, execute_action, on_event_exec,
  on_new_thread, on_event_clone, when_exec, when_clone, on_stop, on_known, on_execute_event,
}
use sio2jail.Tracer.TraceExecutor.Judged.{
  is_alive-Keeps, make-Keeps, continue_tracee-Keeps, restart_child-Keeps, forget-Keeps, delay-Keeps,
  handle_tracee_signal-Keeps,
}
use sio2jail.Tracer.TraceExecutor.Judged.Stages.{
  FaithfulTrace, post_exec-Judges, post_clone-Judges, trace_event-Judges,
}

module _ {S : Type 0} (P : S → Type 0) (listeners : List (TraceListener S)) (undefined : ℕ → ℕ)
    (faithful : All (FaithfulTrace P) listeners) where
  on_event_exec-Judges :
      (event : ExecuteEvent) (tracee : Tracee) (x : TraceExecutor) (s : S)
      → Judges P s (on_event_exec listeners undefined event tracee x s) (λ r. r.2)
  unfolding on_event_exec
  on_event_exec-Judges event tracee x s =
      bind-Judges P s (post_exec listeners event tracee TraceAction.continue s)
        (λ r. pure (r.0, record x { has_execved = true }, r.1)) (λ r. r.1) (λ r. r.2)
        (post_exec-Judges P listeners event tracee TraceAction.continue s faithful)
        (λ r. pure-Judges P (r.0, record x { has_execved = true }, r.1) (λ q. q.2))

  when_exec-Judges :
      (event : ExecuteEvent) (tracee : Tracee) (x : TraceExecutor) (s : S)
      → Judges P s (when_exec listeners undefined event tracee x s) (λ r. r.2)
  unfolding when_exec
  when_exec-Judges event tracee x s =
      if-Judges P s (not x.has_execved && (event.trapped && event.signal == exec_stop))
        (on_event_exec listeners undefined event tracee x s) (pure (TraceAction.continue, x, s))
        (λ r. r.2) (on_event_exec-Judges event tracee x s)
        (pure-Judges P (TraceAction.continue, x, s) (λ r. r.2))

  restarted :
      ℕ
      → TraceExecutor
      → ProcessTree
      → (TraceAction × TraceAction) × S
      → M (TraceAction × TraceExecutor × S)
  restarted child x tree r =
      restart_child child r.0.1 >> pure (r.0.0, record x { tree = tree }, r.1)

  on_new_thread-Judges :
      (event : ExecuteEvent) (tracee : Tracee) (child : ℕ) (r : Reply) (x : TraceExecutor) (s : S)
      → Judges P s (on_new_thread listeners undefined event tracee child r x s) (λ q. q.2)
  unfolding on_new_thread restarted
  on_new_thread-Judges event tracee child r x s =
      if-Judges P s (r.errno == esrch) (pure (TraceAction.continue, x, s))
        (lift (add_child tracee.pid child x.tree) >>= λ tree. Tracee.make child >>= λ t.
          post_clone listeners event tracee child TraceAction.continue TraceAction.continue s
          >>= restarted child x tree)
        (λ q. q.2) (pure-Judges P (TraceAction.continue, x, s) (λ q. q.2))
        (bind-Judges P s (lift (add_child tracee.pid child x.tree))
          (λ tree. Tracee.make child >>= λ t.
            post_clone listeners event tracee child TraceAction.continue TraceAction.continue s
            >>= restarted child x tree)
          (λ tree. s) (λ q. q.2) (aside P s _ (lift-Keeps (add_child tracee.pid child x.tree)))
          (λ tree.
            bind-Judges P s (Tracee.make child)
              (λ t.
                post_clone listeners event tracee child TraceAction.continue TraceAction.continue s
                >>= restarted child x tree)
              (λ t. s) (λ q. q.2) (aside P s _ (make-Keeps child))
              (λ t.
                bind-Judges P s
                  (post_clone listeners event tracee child TraceAction.continue TraceAction.continue
                    s)
                  (restarted child x tree) (λ q. q.1) (λ q. q.2)
                  (post_clone-Judges P listeners event tracee child TraceAction.continue
                    TraceAction.continue s faithful)
                  (λ q.
                    bind-Judges P q.1 (restart_child child q.0.1)
                      (λ u. pure (q.0.0, record x { tree = tree }, q.1)) (λ u. q.1) (λ o. o.2)
                      (aside P q.1 _ (restart_child-Keeps child q.0.1))
                      (λ u. pure-Judges P (q.0.0, record x { tree = tree }, q.1) (λ o. o.2))))))

  on_event_clone-Judges :
      (event : ExecuteEvent) (tracee : Tracee) (x : TraceExecutor) (s : S)
      → Judges P s (on_event_clone listeners undefined event tracee x s) (λ q. q.2)
  unfolding on_event_clone
  on_event_clone-Judges event tracee x s =
      bind-Judges P s (with_errno_check [] (ptrace_geteventmsg event.pid))
        (λ m. with_errno_check (esrch ∷ []) (ptrace_setoptions m.value ptrace_options) >>= λ r.
          on_new_thread listeners undefined event tracee m.value r x s)
        (λ m. s) (λ q. q.2) (aside P s _ (with_errno_check-Keeps [] (ptrace_geteventmsg event.pid)))
        (λ m.
          bind-Judges P s (with_errno_check (esrch ∷ []) (ptrace_setoptions m.value ptrace_options))
            (λ r. on_new_thread listeners undefined event tracee m.value r x s) (λ r. s) (λ q. q.2)
            (aside P s _
              (with_errno_check-Keeps (esrch ∷ []) (ptrace_setoptions m.value ptrace_options)))
            (λ r. on_new_thread-Judges event tracee m.value r x s))

  when_clone-Judges :
      (event : ExecuteEvent) (tracee : Tracee) (x : TraceExecutor) (s : S)
      → Judges P s (when_clone listeners undefined event tracee x s) (λ q. q.2)
  unfolding when_clone
  when_clone-Judges event tracee x s =
      if-Judges P s (event.signal == clone_stop)
        (on_event_clone listeners undefined event tracee x s) (pure (TraceAction.continue, x, s))
        (λ q. q.2) (on_event_clone-Judges event tracee x s)
        (pure-Judges P (TraceAction.continue, x, s) (λ q. q.2))

  handled :
      ExecuteEvent
      → Tracee
      → TraceExecutor
      → TraceAction × Tracee × S
      → M (ExecuteAction × TraceExecutor × S)
  handled event tracee x r = handle_tracee_signal undefined event r.1 >>= λ q.
      continue_tracee x.root tracee.pid (max r.0 q.0) q.1
      >> pure (execute_action (max r.0 q.0), x, r.2)

  handled-Judges :
      (event : ExecuteEvent) (tracee : Tracee) (x : TraceExecutor) (r : TraceAction × Tracee × S)
      → Judges P r.2 (handled event tracee x r) (λ q. q.2)
  unfolding handled
  handled-Judges event tracee x r =
      bind-Judges P r.2 (handle_tracee_signal undefined event r.1)
        (λ q.
          continue_tracee x.root tracee.pid (max r.0 q.0) q.1
          >> pure (execute_action (max r.0 q.0), x, r.2))
        (λ q. r.2) (λ q. q.2) (aside P r.2 _ (handle_tracee_signal-Keeps undefined event r.1))
        (λ q.
          bind-Judges P r.2 (continue_tracee x.root tracee.pid (max r.0 q.0) q.1)
            (λ u. pure (execute_action (max r.0 q.0), x, r.2)) (λ u. r.2) (λ o. o.2)
            (aside P r.2 _ (continue_tracee-Keeps x.root tracee.pid (max r.0 q.0) q.1))
            (λ u. pure-Judges P (execute_action (max r.0 q.0), x, r.2) (λ o. o.2)))

  on_stop-Judges :
      (event : ExecuteEvent) (tracee : Tracee) (before : TraceAction) (x : TraceExecutor) (s : S)
      → Judges P s (on_stop listeners undefined event tracee before x s) (λ q. q.2)
  unfolding on_stop handled
  on_stop-Judges event tracee before x s =
      bind-Judges P s (trace_event listeners event tracee before s)
        (λ r. Tracee.is_alive tracee.pid >>= λ alive.
          if alive then handled event tracee x r else pure (execute_action r.0, x, r.2))
        (λ r. r.2) (λ q. q.2) (trace_event-Judges P listeners event tracee before s faithful)
        (λ r.
          bind-Judges P r.2 (Tracee.is_alive tracee.pid)
            (λ alive. if alive then handled event tracee x r else pure (execute_action r.0, x, r.2))
            (λ alive. r.2) (λ q. q.2) (aside P r.2 _ (is_alive-Keeps tracee.pid))
            (λ alive.
              if-Judges P r.2 alive (handled event tracee x r) (pure (execute_action r.0, x, r.2))
                (λ q. q.2) (handled-Judges event tracee x r)
                (pure-Judges P (execute_action r.0, x, r.2) (λ q. q.2))))

  after_stops :
      ExecuteEvent
      → Tracee
      → TraceAction
      → TraceAction × TraceExecutor × S
      → M (ExecuteAction × TraceExecutor × S)
  after_stops event tracee a r =
      if event.exited || event.killed
      then (forget event.pid (get_parent event.pid r.1.tree) r.1.tree >>= λ tree.
          pure (ExecuteAction.continue, record r.1 { tree = tree }, r.2))
      else on_stop listeners undefined event tracee (max a r.0) r.1 r.2

  after_stops-Judges :
      (event : ExecuteEvent) (tracee : Tracee) (a : TraceAction)
      (r : TraceAction × TraceExecutor × S)
      → Judges P r.2 (after_stops event tracee a r) (λ q. q.2)
  unfolding after_stops
  after_stops-Judges event tracee a r =
      if-Judges P r.2 (event.exited || event.killed)
        (forget event.pid (get_parent event.pid r.1.tree) r.1.tree >>= λ tree.
          pure (ExecuteAction.continue, record r.1 { tree = tree }, r.2))
        (on_stop listeners undefined event tracee (max a r.0) r.1 r.2) (λ q. q.2)
        (bind-Judges P r.2 (forget event.pid (get_parent event.pid r.1.tree) r.1.tree)
          (λ tree. pure (ExecuteAction.continue, record r.1 { tree = tree }, r.2)) (λ tree. r.2)
          (λ q. q.2)
          (aside P r.2 _ (forget-Keeps event.pid (get_parent event.pid r.1.tree) r.1.tree))
          (λ tree.
            pure-Judges P (ExecuteAction.continue, record r.1 { tree = tree }, r.2) (λ q. q.2)))
        (on_stop-Judges event tracee (max a r.0) r.1 r.2)

  on_known-Judges :
      (event : ExecuteEvent) (x : TraceExecutor) (s : S)
      → Judges P s (on_known listeners undefined event x s) (λ q. q.2)
  unfolding on_known after_stops
  on_known-Judges event x s =
      bind-Judges P s (Tracee.make event.pid)
        (λ t. when_exec listeners undefined event t x s >>= λ r.
          when_clone listeners undefined event t r.1 r.2 >>= after_stops event t r.0)
        (λ t. s) (λ q. q.2) (aside P s _ (make-Keeps event.pid))
        (λ t.
          bind-Judges P s (when_exec listeners undefined event t x s)
            (λ r. when_clone listeners undefined event t r.1 r.2 >>= after_stops event t r.0)
            (λ r. r.2) (λ q. q.2) (when_exec-Judges event t x s)
            (λ r.
              bind-Judges P r.2 (when_clone listeners undefined event t r.1 r.2)
                (after_stops event t r.0) (λ c. c.2) (λ q. q.2) (when_clone-Judges event t r.1 r.2)
                (after_stops-Judges event t r.0)))

  -- The tracer's handler keeps a property of its listeners' state that each of their callbacks
  -- keeps, unless a kill reason is given.
  pub on_execute_event-Judges :
      (event : ExecuteEvent) (x : TraceExecutor) (s : S)
      → Judges P s (on_execute_event listeners undefined event x s) (λ q. q.2)
  unfolding on_execute_event
  on_execute_event-Judges event x s =
      let x' = record x { tree = (get_process event.pid x.tree).1 } in
      if-Judges P s (get_process event.pid x.tree).0 (on_known listeners undefined event x' s)
        (delay event.pid >> pure (ExecuteAction.continue, x', s)) (λ q. q.2)
        (on_known-Judges event x' s)
        (bind-Judges P s (delay event.pid) (λ u. pure (ExecuteAction.continue, x', s)) (λ u. s)
          (λ q. q.2) (aside P s _ (delay-Keeps event.pid))
          (λ u. pure-Judges P (ExecuteAction.continue, x', s) (λ q. q.2)))
