-- ===== src/Tracer/TraceExecutor/Tree.antt =====
-- The tracer's handler keeps the map of processes right, whatever its listeners do.
pub mod Handler
use sio2jail.Common.{
  ℕ, ◌≡◌, ◌⊎◌, ◌<◌, inl, inr, Bool-cases, true, false, not, ◌&&◌, ◌==◌, if◌then◌else◌, List, [],
  ◌∷◌, ap, subst, sym, arith,
}
use sio2jail.Executor.Event.{ExecuteEvent}
use sio2jail.ProcFs.{lift}
use sio2jail.System.{
  Kernel, World, M, Reply, Regs, Outcome, done, threw, ◌>>=◌, ◌>>◌, pure, esrch, with_errno_check,
  ptrace_geteventmsg, ptrace_setoptions,
}
use sio2jail.System.Checks.{>>=-eq-done}
use sio2jail.Tracer.Action.{TraceAction}
use sio2jail.Tracer.ProcessTree.{ProcessTree, add_child}
use sio2jail.Tracer.ProcessTree.Registered.{
  Registered, occurs, add_child_absent, add_child-Registered,
}
use sio2jail.Tracer.Tracee
use sio2jail.Tracer.Tracee.{Tracee, Arch}
use sio2jail.Tracer.TraceExecutor.{
  TraceExecutor, TraceListener, clone_stop, exec_stop, ptrace_options, post_exec, post_clone,
  restart_child, on_event_exec, on_new_thread, on_event_clone, when_exec, when_clone,
}

pub lift-done :
    {A : Type 0} (o : Outcome A) (k : Kernel) (w w' : World) (a : A)
    → lift o k w ≡ done (a, w')
    → o ≡ done a
unfolding lift
lift-done (done b) k w w' a h = ground arith
lift-done (threw e) k w w' a h = ground arith

built : ℕ → Regs → M Tracee
built pid regs =
    pure (record { pid = pid; regs = regs; signal_suppressed = false; syscall_arch = Arch.unknown })

pub make-pid :
    (pid : ℕ) (t : Tracee) (k : Kernel) (w w' : World)
    → Tracee.make pid k w ≡ done (t, w')
    → t.pid ≡ pid
unfolding Tracee.make built
make-pid pid t k w w' h =
    let (alive, v, _, h₁) =
      >>=-eq-done (Tracee.is_alive pid)
        (λ alive. (if alive then Tracee.get_regs pid else pure Tracee.zero_regs) >>= built pid) h in
    let (regs, v', _, h₂) =
      >>=-eq-done (if alive then Tracee.get_regs pid else pure Tracee.zero_regs) (built pid) h₁ in
    ground arith

-- The map is right, and the root is the same.
abbrev pub Kept : TraceExecutor → TraceExecutor → Type 0
Kept x x' = Registered x'.tree × (x'.root ≡ x.root)

-- A new thread that is added under a process of the tree keeps the map right.
add_child-Kept :
    (parent child : ℕ) (x : TraceExecutor) (t : ProcessTree)
    → Registered x.tree
    → 0 < occurs parent x.tree.forest
    → add_child parent child x.tree ≡ done t
    → Registered t
add_child-Kept parent child x t r known h =
    let (t', e, r', _) =
      add_child-Registered parent child x.tree r known
        (add_child_absent parent child x.tree t r h) in
    subst Registered (cc) r'

module _ {S : Type 0} (listeners : List (TraceListener S)) (undefined : ℕ → ℕ) where
  after_restart :
      TraceAction → TraceExecutor → ProcessTree → S → M (TraceAction × TraceExecutor × S)
  after_restart action x tree s = pure (action, record x { tree = tree }, s)

  after_post_clone :
      ℕ
      → TraceExecutor
      → ProcessTree
      → (TraceAction × TraceAction) × S
      → M (TraceAction × TraceExecutor × S)
  after_post_clone child x tree ((action, child_action), s) =
      restart_child child child_action >> after_restart action x tree s

  after_add :
      ExecuteEvent
      → Tracee
      → ℕ
      → TraceExecutor
      → S
      → ProcessTree
      → M (TraceAction × TraceExecutor × S)
  after_add event tracee child x s tree = Tracee.make child >>= λ child_tracee.
      post_clone listeners event tracee child TraceAction.continue TraceAction.continue s
      >>= after_post_clone child x tree

  after_add_tree :
      (event : ExecuteEvent) (tracee : Tracee) (child : ℕ) (x x' : TraceExecutor) (s s' : S)
      (a : TraceAction) (t : ProcessTree) (k : Kernel) (w w' : World)
      → after_add event tracee child x s t k w ≡ done ((a, x', s'), w')
      → x' ≡ record x { tree = t }
  unfolding after_add after_post_clone after_restart
  after_add_tree event tracee child x x' s s' a t k w w' h =
      let (ct, v, _, h₁) =
        >>=-eq-done (Tracee.make child)
          (λ child_tracee.
            post_clone listeners event tracee child TraceAction.continue TraceAction.continue s
            >>= after_post_clone child x t)
          h in
      let (((b, c), s₁), v₁, _, h₂) =
        >>=-eq-done
          (post_clone listeners event tracee child TraceAction.continue TraceAction.continue s)
          (after_post_clone child x t) h₁ in
      let (u, v₂, _, h₃) = >>=-eq-done (restart_child child c) (λ u. after_restart b x t s₁) h₂ in
      ground arith

  on_new_thread-Kept :
      (event : ExecuteEvent) (tracee : Tracee) (child : ℕ) (r : Reply) (x x' : TraceExecutor)
      (s s' : S) (a : TraceAction) (k : Kernel) (w w' : World)
      → Registered x.tree
      → 0 < occurs tracee.pid x.tree.forest
      → on_new_thread listeners undefined event tracee child r x s k w ≡ done ((a, x', s'), w')
      → Kept x x'
  unfolding on_new_thread after_add after_post_clone after_restart
  on_new_thread-Kept event tracee child r x x' s s' a k w w' known there h =
      elim (Bool-cases (r.errno == esrch)) [
        | inl gone ↦
            (let same : x ≡ x' = (let e = (rw gone at h) in cc) in
              (subst (λ y. Registered y.tree) same known, ap (λ y. y.root) (sym same)))
        | inr lives ↦
            (let (t, v, added, rest) =
                >>=-eq-done (lift (add_child tracee.pid child x.tree))
                  (after_add event tracee child x s) (rw lives at h) in
              let same = after_add_tree event tracee child x x' s s' a t k v w' rest in
              let kept =
                add_child-Kept tracee.pid child x t known there
                  (lift-done (add_child tracee.pid child x.tree) k w v t added) in
              (subst (λ y. Registered y.tree) (sym same) kept, ap (λ y. y.root) same))
      ]

  pub when_clone-Kept :
      (event : ExecuteEvent) (tracee : Tracee) (x x' : TraceExecutor) (s s' : S) (a : TraceAction)
      (k : Kernel) (w w' : World)
      → Registered x.tree
      → 0 < occurs tracee.pid x.tree.forest
      → when_clone listeners undefined event tracee x s k w ≡ done ((a, x', s'), w')
      → Kept x x'
  unfolding when_clone on_event_clone
  when_clone-Kept event tracee x x' s s' a k w w' known there h =
      elim (Bool-cases (event.signal == clone_stop)) [
        | inr other ↦
            (let same : x ≡ x' = (let e = (rw other at h) in cc) in
              (subst (λ y. Registered y.tree) same known, ap (λ y. y.root) (sym same)))
        | inl clones ↦
            (let (message, v, _, h₁) =
                >>=-eq-done (with_errno_check [] (ptrace_geteventmsg event.pid))
                  (λ message.
                    with_errno_check (esrch ∷ []) (ptrace_setoptions message.value ptrace_options)
                    >>= λ r. on_new_thread listeners undefined event tracee message.value r x s)
                  (rw clones at h) in
              let (r, v₁, _, h₂) =
                >>=-eq-done
                  (with_errno_check (esrch ∷ []) (ptrace_setoptions message.value ptrace_options))
                  (λ r. on_new_thread listeners undefined event tracee message.value r x s) h₁ in
              on_new_thread-Kept event tracee message.value r x x' s s' a k v₁ w' known there h₂)
      ]

  pub when_exec_tree :
      (event : ExecuteEvent) (tracee : Tracee) (x x' : TraceExecutor) (s s' : S) (a : TraceAction)
      (k : Kernel) (w w' : World)
      → when_exec listeners undefined event tracee x s k w ≡ done ((a, x', s'), w')
      → (x'.tree ≡ x.tree) × (x'.root ≡ x.root)
  unfolding when_exec on_event_exec
  when_exec_tree event tracee x x' s s' a k w w' h =
      elim (Bool-cases (not x.has_execved && (event.trapped && event.signal == exec_stop))) [
        | inr other ↦ (let e = (rw other at h) in (cc, cc))
        | inl execs ↦
            (let ((b, s₁), v, _, h₁) =
                >>=-eq-done (post_exec listeners event tracee TraceAction.continue s)
                  (λ r. pure (r.0, record x { has_execved = true }, r.1)) (rw execs at h) in
              (ground arith, ground arith))
      ]

  pub when_clone_other :
      (event : ExecuteEvent) (tracee : Tracee) (x x' : TraceExecutor) (s s' : S) (a : TraceAction)
      (k : Kernel) (w w' : World)
      → when_clone listeners undefined event tracee x s k w ≡ done ((a, x', s'), w')
      → (x'.tree ≡ x.tree) ⊎ ((event.signal == clone_stop) ≡ true)
  unfolding when_clone
  when_clone_other event tracee x x' s s' a k w w' h =
      elim (Bool-cases (event.signal == clone_stop)) [
        | inr other ↦ inl (let e = (rw other at h) in cc)
        | inl clones ↦ inr clones
      ]
