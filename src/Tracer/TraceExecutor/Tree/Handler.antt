-- ===== src/Tracer/TraceExecutor/Tree/Handler.antt =====
-- The whole handler, from its parts.
use sio2jail.Common.{
  ℕ, ◌≡◌, ◌⊎◌, ◌<◌, inl, inr, refl, Bool, Bool-cases, true, false, ◌||◌, ◌==◌, ltb, if◌then◌else◌,
  List, ap, ◌∙◌, Option, none, some, subst, sym, arith,
}
use sio2jail.Executor.Event.{ExecuteEvent, ExecuteAction}
use sio2jail.System.{Kernel, World, M, Outcome, done, ◌>>=◌, ◌>>◌, pure}
use sio2jail.System.Checks.{>>=-eq-done}
use sio2jail.Tracer.Action.{TraceAction, max}
use sio2jail.Tracer.ProcessTree.{ProcessTree, get_parent, del_child}
use sio2jail.Tracer.ProcessTree.Registered.{Registered, occurs, get_process_lem}
use sio2jail.Tracer.ProcessTree.Owner.{get_parent_absent, del_child_of_parent}
use sio2jail.Tracer.Tracee
use sio2jail.Tracer.Tracee.{Tracee}
use sio2jail.Tracer.Signals.{handle_tracee_signal}
use sio2jail.Tracer.TraceExecutor.{
  TraceExecutor, TraceListener, clone_stop, delay, forget, execute_action, continue_tracee,
  trace_event, when_exec, when_clone, on_stop, on_known, on_execute_event,
}
use sio2jail.Tracer.TraceExecutor.Tree.{
  Kept, lift-done, make-pid, when_clone-Kept, when_exec_tree, when_clone_other,
}

same_state :
    {S : Type 0} (a a' : ExecuteAction) (x x' : TraceExecutor) (s s' : S) (w w' : World)
    → ◌≡◌ {A = Outcome ((ExecuteAction × TraceExecutor × S) × World)}
        (done ((a, x, s), w))
        (done ((a', x', s'), w'))
    → x' ≡ x
same_state a a' x x' s s' w w' h = cc

-- An end was handled, or is none: the process has no parent afterwards.
abbrev pub Ended : ExecuteEvent → ProcessTree → Type 0
Ended event t = ((event.exited || event.killed) ≡ false) ⊎ (get_parent event.pid t ≡ none)

-- What the handler keeps: the map is right, the root is the same, the tree changes only at a stop
-- at clone and at an end, and an ended process has no parent.
abbrev pub Handled : ExecuteEvent → TraceExecutor → TraceExecutor → Type 0
Handled event x x' =
    Kept x x'
    × ((x'.tree ≡ x.tree)
        ⊎ ((event.signal == clone_stop) ≡ true)
        ⊎ ((event.exited || event.killed) ≡ true))
    × Ended event x'.tree

module _ {S : Type 0} (listeners : List (TraceListener S)) (undefined : ℕ → ℕ) where
  after_signal :
      Tracee
      → TraceAction
      → TraceExecutor
      → S
      → TraceAction × ℕ
      → M (ExecuteAction × TraceExecutor × S)
  after_signal tracee action x s (signal_action, injected) =
      continue_tracee x.root tracee.pid (max action signal_action) injected
      >> pure (execute_action (max action signal_action), x, s)

  after_alive :
      ExecuteEvent
      → Tracee
      → TraceAction
      → Tracee
      → TraceExecutor
      → S
      → Bool
      → M (ExecuteAction × TraceExecutor × S)
  after_alive event tracee action tracee' x s alive =
      if alive
      then handle_tracee_signal undefined event tracee' >>= after_signal tracee action x s
      else pure (execute_action action, x, s)

  after_trace :
      ExecuteEvent
      → Tracee
      → TraceExecutor
      → TraceAction × Tracee × S
      → M (ExecuteAction × TraceExecutor × S)
  after_trace event tracee x (action, tracee', s) =
      Tracee.is_alive tracee.pid >>= after_alive event tracee action tracee' x s

  on_stop_state :
      (event : ExecuteEvent) (tracee : Tracee) (before : TraceAction) (x x' : TraceExecutor)
      (s s' : S) (a : ExecuteAction) (k : Kernel) (w w' : World)
      → on_stop listeners undefined event tracee before x s k w ≡ done ((a, x', s'), w')
      → x' ≡ x
  unfolding on_stop after_trace after_alive after_signal
  on_stop_state event tracee before x x' s s' a k w w' h =
      let ((b, tracee', s₁), v, _, h₁) =
        >>=-eq-done (trace_event listeners event tracee before s) (after_trace event tracee x) h in
      let (alive, v₁, _, h₂) =
        >>=-eq-done (Tracee.is_alive tracee.pid) (after_alive event tracee b tracee' x s₁) h₁ in
      elim (Bool-cases alive) [
        | inr dead ↦ same_state (execute_action b) a x x' s₁ s' v₁ w' (rw dead at h₂)
        | inl lives ↦
            (let ((c, injected), v₂, _, h₃) =
                >>=-eq-done (handle_tracee_signal undefined event tracee')
                  (after_signal tracee b x s₁) (rw lives at h₂) in
              let (u, v₃, _, h₄) =
                >>=-eq-done (continue_tracee x.root tracee.pid (max b c) injected)
                  (λ u. pure (execute_action (max b c), x, s₁)) h₃ in
              same_state (execute_action (max b c)) a x x' s₁ s' v₃ w' h₄)
      ]

  forget-Kept :
      (pid : ℕ) (t t' : ProcessTree) (k : Kernel) (w w' : World)
      → Registered t
      → forget pid (get_parent pid t) t k w ≡ done (t', w')
      → Registered t' × (get_parent pid t' ≡ none)
  unfolding forget
  forget-Kept pid t t' k w w' known h = go (get_parent pid t) refl h
    where
      go :
          (o : Option ℕ)
          → get_parent pid t ≡ o
          → forget pid o t k w ≡ done (t', w')
          → Registered t' × (get_parent pid t' ≡ none)
      go none e g = (let same : t ≡ t' = cc in (subst Registered same known, rw (← same) e))
      go (some p) e g =
          (let (u, made, kept, gone) = del_child_of_parent p pid t known e in
            let same : u ≡ t' = (let d = lift-done (del_child p pid t) k w w' t' g in cc) in
            (subst Registered same kept, subst (λ v. get_parent pid v ≡ none) same gone))

  after_clone :
      ExecuteEvent
      → Tracee
      → TraceAction
      → TraceAction × TraceExecutor × S
      → M (ExecuteAction × TraceExecutor × S)
  after_clone event tracee exec_action (clone_action, x, s) =
      if event.exited || event.killed
      then (forget event.pid (get_parent event.pid x.tree) x.tree >>= λ tree.
          pure (ExecuteAction.continue, record x { tree = tree }, s))
      else on_stop listeners undefined event tracee (max exec_action clone_action) x s

  after_clone_state :
      (event : ExecuteEvent) (tracee : Tracee) (b c : TraceAction) (x x' : TraceExecutor) (s s' : S)
      (a : ExecuteAction) (k : Kernel) (w w' : World)
      → Registered x.tree
      → after_clone event tracee b (c, x, s) k w ≡ done ((a, x', s'), w')
      → Kept x x'
        × ((x'.tree ≡ x.tree) ⊎ ((event.exited || event.killed) ≡ true))
        × Ended event x'.tree
  unfolding after_clone
  after_clone_state event tracee b c x x' s s' a k w w' known h =
      elim (Bool-cases (event.exited || event.killed)) [
        | inr stops ↦
            (let same = on_stop_state event tracee (max b c) x x' s s' a k w w' (rw stops at h) in
              (
                (subst (λ y. Registered y.tree) (sym same) known, ap (λ y. y.root) same),
                inl (ap (λ y. y.tree) same),
                inl stops,
              ))
        | inl ends ↦
            (let (t, v, forgot, rest) =
                >>=-eq-done (forget event.pid (get_parent event.pid x.tree) x.tree)
                  (λ tree. pure (ExecuteAction.continue, record x { tree = tree }, s))
                  (rw ends at h) in
              let (kept, orphan) = forget-Kept event.pid x.tree t k w v known forgot in
              let same =
                same_state ExecuteAction.continue a (record x { tree = t }) x' s s' v w' rest in
              (
                (subst (λ y. Registered y.tree) (sym same) kept, ap (λ y. y.root) same),
                inr ends,
                inr (subst (λ y. get_parent event.pid y.tree ≡ none) (sym same) orphan),
              ))
      ]

  after_exec :
      ExecuteEvent
      → Tracee
      → TraceAction × TraceExecutor × S
      → M (ExecuteAction × TraceExecutor × S)
  after_exec event tracee (exec_action, x, s) =
      when_clone listeners undefined event tracee x s >>= after_clone event tracee exec_action

  after_make : ExecuteEvent → TraceExecutor → S → Tracee → M (ExecuteAction × TraceExecutor × S)
  after_make event x s tracee =
      when_exec listeners undefined event tracee x s >>= after_exec event tracee

  on_known-Handled :
      (event : ExecuteEvent) (x x' : TraceExecutor) (s s' : S) (a : ExecuteAction) (k : Kernel)
      (w w' : World)
      → Registered x.tree
      → 0 < occurs event.pid x.tree.forest
      → on_known listeners undefined event x s k w ≡ done ((a, x', s'), w')
      → Handled event x x'
  unfolding on_known after_make after_exec after_clone
  on_known-Handled event x x' s s' a k w w' known there h =
      let (tracee, v, made, h₁) = >>=-eq-done (Tracee.make event.pid) (after_make event x s) h in
      let ((b, x₁, s₁), v₁, execs, h₂) =
        >>=-eq-done (when_exec listeners undefined event tracee x s) (after_exec event tracee) h₁ in
      let ((c, x₂, s₂), v₂, clones, h₃) =
        >>=-eq-done (when_clone listeners undefined event tracee x₁ s₁) (after_clone event tracee b)
          h₂ in
      let pid = make-pid event.pid tracee k w v made in
      let (tree₁, root₁) =
        when_exec_tree listeners undefined event tracee x x₁ s s₁ b k v v₁ execs in
      let known₁ : Registered x₁.tree = subst Registered (sym tree₁) known in
      let there₁ : 0 < occurs tracee.pid x₁.tree.forest = rw (pid, tree₁) there in
      let (known₂, root₂) =
        when_clone-Kept listeners undefined event tracee x₁ x₂ s₁ s₂ c k v₁ v₂ known₁ there₁
          clones in
      let other = when_clone_other listeners undefined event tracee x₁ x₂ s₁ s₂ c k v₁ v₂ clones in
      let ((known₃, root₃), change, orphan) =
        after_clone_state event tracee b c x₂ x' s₂ s' a k v₂ w' known₂ h₃ in
      ((known₃, root₃ ∙ (root₂ ∙ root₁)), changes tree₁ other change, orphan)
    where
      changes :
          {C E : Type 0} {t t₁ t₂ t₃ : ProcessTree}
          → t₁ ≡ t
          → (t₂ ≡ t₁) ⊎ C
          → (t₃ ≡ t₂) ⊎ E
          → (t₃ ≡ t) ⊎ C ⊎ E
      changes p (inl q) (inl r) = inl (r ∙ (q ∙ p))
      changes p (inr c) _ = inr (inl c)
      changes p _ (inr e) = inr (inr e)

  -- Whatever the kernel answers and the listeners do, if the tracer's handler returns, then the
  -- shared map is right still and the root is the same; the tree changes only at a stop at clone and
  -- at an end; and a process whose end was handled has no parent afterwards.
  pub on_execute_event-Registered :
      (event : ExecuteEvent) (x x' : TraceExecutor) (s s' : S) (a : ExecuteAction) (k : Kernel)
      (w w' : World)
      → Registered x.tree
      → on_execute_event listeners undefined event x s k w ≡ done ((a, x', s'), w')
      → Handled event x x'
  unfolding on_execute_event
  on_execute_event-Registered event x x' s s' a k w w' known h =
      let found = get_process_lem event.pid x.tree known in
      elim (Bool-cases (ltb 0 (occurs event.pid x.tree.forest))) [
        | inl there ↦
            on_known-Handled event x x' s s' a k w w' known (ground arith) (rw (found, there) at h)
        | inr absent ↦
            (let (u, v, _, rest) =
                >>=-eq-done (delay event.pid) (λ u. pure (ExecuteAction.continue, x, s))
                  (rw (found, absent) at h) in
              let same = same_state ExecuteAction.continue a x x' s s' v w' rest in
              let orphan = get_parent_absent event.pid x.tree (ground arith) in
              (
                (subst (λ y. Registered y.tree) (sym same) known, ap (λ y. y.root) same),
                inl (ap (λ y. y.tree) same),
                inr (subst (λ y. get_parent event.pid y.tree ≡ none) (sym same) orphan),
              ))
      ]
