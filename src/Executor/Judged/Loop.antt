-- ===== src/Executor/Judged/Loop.antt =====
-- A property of the shared state through the supervisor's rounds, from the fork on: it holds until a
-- kill reason is given.
use sio2jail.Common.{
  ℕ, suc, zero, ◌≡◌, inl, inr, refl, Bool, Bool-cases, true, false, ◌==◌, if◌then◌else◌, List, [],
  ◌∷◌, Option, none, some, All, ◌∙◌, ap, arith,
}
use sio2jail.Executor.Event.{ExecuteAction}
use sio2jail.Executor.{
  Listener, Flags, event_of, obey, wait, finish_event, setup_signal_handling, notify_pre_fork,
  notify, notify_sigio, notify_sigalrm, notify_forked, notify_ended, check_signals, on_wait, round,
  loop, after_loop, execute_parent, execute, Returned, in_child, in_parent,
}
use sio2jail.System.{
  Kernel, World, Reply, fork, with_errno_check, M, ◌>>=◌, ◌>>◌, pure, Outcome, done, threw, Syscall,
  SigInfo, with_errno_check_, echild, waitpid_final,
}
use sio2jail.System.Checks.{>>=-eq-done}
use sio2jail.System.Kept.{
  Judged, Judges, bind-Judges, pure-Judges, aside, returned, with_errno_check_-Keeps,
  with_errno_check-Keeps,
}
use sio2jail.Executor.Judged.{
  Faithful, obey-Keeps, finish_event-Keeps, wait-Keeps, setup_signal_handling-Keeps,
  notify_pre_fork-Judges, notify-Judges, notify_sigio-Judges, notify_sigalrm-Judges,
  notify_forked-Judges, notify_ended-Judges,
}

module _ {S : Type 0} (P : S → Type 0) (listeners : List (Listener S))
    (signals : List Syscall → Flags) (support_threads : Bool) (child : ℕ)
    (faithful : All (Faithful P) listeners) where
  -- The part of a step that may ask the listeners.
  when_set-Judges :
      (b : Bool) (m : M (ExecuteAction × S)) (action : ExecuteAction) (s : S)
      → Judges P s m (λ r. r.1)
      → Judges P s (if b then m else pure (action, s)) (λ r. r.1)
  when_set-Judges true m action s p = p
  when_set-Judges false m action s p = pure-Judges P (action, s) (λ r. r.1)

  after_flags : S → Flags → M (ExecuteAction × S)
  after_flags s flags =
      (if flags.sigio
        then notify_sigio listeners ExecuteAction.continue s
        else pure (ExecuteAction.continue, s))
      >>= λ r. if flags.sigalrm then notify_sigalrm listeners r.0 r.1 else pure (r.0, r.1)

  check_signals-Judges :
      (s : S) → Judges P s (check_signals listeners signals support_threads child s) (λ r. r.1)
  unfolding check_signals after_flags
  check_signals-Judges s =
      bind-Judges P s (λ k w. pure (signals w.history) k w) (after_flags s) (λ flags. s) (λ r. r.1)
        (record { judges = λ k w w' b j e. ground (arith, e) })
        (λ flags.
          bind-Judges P s
            (if flags.sigio
              then notify_sigio listeners ExecuteAction.continue s
              else pure (ExecuteAction.continue, s))
            (λ r. if flags.sigalrm then notify_sigalrm listeners r.0 r.1 else pure (r.0, r.1))
            (λ r. r.1) (λ r. r.1)
            (when_set-Judges flags.sigio (notify_sigio listeners ExecuteAction.continue s)
              ExecuteAction.continue s
              (notify_sigio-Judges P listeners ExecuteAction.continue s faithful))
            (λ r.
              when_set-Judges flags.sigalrm (notify_sigalrm listeners r.0 r.1) r.0 r.1
                (notify_sigalrm-Judges P listeners r.0 r.1 faithful)))

  on_wait-Judges :
      (action : ExecuteAction) (s : S) (i : Option SigInfo)
      → Judges P s (on_wait listeners signals support_threads child action s i) (λ r. r.1)
  unfolding on_wait
  on_wait-Judges action s none = pure-Judges P (false, s) (λ r. r.1)
  on_wait-Judges action s (some info) =
      bind-Judges P s (notify listeners (event_of info) action s)
        (λ r. finish_event support_threads child (event_of info) r.0 >>= λ over. pure (over, r.1))
        (λ r. r.1) (λ r. r.1) (notify-Judges P listeners (event_of info) action s faithful)
        (λ r.
          bind-Judges P r.1 (finish_event support_threads child (event_of info) r.0)
            (λ over. pure (over, r.1)) (λ over. r.1) (λ q. q.1)
            (aside P r.1 _ (finish_event-Keeps support_threads child (event_of info) r.0))
            (λ over. pure-Judges P (over, r.1) (λ q. q.1)))

  round-Judges : (s : S) → Judges P s (round listeners signals support_threads child s) (λ r. r.1)
  unfolding round
  round-Judges s =
      bind-Judges P s (check_signals listeners signals support_threads child s)
        (λ r.
          obey child r.0
          >> (wait support_threads child
              >>= on_wait listeners signals support_threads child r.0 r.1))
        (λ r. r.1) (λ r. r.1) (check_signals-Judges s)
        (λ r.
          bind-Judges P r.1 (obey child r.0)
            (λ u.
              wait support_threads child
              >>= on_wait listeners signals support_threads child r.0 r.1)
            (λ u. r.1) (λ q. q.1) (aside P r.1 _ (obey-Keeps child r.0))
            (λ u.
              bind-Judges P r.1 (wait support_threads child)
                (on_wait listeners signals support_threads child r.0 r.1) (λ i. r.1) (λ q. q.1)
                (aside P r.1 _ (wait-Keeps support_threads child)) (on_wait-Judges r.0 r.1)))

  -- Where the fuel is not out.
  abbrev pub Ends : S → M (Option S) → Type 0
  Ends s m =
      (k : Kernel) (s' : S) (w w' : World)
      → Judged P s w.output
      → m k w ≡ done (some s', w')
      → Judged P s' w'.output

  loop_judges : (fuel : ℕ) (s : S) → Ends s (loop listeners signals support_threads child fuel s)
  unfolding loop
  loop_judges zero s k s' w w' j e = ground (arith, e)
  loop_judges (suc n) s k s' w w' j e =
      let ((over, s₁), v, e₁, e₂) =
        >>=-eq-done (round listeners signals support_threads child s)
          (λ r. if r.0 then pure (some r.1) else loop listeners signals support_threads child n r.1)
          e in
      let j₁ = (round-Judges s).judges k w v (over, s₁) j e₁ in
      elim (Bool-cases over) [
        | inl t ↦ returned P s₁ s' v w' k j₁ (rw t at e₂)
        | inr f ↦ loop_judges n s₁ k s' v w' j₁ (rw f at e₂)
      ]

  after_loop_judges :
      (o : Option S) (k : Kernel) (s' : S) (w w' : World)
      → ((s : S) → o ≡ some s → Judged P s w.output)
      → after_loop listeners signals support_threads child o k w ≡ done (some s', w')
      → Judged P s' w'.output
  unfolding after_loop
  after_loop_judges none k s' w w' j e = ground (arith, e)
  after_loop_judges (some s) k s' w w' j e =
      let (s₁, v, e₁, e₂) =
        >>=-eq-done (notify_ended listeners s)
          (λ s₁. with_errno_check_ (echild ∷ []) waitpid_final >> pure (some s₁)) e in
      let j₁ = (notify_ended-Judges P listeners s faithful).judges k w v s₁ (j s refl) e₁ in
      let (u, v₁, e₃, e₄) =
        >>=-eq-done (with_errno_check_ (echild ∷ []) waitpid_final) (λ u. pure (some s₁)) e₂ in
      let j₂ =
        (aside P s₁ _ (with_errno_check_-Keeps (echild ∷ []) waitpid_final)).judges k v v₁ u j₁
          e₃ in
      returned P s₁ s' v₁ w' k j₂ e₄

  -- If the supervisor's part ends, then a property that each callback of the listeners keeps, or
  -- gives a kill reason, holds at the end, or a kill reason is given.
  pub execute_parent_judges :
      (fuel : ℕ) (s : S) → Ends s (execute_parent listeners signals support_threads child fuel s)
  unfolding execute_parent
  execute_parent_judges fuel s k s' w w' j e =
      let (u, v, e₁, e₂) =
        >>=-eq-done setup_signal_handling
          (λ u. notify_forked listeners child s >>= λ s₁.
            loop listeners signals support_threads child fuel s₁
            >>= after_loop listeners signals support_threads child)
          e in
      let j₁ = (aside P s _ setup_signal_handling-Keeps).judges k w v u j e₁ in
      let (s₁, v₁, e₃, e₄) =
        >>=-eq-done (notify_forked listeners child s)
          (λ s₁.
            loop listeners signals support_threads child fuel s₁
            >>= after_loop listeners signals support_threads child)
          e₂ in
      let j₂ = (notify_forked-Judges P listeners child s faithful).judges k v v₁ s₁ j₁ e₃ in
      let (o, v₂, e₅, e₆) =
        >>=-eq-done (loop listeners signals support_threads child fuel s₁)
          (after_loop listeners signals support_threads child) e₄ in
      after_loop_judges o k s' v₂ w'
        (λ s₂ same. loop_judges fuel s₁ k s₂ v₁ v₂ j₂ (e₅ ∙ ap (λ x. done (x, v₂)) same)) e₆

-- The same, from the fork on.
module _ {S : Type 0} (P : S → Type 0) (listeners : List (Listener S))
    (signals : List Syscall → Flags) (support_threads : Bool) (execute_child : S → M (Unit {0}))
    (faithful : All (Faithful P) listeners) where
  supervised : ℕ → S → ℕ → M (Returned S)
  supervised fuel s child =
      execute_parent listeners signals support_threads child fuel s >>= λ ended.
      pure (in_parent ended)

  after_fork : ℕ → S → Reply → M (Returned S)
  after_fork fuel s r =
      if r.value == 0 then (execute_child s >> pure in_child) else supervised fuel s r.value

  of_parent : Outcome (Returned S × World) → Outcome (Option S × World)
  of_parent (done (in_parent o, w)) = done (o, w)
  of_parent (done (in_child, w)) = done (none, w)
  of_parent (threw x) = threw x

  after_fork_judges :
      (fuel : ℕ) (s : S) (r : Reply) (k : Kernel) (s' : S) (w w' : World)
      → Judged P s w.output
      → after_fork fuel s r k w ≡ done (in_parent (some s'), w')
      → Judged P s' w'.output
  unfolding after_fork supervised of_parent
  after_fork_judges fuel s r k s' w w' j e = elim (Bool-cases (r.value == 0)) [
    | inl t ↦
        let (u, v, e₁, e₂) = >>=-eq-done (execute_child s) (λ u. pure in_child) (rw t at e) in
        ground (arith, ap of_parent e₂)
    | inr f ↦
        let (o, v, e₁, e₂) =
          >>=-eq-done (execute_parent listeners signals support_threads r.value fuel s)
            (λ ended. pure (in_parent ended)) (rw f at e) in
        execute_parent_judges P listeners signals support_threads r.value faithful fuel s k s' w w'
          j (e₁ ∙ ap of_parent e₂)
  ]

  pub execute_judges :
      (fuel : ℕ) (s : S) (k : Kernel) (s' : S) (w w' : World)
      → Judged P s w.output
      → execute listeners signals support_threads execute_child fuel s k w
        ≡ done (in_parent (some s'), w')
      → Judged P s' w'.output
  unfolding execute after_fork supervised
  execute_judges fuel s k s' w w' j e =
      let (s₁, v, e₁, e₂) =
        >>=-eq-done (notify_pre_fork listeners s)
          (λ s₁. with_errno_check [] fork >>= after_fork fuel s₁) e in
      let j₁ = (notify_pre_fork-Judges P listeners s faithful).judges k w v s₁ j e₁ in
      let (r, v₁, e₃, e₄) = >>=-eq-done (with_errno_check [] fork) (after_fork fuel s₁) e₂ in
      let j₂ = (aside P s₁ _ (with_errno_check-Keeps [] fork)).judges k v v₁ r j₁ e₃ in
      after_fork_judges fuel s₁ r k s' v₁ w' j₂ e₄
