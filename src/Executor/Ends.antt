-- ===== src/Executor/Ends.antt =====
-- The supervisor's loop comes to an end.
use sio2jail.Common.{
  ℕ, suc, zero, ◌+◌, ◌≤◌, ◌<◌, ◌≡◌, ◌⊎◌, inl, inr, refl, ◌∙◌, Bool, true, false, ◌||◌, ◌==◌, List,
  ◌∷◌, Option, none, some, All, arith, dec_lt,
}
use sio2jail.Executor.Event.{ExecuteEvent, ExecuteAction}
use sio2jail.Executor.{
  Listener, Flags, event_of, obey, wait_call, wait, report_end, notify, check_signals, finish_event,
  on_wait, round, loop,
}
use sio2jail.System.{Kernel, World, ◌>>=◌, pure, done, threw, Syscall, SigInfo, Outcome, Exn}
use sio2jail.Executor.Waits.{
  waits, Busy, WaitsNot, bind-Busy, pure-Busy, if-Busy, obey-Busy, finish_event-Busy, notify-Busy,
  notify_sigio-Busy, notify_sigalrm-Busy,
}
use sio2jail.Executor.Loop.{after_check, after_notify}
use sio2jail.System.Checks.{>>=-eq-done}

module _ (k : Kernel) where
  -- The child's end is what a wait returns, at the latest after `n` waits.
  abbrev pub EndsAfter : ℕ → Bool → ℕ → Type 0
  EndsAfter n support_threads child =
      (h : List Syscall)
      → n ≤ waits h
      → ((k.reply h (wait_call support_threads child)).failed ≡ false)
        × (((event_of (k.wait_info (wait_call support_threads child ∷ h))).exited
              || (event_of (k.wait_info (wait_call support_threads child ∷ h))).killed)
            ≡ true)
        × (((event_of (k.wait_info (wait_call support_threads child ∷ h))).pid == child) ≡ true)

  finish_event_over :
      (support_threads : Bool) (child : ℕ) (event : ExecuteEvent) (action : ExecuteAction)
      (w w' : World) (b : Bool)
      → (event.exited || event.killed) ≡ true
      → (event.pid == child) ≡ true
      → finish_event support_threads child event action k w ≡ done (b, w')
      → b ≡ true
  unfolding finish_event
  finish_event_over support_threads child event action w w' b over same e =
      let (u, v, _, rest) =
        >>=-eq-done (report_end event) (λ _. pure true) (rw (over, same) at e) in
      ground arith

  -- What a wait returns, and that it is counted.
  waited :
      (support_threads : Bool) (child : ℕ) (w w' : World) (i : Option SigInfo)
      → wait support_threads child k w ≡ done (i, w')
      → (waits w'.history ≡ suc (waits w.history))
        × ((k.reply w.history (wait_call support_threads child)).failed ≡ false
            → i ≡ some (k.wait_info (wait_call support_threads child ∷ w.history)))
  unfolding wait wait_call
  waited true child w w' i e = (ground arith, λ ok. ground arith)
  waited false child w w' i e = (ground arith, λ ok. ground arith)

module _ {S : Type 0} (listeners : List (Listener S)) (signals : List Syscall → Flags)
    (support_threads : Bool) (child : ℕ) (k : Kernel) where
  -- The loop ends, or an exception ends it.
  abbrev pub Ends : ℕ → S → World → Type 0
  Ends fuel s w =
      ((s' : S) × (w' : World) × (loop listeners signals support_threads child fuel s k w
          ≡ done (some s', w')))
      ⊎ ((e : Exn) × (loop listeners signals support_threads child fuel s k w ≡ threw e))

module _ {S : Type 0} (listeners : List (Listener S)) (signals : List Syscall → Flags)
    (support_threads : Bool) (child n : ℕ) (k : Kernel) (quiet : All (WaitsNot k) listeners)
    (ends : EndsAfter k n support_threads child) where
  ask-Busy : {A : Type 0} (f : List Syscall → A) → Busy k (λ k w. pure (f w.history) k w)
  ask-Busy f = record { same = λ w w' a e. ground arith }

  check_signals-Busy : (s : S) → Busy k (check_signals listeners signals support_threads child s)
  unfolding check_signals
  check_signals-Busy s = bind-Busy k _ _ (ask-Busy signals) λ flags.
      bind-Busy k _ _
        (if-Busy k flags.sigio _ _ (notify_sigio-Busy k listeners ExecuteAction.continue s quiet)
          (pure-Busy k (ExecuteAction.continue, s)))
        λ r.
          if-Busy k flags.sigalrm _ _ (notify_sigalrm-Busy k listeners r.0 r.1 quiet)
            (pure-Busy k r)

  -- What follows a wait makes no further one, and ends the loop at the child's end.
  on_wait-Busy :
      (action : ExecuteAction) (s : S) (i : Option SigInfo)
      → Busy k (on_wait listeners signals support_threads child action s i)
  unfolding on_wait
  on_wait-Busy action s none = pure-Busy k (false, s)
  on_wait-Busy action s (some info) =
      bind-Busy k _ _ (notify-Busy k listeners (event_of info) action s quiet) λ r.
        bind-Busy k _ _ (finish_event-Busy k support_threads child (event_of info) _)
          λ ended. pure-Busy k _

  on_wait_over :
      (action : ExecuteAction) (s s' : S) (info : SigInfo) (b : Bool) (w w' : World)
      → ((event_of info).exited || (event_of info).killed) ≡ true
      → ((event_of info).pid == child) ≡ true
      → on_wait listeners signals support_threads child action s (some info) k w
        ≡ done ((b, s'), w')
      → b ≡ true
  unfolding on_wait after_notify
  on_wait_over action s s' info b w w' over same e =
      let ((a, s₁), v, _, rest) =
        >>=-eq-done (notify listeners (event_of info) action s)
          (after_notify listeners signals support_threads child k info) e in
      let (ended, v', here, rest') =
        >>=-eq-done (finish_event support_threads child (event_of info) a) (λ c. pure (c, s₁))
          rest in
      let ends_here =
        finish_event_over k support_threads child (event_of info) a v v' ended over same here in
      ground arith

  -- A round that does not end the loop has made one wait, and is no later than the n-th.
  round_counts :
      (s s' : S) (w w' : World)
      → round listeners signals support_threads child s k w ≡ done ((false, s'), w')
      → (waits w'.history ≡ suc (waits w.history)) × (waits w.history < n)
  unfolding round after_check
  round_counts s s' w w' e =
      let ((a, s₁), v, checked, e₁) =
        >>=-eq-done (check_signals listeners signals support_threads child s)
          (after_check listeners signals support_threads child k) e in
      let (u, v₁, obeyed, e₂) =
        >>=-eq-done (obey child a)
          (λ _. wait support_threads child >>= on_wait listeners signals support_threads child a s₁)
          e₁ in
      let (i, v₂, here, e₃) =
        >>=-eq-done (wait support_threads child)
          (on_wait listeners signals support_threads child a s₁) e₂ in
      let before : waits v₁.history ≡ waits w.history =
        (obey-Busy k child a).same v v₁ u obeyed
        ∙ (check_signals-Busy s).same w v (a, s₁) checked in
      let (one, answer) = waited k support_threads child v₁ v₂ i here in
      let after = (on_wait-Busy a s₁ i).same v₂ w' (false, s') e₃ in
      (
        omega (arith, before, one, after),
        elim (dec_lt (waits w.history) n) [
          | yes early ↦ early
          | no late ↦
              (let (ok, over, same) = ends v₁.history (omega (arith, before, late)) in
                let ended =
                  on_wait_over a s₁ s' (k.wait_info (wait_call support_threads child ∷ v₁.history))
                    false v₂ w' over same (rw (answer ok) at e₃) in
                ground arith)
        ],
      )

  -- If a wait returns the end of the child, at the latest after n waits, and no listener waits for a
  -- status itself, then the loop ends, or throws what a listener or a call throws, with fuel for one
  -- round more than n, less the waits that were made before.
  pub loop-Ends :
      (fuel : ℕ) (s : S) (w : World)
      → waits w.history ≤ n
      → n < waits w.history + fuel
      → Ends listeners signals support_threads child k fuel s w
  unfolding loop
  loop-Ends zero s w few enough = absurd (omega arith)
  loop-Ends (suc fuel) s w few enough =
      go (round listeners signals support_threads child s k w) refl λ t v. loop-Ends fuel t v
    where
      go :
          (o : Outcome ((Bool × S) × World))
          → round listeners signals support_threads child s k w ≡ o
          → ((t : S) (v : World)
              → waits v.history ≤ n
              → n < waits v.history + fuel
              → Ends listeners signals support_threads child k fuel t v)
          → Ends listeners signals support_threads child k (suc fuel) s w
      go (threw x) e later = inr (x, rw (e, ◌>>=◌) refl)
      go (done ((true, s'), w')) e later = inl (s', w', rw (e, ◌>>=◌) refl)
      go (done ((false, s'), w')) e later =
          let (one, early) = round_counts s s' w w' e in
          elim (later s' w' (omega (arith, one, early)) (omega (arith, one))) [
            | inl (t, v, rest) ↦ inl (t, v, rw (e, ◌>>=◌) rest)
            | inr (x, rest) ↦ inr (x, rw (e, ◌>>=◌) rest)
          ]
