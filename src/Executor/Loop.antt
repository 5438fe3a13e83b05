-- ===== src/Executor/Loop.antt =====
-- The supervisor's loop: what it reports when it ends, and the rounds up to its end.
use sio2jail.Common.{
  ℕ, suc, zero, ◌+◌, ◌≡◌, refl, inl, inr, Bool-cases, [], ◌∷◌, Bool, true, false, ◌||◌, ◌==◌,
  if◌then◌else◌, List, Option, none, some, arith,
}
use sio2jail.Executor.Event.{ExecuteEvent, ExecuteAction}
use sio2jail.Executor.{
  Listener, Flags, event_of, obey, wait, report_end, notify, check_signals, finish_event, on_wait,
  round, loop,
}
use sio2jail.Executor.Rounds.{ending}
use sio2jail.System.{
  Kernel, World, M, ◌>>=◌, ◌>>◌, pure, assert_that, with_errno_check_, waitid_clear, echild, done,
  Syscall, SigInfo,
}
use sio2jail.System.Checks.{>>=-eq-done}

-- What ends with false has not returned true.
goes_on :
    (m : M (Unit {0})) (k : Kernel) (w w' : World)
    → (m >> pure false) k w ≡ done (true, w')
    → false ≡ true
goes_on m k w w' e = let (u, v, _, rest) = >>=-eq-done m (λ _. pure false) e in ground arith

finish_event_ends :
    (support_threads : Bool) (child : ℕ) (event : ExecuteEvent) (action : ExecuteAction)
    (k : Kernel) (w w' : World)
    → finish_event support_threads child event action k w ≡ done (true, w')
    → ((event.exited || event.killed) ≡ true)
      × ((event.pid == child) ≡ true)
      × (w' ≡ record w { output = ending event w.output })
unfolding finish_event report_end ending
finish_event_ends support_threads child event action k w w' e =
    elim (Bool-cases (event.exited || event.killed)) [
      | inr e₁ ↦ (let no = goes_on (obey child action) k w w' (rw e₁ at e) in ground arith)
      | inl e₁ ↦ elim (Bool-cases (event.pid == child)) [
        | inl e₂ ↦ ground arith
        | inr e₂ ↦
            (let (u, v, _, r) =
                >>=-eq-done (assert_that support_threads)
                  (λ _.
                    with_errno_check_ (echild ∷ []) (waitid_clear event.pid)
                    >> (obey child action >> pure false))
                  (rw (e₁, e₂) at e) in
              let (u', v', _, r') =
                >>=-eq-done (with_errno_check_ (echild ∷ []) (waitid_clear event.pid))
                  (λ _. obey child action >> pure false) r in
              let no = goes_on (obey child action) k v' w' r' in ground arith)
      ]
    ]

module _ {S : Type 0} (listeners : List (Listener S)) (signals : List Syscall → Flags)
    (support_threads : Bool) (child : ℕ) (k : Kernel) where
  unfoldable pub after_check : ExecuteAction × S → M (Bool × S)
  after_check (action, s) =
      obey child action
      >> (wait support_threads child >>= on_wait listeners signals support_threads child action s)

  unfoldable pub after_notify : SigInfo → ExecuteAction × S → M (Bool × S)
  after_notify info (action, s) =
      finish_event support_threads child (event_of info) action >>= λ ended. pure (ended, s)

  unfoldable pub after_round : ℕ → Bool × S → M (Option S)
  after_round n (ended, s) =
      if ended then pure (some s) else loop listeners signals support_threads child n s

  -- The loop's last wait returned the end of the child; the listeners were asked about it, and then
  -- its status is reported and nothing else is done.
  pub EndReported : S → World → Type 0
  EndReported s' w' =
      (info : SigInfo) × (before : S) × (w₁ w₂ w₃ : World) × (asked action : ExecuteAction) × (wait
          support_threads child k w₁
        ≡ done (some info, w₂))
      × (notify listeners (event_of info) asked before k w₂ ≡ done ((action, s'), w₃))
      × (((event_of info).exited || (event_of info).killed) ≡ true)
      × (((event_of info).pid == child) ≡ true)
      × (w' ≡ record w₃ { output = ending (event_of info) w₃.output })

  on_wait_reports :
      (action : ExecuteAction) (s s' : S) (i : Option SigInfo) (w₀ w w' : World)
      → wait support_threads child k w₀ ≡ done (i, w)
      → on_wait listeners signals support_threads child action s i k w ≡ done ((true, s'), w')
      → EndReported s' w'
  unfolding on_wait after_notify EndReported
  on_wait_reports action s s' none w₀ w w' waited e = ground arith
  on_wait_reports action s s' (some info) w₀ w w' waited e =
      let ((a, s₁), v, heard, rest) =
        >>=-eq-done (notify listeners (event_of info) action s) (after_notify info) e in
      let (ended, v', here, rest') =
        >>=-eq-done (finish_event support_threads child (event_of info) a) (λ b. pure (b, s₁))
          rest in
      let ends : ended ≡ true = ground arith in
      let (over, same, last) =
        finish_event_ends support_threads child (event_of info) a k v w' (ground (arith, here)) in
      (info, s, w₀, w, v, action, a, waited, ground (arith, heard), over, same, last)

  -- A round that ends the loop reports the end of the child.
  round_reports :
      (s s' : S) (w w' : World)
      → round listeners signals support_threads child s k w ≡ done ((true, s'), w')
      → EndReported s' w'
  unfolding round after_check
  round_reports s s' w w' e =
      let ((a, s₁), v, _, e₁) =
        >>=-eq-done (check_signals listeners signals support_threads child s) after_check e in
      let (u, v₁, _, e₂) =
        >>=-eq-done (obey child a)
          (λ _. wait support_threads child >>= on_wait listeners signals support_threads child a s₁)
          e₁ in
      let (i, v₂, waited, e₃) =
        >>=-eq-done (wait support_threads child)
          (on_wait listeners signals support_threads child a s₁) e₂ in
      on_wait_reports a s₁ s' i v₁ v₂ w' waited e₃

  -- If the loop ends, then its last wait returned the end of the child, the listeners were asked
  -- about it, and after that its exit status or signal is reported and nothing else is done.
  pub loop_reports :
      (fuel : ℕ) (s s' : S) (w w' : World)
      → loop listeners signals support_threads child fuel s k w ≡ done (some s', w')
      → EndReported s' w'
  unfolding loop after_round
  loop_reports zero s s' w w' e = ground arith
  loop_reports (suc n) s s' w w' e =
      let (r, v, here, rest) =
        >>=-eq-done (round listeners signals support_threads child s) (after_round n) e in
      go r v here rest λ t. loop_reports n t s' v w'
    where
      go :
          (r : Bool × S) (v : World)
          → round listeners signals support_threads child s k w ≡ done (r, v)
          → after_round n r k v ≡ done (some s', w')
          → ((t : S)
              → loop listeners signals support_threads child n t k v ≡ done (some s', w')
              → EndReported s' w')
          → EndReported s' w'
      go (true, t) v here rest later = round_reports s s' w w' (ground (arith, here))
      go (false, t) v here rest later = later t rest

  -- Rounds that do not end the loop.
  pub data Rounds : ℕ → S → World → S → World → Type 0 where
    start : {s : S} {w : World} → Rounds 0 s w s w
    next :
        {n : ℕ} {s s₁ s' : S} {w w₁ w' : World}
        → round listeners signals support_threads child s k w ≡ done ((false, s₁), w₁)
        → Rounds n s₁ w₁ s' w'
        → Rounds (suc n) s w s' w'

  -- If n rounds do not end the loop and the next one does, then n + 1 units of fuel, or more, finish
  -- the loop with the result of that round.
  pub loop_ends :
      {n : ℕ} {s s₁ s₂ : S} {w w₁ w₂ : World} (extra : ℕ)
      → Rounds n s w s₁ w₁
      → round listeners signals support_threads child s₁ k w₁ ≡ done ((true, s₂), w₂)
      → loop listeners signals support_threads child (suc (n + extra)) s k w ≡ done (some s₂, w₂)
  unfolding loop
  loop_ends extra start e = rw (e, ◌>>=◌) refl
  loop_ends extra (next {n} r rs) e =
      let more : suc n + extra ≡ suc (n + extra) = omega arith in
      rw (r, ◌>>=◌, more) (loop_ends extra rs e)
