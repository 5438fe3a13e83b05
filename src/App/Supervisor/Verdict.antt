-- ===== src/App/Supervisor/Verdict.antt =====
-- What the result of a run says of the two limits.
use sio2jail.Common.{
  ℕ, ◌≡◌, refl, ap, ◌∙◌, Bool, true, false, if◌then◌else◌, List, [], Option, none, some, ℤ, pos,
  negsuc, ◌≤◌, ◌⊎◌, inl, inr, arith,
}
use sio2jail.Executor.{Returned, in_child, in_parent, execute}
use sio2jail.Executor.Judged.Loop.{execute_judges}
use sio2jail.Files.Descriptor.{descriptor, good, write_loop}
use sio2jail.Limits.Memory
use sio2jail.Limits.Threads
use sio2jail.Limits.Threads.Judged.{Bounded}
use sio2jail.Namespaces.Mount.{MountNamespace}
use sio2jail.Printer.{KillReason, OiModel}
use sio2jail.Printer.Dump.{dump}
use sio2jail.Privileges
use sio2jail.Seccomp.Context.{SeccompRule}
use sio2jail.Seccomp.Listener.Judged.{FaithfulSets}
use sio2jail.System.{Kernel, World, M, ◌>>=◌, pure, done}
use sio2jail.System.Checks.{>>=-eq-done}
use sio2jail.System.Kept.{Keeps, Judged, aside, returned}
use sio2jail.App.Features.{capability_drop, mount_namespace}
use sio2jail.App.Child.{execute_child}
use sio2jail.App.Settings.{Settings}
use sio2jail.App.Supervisor.{Environment, Supervisor, make, policy_sets}
use sio2jail.App.Supervisor.Kept.{write_loop-Keeps}
use sio2jail.App.Supervisor.Listeners.{listeners}
use sio2jail.App.Supervisor.Policy.{Held}
use sio2jail.App.Supervisor.Policy.Sets.{policy_sets-Faithful}
use sio2jail.App.Supervisor.Faithful.{listeners-Faithful}
use sio2jail.App.Supervisor.Run.{
  optional, make_mounts, no_mounts, forked_of, support_threads, check_results, collected,
  write_result, handle_run,
}

collected-Keeps : Keeps collected
unfolding collected
collected-Keeps = record { keeps = λ k w w' a h e. ground (arith, e) }

none_counted : (limit : ℤ) → Bounded limit []
none_counted (pos n) = omega arith
none_counted (negsuc n) = refl

make-Held :
    (env : Environment) (s : Settings) (bits : ℕ)
    → Held s.memory_limit_kb s.threads_limit (make env s bits)
unfolding make Memory.make Threads.make
make-Held env s bits = ((refl, inr (omega arith)), (refl, none_counted s.threads_limit))

module _ (env : Environment) (settings : Settings) where
  abbrev Kept : Supervisor → OiModel → Type 0
  Kept s o = Judged (Held settings.memory_limit_kb settings.threads_limit) s o

  -- The result, where it was written as a whole.
  answer : Supervisor → Bool → M (Option Supervisor)
  answer s whole = pure (if whole then some s else none)

  answered :
      (s₁ s : Supervisor) (whole : Bool) (k : Kernel) (w w' : World)
      → Kept s₁ w.output
      → answer s₁ whole k w ≡ done (some s, w')
      → Kept s w'.output
  unfolding answer
  answered s₁ s true k w w' j e =
      returned (Held settings.memory_limit_kb settings.threads_limit) s₁ s w w' k j e
  answered s₁ s false k w w' j e = ground (arith, e)

  write_dump : ℕ → Supervisor → OiModel → M (Option Supervisor)
  write_dump results s o =
      write_loop env.fuel results true (dump env.show_seconds settings.output_format o) >>= answer s

  written :
      (results : ℕ) (r : Returned Supervisor) (s : Supervisor) (k : Kernel) (w w' : World)
      → ((s₁ : Supervisor) → r ≡ in_parent (some s₁) → Kept s₁ w.output)
      → write_result env settings results r k w ≡ done (some s, w')
      → Kept s w'.output
  unfolding write_result write_dump answer
  written results in_child s k w w' h e = ground (arith, e)
  written results (in_parent none) s k w w' h e = ground (arith, e)
  written results (in_parent (some s₁)) s k w w' h e =
      let text = λ (o : OiModel). dump env.show_seconds settings.output_format o in
      let (o, v, e₁, e₂) = >>=-eq-done collected (write_dump results s₁) e in
      let (whole, v₁, e₃, e₄) =
        >>=-eq-done (write_loop env.fuel results true (text o)) (answer s₁) e₂ in
      let keep = Held settings.memory_limit_kb settings.threads_limit in
      let j₁ = (aside keep s₁ _ collected-Keeps).judges k w v o (h s₁ refl) e₁ in
      let j₂ =
        (aside keep s₁ _ (write_loop-Keeps env.fuel results true (text o))).judges k v v₁ whole j₁
          e₃ in
      answered s₁ s whole k v₁ w' j₂ e₄

  -- The parts of `handle_run` from its end.
  module _ (mounts : MountNamespace) (bits : ℕ) (sets : List (List (SeccompRule Supervisor)))
      (results : ℕ) where
    executed : M (Returned Supervisor)
    executed =
        execute (listeners env settings sets) env.signals (support_threads settings.threads_limit)
          (λ s. execute_child settings (forked_of env mounts s)) env.fuel (make env settings bits)

    started : Unit {0} → M (Option Supervisor)
    started u = executed >>= write_result env settings results

    checked : Bool → M (Option Supervisor)
    checked fd_good = check_results fd_good >>= started

    with_results : M (Option Supervisor)
    with_results = good results >>= checked

    kept_at_end :
        (s : Supervisor) (k : Kernel) (w w' : World)
        → FaithfulSets (Held settings.memory_limit_kb settings.threads_limit) sets
        → with_results k w ≡ done (some s, w')
        → Kept s w'.output
    unfolding with_results checked started executed
    kept_at_end s k w w' h e =
        let (fd_good, v₁, e₁, e₂) = >>=-eq-done (good results) checked e in
        let (u, v₂, e₃, e₄) = >>=-eq-done (check_results fd_good) started e₂ in
        let (r, v₃, e₅, e₆) = >>=-eq-done executed (write_result env settings results) e₄ in
        written results r s k v₃ w'
          (λ s₁ same.
            execute_judges (Held settings.memory_limit_kb settings.threads_limit)
              (listeners env settings sets) env.signals (support_threads settings.threads_limit)
              (λ s. execute_child settings (forked_of env mounts s))
              (listeners-Faithful settings.memory_limit_kb settings.threads_limit env settings sets
                h)
              env.fuel (make env settings bits) k s₁ v₂ v₃ (inr (make-Held env settings bits))
              (e₅ ∙ ap (λ x. done (x, v₃)) same))
          e₆

  with_sets : MountNamespace → ℕ → List (List (SeccompRule Supervisor)) → M (Option Supervisor)
  with_sets mounts bits sets =
      descriptor settings.results_fd >>= λ results. with_results mounts bits sets results

  with_bits : MountNamespace → ℕ → M (Option Supervisor)
  with_bits mounts bits = policy_sets env settings >>= with_sets mounts bits

  with_mounts : MountNamespace → M (Option Supervisor)
  with_mounts mounts = optional settings capability_drop 0 Privileges.make >>= with_bits mounts

  -- If a run ends and its result is written without a kill reason, then every size and peak of
  -- memory that the supervisor has measured is within the limit, if there is one, and the threads
  -- that it counts are within their limit, none where the limit is negative.
  pub handle_run_verdict :
      (s : Supervisor) (k : Kernel) (w w' : World)
      → handle_run env settings k w ≡ done (some s, w')
      → w'.output.kill_reason ≡ KillReason.none
      → ((settings.memory_limit_kb ≡ 0) ⊎ (s.memory.memory_peak_kb ≤ settings.memory_limit_kb))
        × Bounded settings.threads_limit s.threads.threads_pids
  unfolding handle_run with_mounts with_bits with_sets with_results checked started executed
  handle_run_verdict s k w w' e no_reason =
      let (mounts, v₁, e₁, e₂) =
        >>=-eq-done (optional settings mount_namespace no_mounts (make_mounts settings)) with_mounts
          e in
      let (bits, v₂, e₃, e₄) =
        >>=-eq-done (optional settings capability_drop 0 Privileges.make) (with_bits mounts) e₂ in
      let (sets, v₃, e₅, e₆) = >>=-eq-done (policy_sets env settings) (with_sets mounts bits) e₄ in
      let (results, v₄, e₇, e₈) =
        >>=-eq-done (descriptor settings.results_fd) (with_results mounts bits sets) e₆ in
      let h =
        policy_sets-Faithful settings.memory_limit_kb settings.threads_limit env settings sets k v₂
          v₃ e₅ in
      elim (kept_at_end mounts bits sets results s k v₄ w' h e₈) [
        | inl given ↦ absurd (given no_reason)
        | inr held ↦ (held.0.1, held.1.1)
      ]
