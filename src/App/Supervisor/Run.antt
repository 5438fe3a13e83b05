-- ===== src/App/Supervisor/Run.antt =====
-- s2japp/Application.cc, handleRun: the run of the program and the writing of its result.
use sio2jail.Common.{ℕ, Bool, true, false, if◌then◌else◌, [], Option, none, some, ℤ, pos, negsuc}
use sio2jail.Executor.{Returned, in_child, in_parent, execute}
use sio2jail.Files.Descriptor.{descriptor, good, write_loop}
use sio2jail.Namespaces.Mount.{MountNamespace, BindMount, mode_ro, new_executable_path}
use sio2jail.Namespaces.Mount
use sio2jail.ProcFs.{lift}
use sio2jail.Printer.{OiModel}
use sio2jail.Printer.Dump.{dump}
use sio2jail.Privileges
use sio2jail.Seccomp.Context.Builder.{load_filter}
use sio2jail.System.{M, ◌>>=◌, ◌>>◌, pure, throw, exception}
use sio2jail.App.Features.{Feature, capability_drop, mount_namespace, mount_procfs}
use sio2jail.App.Child.{Forked, execute_child}
use sio2jail.App.Settings.{Settings}
use sio2jail.App.Supervisor.{Environment, Supervisor, make, policy_sets}
use sio2jail.App.Supervisor.Listeners.{listeners}

unfoldable pub make_mounts : Settings → M MountNamespace
unfolding Mount.make lift
make_mounts s =
    lift (Mount.make s.bind_mounts s.bind_executable s.program_name (s.features mount_procfs))

-- Nothing is mounted without the listener: what stands for its state then is not used.
abbrev pub no_mounts : MountNamespace
no_mounts = record {
  new_root = record { source_path = []; target_path = []; mode = mode_ro; dev = false };
  executable_path = [];
  bind_mounts = [];
  mount_proc = false;
  bind_executable = false;
}

unfoldable pub optional : {A : Type 0} → Settings → Feature → A → M A → M A
optional s f otherwise m = if s.features f then m else pure otherwise

-- What the listeners hold in the child, which is a copy of what they hold at the fork.
unfoldable pub forked_of : Environment → MountNamespace → Supervisor → Forked
unfolding load_filter
forked_of env mounts s = record {
  memory_limit = s.memory;
  output_limit = s.output;
  mounts = mounts;
  files = s.files;
  files_fuel = env.fuel;
  cap_last_cap = env.cap_last_cap;
  since_4_3 = env.since_4_3;
  secure_bits = s.secure_bits;
  load_filter = load_filter s.context;
}

unfoldable pub support_threads : ℤ → Bool
support_threads (pos n) = true
support_threads (negsuc n) = false

unfoldable pub check_results : Bool → M (Unit {0})
check_results fd_good = if fd_good then pure tt else throw exception

-- What the builder holds when it is asked.
unfoldable pub collected : M OiModel
collected k w = pure w.output k w

module _ (env : Environment) (settings : Settings) (results : ℕ) where
  -- The result is written, if the fuel is enough; a child that returns has thrown.
  unfoldable pub write_result : Returned Supervisor → M (Option Supervisor)
  unfolding write_loop collected dump
  write_result in_child = pure none
  write_result (in_parent none) = pure none
  write_result (in_parent (some s)) = do
    o ← collected
    whole ← write_loop env.fuel results true (dump env.show_seconds settings.output_format o)
    pure (if whole then some s else none)

-- The supervisor at the end; `none` where the fuel was out.
unfoldable pub handle_run : Environment → Settings → M (Option Supervisor)
unfolding optional make_mounts make policy_sets check_results descriptor good listeners execute
    execute_child forked_of support_threads write_result Privileges.make
handle_run env settings = do
  mounts ← optional settings mount_namespace no_mounts (make_mounts settings)
  secure_bits ← optional settings capability_drop 0 Privileges.make
  sets ← policy_sets env settings
  results ← descriptor settings.results_fd
  fd_good ← good results
  check_results fd_good
  returned ←
      execute (listeners env settings sets) env.signals (support_threads settings.threads_limit)
        (λ s. execute_child settings (forked_of env mounts s)) env.fuel
        (make env settings secure_bits)
  write_result env settings results returned
