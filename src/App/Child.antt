-- ===== src/App/Child.antt =====
-- executor/Executor.cc, executeChild, with the listeners that s2japp/Application.cc registers: how the
-- child sets itself up, up to the execution of the program. The loading of the seccomp filter, and
-- what the listeners were made with, are parameters.
pub mod Setup
use sio2jail.Common.{ℕ, Bool, if◌then◌else◌, Text, List, [], ◌∷◌}
use sio2jail.Stream.{is_empty}
use sio2jail.System.{
  M, ◌>>=◌, ◌>>◌, pure, throw, exception, system_exception, invoke, chdir, execv, with_errno_check,
  with_errno_check_,
}
use sio2jail.Limits.Memory
use sio2jail.Limits.Memory.{MemoryLimit}
use sio2jail.Limits.Output
use sio2jail.Limits.Output.{OutputLimit}
use sio2jail.Tracer.TraceExecutor
use sio2jail.Perf.Counter
use sio2jail.Namespaces.Uts
use sio2jail.Namespaces.Ipc
use sio2jail.Namespaces.Net
use sio2jail.Namespaces.Mount
use sio2jail.Namespaces.Mount.{MountNamespace}
use sio2jail.Privileges
use sio2jail.Seccomp.TimeRandomizer
use sio2jail.Files.Closing
use sio2jail.Files.Closing.{FilesListener}
use sio2jail.App.Settings.{Settings}
use sio2jail.App.Wiring.{
  Component, memory_limit, output_limit, trace_executor, perf_counter, uts_ns, ipc_ns, net_ns,
  mount_ns, priv, time_randomizer, files, seccomp_filter, executor_listeners,
}

-- The state of the listeners at the fork.
pub record Forked : Type 0 where
  pub memory_limit : MemoryLimit
  pub output_limit : OutputLimit
  pub mounts : MountNamespace
  pub files : FilesListener
  pub files_fuel : ℕ
  pub cap_last_cap : ℕ
  pub since_4_3 : Bool
  pub secure_bits : ℕ
  pub load_filter : M (Unit {0})

abbrev keep : {A : Type 0} → Text → M A → M Text
keep name m = m >>= λ a. pure name

-- `onPostForkChild` of a listener, with the name of the program, which the mounts change. Nothing is
-- done after a closing of files for which the fuel is not enough.
unfoldable pub post_fork_child : Forked → Component → Text → M Text
post_fork_child f memory_limit name = keep name (Memory.on_post_fork_child f.memory_limit)
post_fork_child f output_limit name = keep name (Output.on_post_fork_child f.output_limit)
post_fork_child f trace_executor name = keep name TraceExecutor.on_post_fork_child
post_fork_child f perf_counter name = keep name Counter.on_post_fork_child
post_fork_child f uts_ns name = keep name Uts.on_post_fork_child
post_fork_child f ipc_ns name = keep name Ipc.on_post_fork_child
post_fork_child f net_ns name = keep name Net.on_post_fork_child
post_fork_child f mount_ns name = Mount.on_post_fork_child f.mounts name
post_fork_child f priv name =
    keep name (Privileges.on_post_fork_child f.cap_last_cap f.since_4_3 f.secure_bits)
post_fork_child f time_randomizer name = keep name TimeRandomizer.on_post_fork_child
post_fork_child f files name = Closing.on_post_fork_child f.files_fuel f.files >>= λ finished.
    if finished then pure name else throw exception
post_fork_child f seccomp_filter name = keep name f.load_filter
post_fork_child f _ name = pure name

unfoldable pub set_up : Forked → List Component → Text → M Text
unfolding post_fork_child
set_up f [] name = pure name
set_up f (c ∷ cs) name = do name' ← post_fork_child f c name; set_up f cs name'

unfoldable pub change_directory : Text → M (Unit {0})
change_directory [] = pure tt
change_directory (c ∷ cs) = with_errno_check_ [] (chdir (c ∷ cs))

-- Everything before the execution: the result is the name of the program.
unfoldable pub before_execv : Settings → Forked → M Text
unfolding set_up executor_listeners change_directory
before_execv s f = do
  name ← set_up f (executor_listeners s) s.program_name
  change_directory s.program_working_dir
  pure name

-- A call of execv that returns is an error.
unfoldable pub execute_child : Settings → Forked → M (Unit {0})
unfolding before_execv with_errno_check
execute_child s f = do
  name ← before_execv s f
  r ← with_errno_check [] (execv name (name ∷ s.program_argv))
  throw (system_exception r.errno)
