-- ===== src/App/Wiring.antt =====
-- s2japp/Application.cc and sio2jail.cc: the exit codes, and which listeners are made and registered,
-- in which order. The run itself, of the settings, is a parameter.
pub mod Exit
use sio2jail.Common.{
  ℕ, zero, suc, ◌*◌, Bool, true, false, if◌then◌else◌, Text, codes, u64, List, [], ◌∷◌, ◌++◌, ℤ,
  pos, negsuc,
}
use sio2jail.Stream.{is_empty}
use sio2jail.App.{Result, ok, failed_with, ◌>>=◌}
use sio2jail.App.Features.{
  Feature, ptrace, perf, seccomp, pid_namespace, net_namespace, ipc_namespace, uts_namespace,
  user_namespace, mount_namespace, capability_drop, fake_time,
}
use sio2jail.App.Settings.{
  Action, print_help, print_version, run, PolicyName, default_policy, Arguments, Settings,
  application_settings,
}

pub data ExitCode : Type 0 where
  exit_ok parse_error fatal_error : ExitCode

-- The text on the standard output, and the exit code.
unfoldable pub handle_help : Settings → Text × ExitCode
unfolding is_empty
handle_help s = if is_empty s.parsing_error then (s.help_message, exit_ok) else (
  codes "Error:\n    " ++ (s.parsing_error ++ (codes "\n\n" ++ s.help_message)),
  parse_error,
)

unfoldable pub handle_version : Settings → Text × ExitCode
handle_version s = (s.version_message, exit_ok)

unfoldable pub main_action : (Settings → Result ExitCode) → Action → Settings → Result ExitCode
unfolding handle_help handle_version
main_action handle_run run s = handle_run s
main_action handle_run print_help s = ok (handle_help s).1
main_action handle_run print_version s = ok (handle_version s).1

-- `Application::main` of the settings.
unfoldable pub application_main : (Settings → Result ExitCode) → Settings → Result ExitCode
unfolding main_action
application_main handle_run s = main_action handle_run s.action s

unfoldable pub exit_of : (Settings → Result ExitCode) → Result Settings → ExitCode
unfolding application_main
exit_of handle_run settings = elim (settings >>= application_main handle_run) [
  | ok code ↦ code
  | failed_with e ↦ fatal_error
]

-- `main`: an exception that leaves the application is fatal.
unfoldable pub main : (Settings → Result ExitCode) → Arguments → ExitCode
unfolding exit_of application_settings
main handle_run a = exit_of handle_run (application_settings a)

-- The listeners that handleRun makes.
pub data Component : Type 0 where
  logger memory_limit output_limit time_limit threads_limit trace_executor perf_counter : Component
  user_ns pid_ns uts_ns ipc_ns net_ns mount_ns priv time_randomizer files seccomp_filter : Component

-- `createListener` makes a listener only where its feature is on; the rest are always made.
unfoldable pub created : Settings → Component → Bool
created s trace_executor = s.features ptrace
created s perf_counter = s.features perf
created s user_ns = s.features user_namespace
created s pid_ns = s.features pid_namespace
created s uts_ns = s.features uts_namespace
created s ipc_ns = s.features ipc_namespace
created s net_ns = s.features net_namespace
created s mount_ns = s.features mount_namespace
created s priv = s.features capability_drop
created s time_randomizer = s.features fake_time
created s seccomp_filter = s.features seccomp
created s _ = true

-- `forEachListener`: the listeners that are there, in order.
unfoldable pub for_each_listener : Settings → List Component → List Component
unfolding created
for_each_listener s [] = []
for_each_listener s (c ∷ cs) =
    let rest = for_each_listener s cs in if created s c then c ∷ rest else rest

-- In the order of their registration.
abbrev pub registered : List Component
registered =
    logger ∷ memory_limit ∷ output_limit ∷ time_limit ∷ threads_limit ∷ trace_executor
    ∷ perf_counter ∷ user_ns ∷ pid_ns ∷ uts_ns ∷ ipc_ns ∷ net_ns ∷ mount_ns ∷ priv ∷ time_randomizer
    ∷ files ∷ seccomp_filter ∷ []

unfoldable pub executor_listeners : Settings → List Component
unfolding for_each_listener
executor_listeners s = for_each_listener s registered

unfoldable pub trace_listeners : Settings → List Component
unfolding for_each_listener
trace_listeners s =
    if created s trace_executor
    then for_each_listener s
        (logger ∷ memory_limit ∷ threads_limit ∷ time_randomizer ∷ seccomp_filter ∷ [])
    else []

unfoldable pub extra_policies : Settings → List Component
unfolding for_each_listener
extra_policies s =
    if created s seccomp_filter then for_each_listener s (memory_limit ∷ threads_limit ∷ []) else []

-- The factor for the counter's samples.
unfoldable pub perf_sampling_factor : ℤ → ℕ → ℕ
perf_sampling_factor (pos (suc n)) oversampling = u64 (oversampling * suc n)
perf_sampling_factor _ oversampling = oversampling

-- The policy, and whether it is the one that fakes the time.
unfoldable pub seccomp_policy : Settings → PolicyName × Bool
seccomp_policy s = if s.features fake_time then (default_policy, true) else (s.policy, false)
