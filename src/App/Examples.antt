-- ===== src/App/Examples.antt =====
-- The theorems on the command line at concrete inputs.
use sio2jail.Common.{
  ◌==◌, ◌||◌, is_digit, read_digits, show, ◌*◌, ◌^◌, ◌≡◌, ◌⊎◌, refl, inl, inr, true, false, codes,
  u64, [], ◌∷◌, ◌++◌, none, some, pos, negsuc, arith,
}
use sio2jail.Stream.{is_empty}
use sio2jail.Printer.Dump.{oitt}
use sio2jail.Namespaces.Mount.{mode_ro, mode_rw, BindMount}
use sio2jail.Limits.Memory
use sio2jail.Limits.Output
use sio2jail.Namespaces.Mount
use sio2jail.Privileges
use sio2jail.Files.Closing
use sio2jail.App.{ok, failed_with}
use sio2jail.App.Arguments.{memory, tolower, assign}
use sio2jail.App.Arguments.Units.{assign-show}
use sio2jail.App.BindMounts.{add_bind_mount}
use sio2jail.App.BindMounts.Print.{add_bind_mount-print}
use sio2jail.App.Features.{feature_number, no_features, text_in, flag_value}
use sio2jail.App.Settings.{
  Arguments, Settings, default_policy, time_zero, early, application_settings,
}
use sio2jail.App.Settings.Run.{Asked, application_settings-run}
use sio2jail.Namespaces.Mount.Calls
use sio2jail.Privileges.Dropped
use sio2jail.System.{World, done, pure, close}
use sio2jail.System.Sample.{sample_kernel, sample_world}
use sio2jail.System.Sequence.{history_after}
use sio2jail.App.Child.{Forked, before_execv}
use sio2jail.App.Child.Setup.{Passed, before_execv_confines}
use sio2jail.App.Utils.Version.{check_kernel_version}
use sio2jail.App.Wiring.{mount_ns, priv, exit_ok, parse_error, fatal_error, main}
use sio2jail.App.Wiring.Exit.{main_bad_command_line}

assign-show_example : assign memory (codes "64M") ≡ ok (u64 (64 * 1024 ^ 2))
unfolding tolower show
assign-show_example =
    assign-show memory 64 (1024 ^ 2) (codes "M") (codes "m") (omega arith) refl
      (inr (inr (inr (inl refl))))

abbrev tmp_mount : BindMount
tmp_mount = record {
  source_path = codes "/tmp/a";
  target_path = codes "/tmp";
  mode = mode_rw;
  dev = true;
}

add_bind_mount-print_example : add_bind_mount (codes "/tmp/a:/tmp:rw,dev") [] ≡ ok (tmp_mount ∷ [])
add_bind_mount-print_example = add_bind_mount-print tmp_mount [] (ground arith) (ground arith)

abbrev sample_arguments : Arguments
sample_arguments = record {
  help_set = false;
  version_set = false;
  failure = none;
  help_text = codes "Usage";
  version_text = codes "1.5.4";
  long_id = λ name. codes "--" ++ name;
  feature_values = λ name. none;
  output_format = oitt;
  policy = default_policy;
  memory_limit = 65536;
  output_limit = 0;
  show_stderr = false;
  results_fd = pos 2;
  instruction_count_limit = some 1000;
  r_time_limit = 0;
  u_time_limit = 0;
  s_time_limit = 0;
  us_time_limit = 0;
  bind_mount_lines = codes "/box:/" ∷ [];
  no_default_binds = false;
  working_dir = [];
  logger_path = [];
  threads_limit = negsuc 0;
  perf_oversampling = 2;
  time_mode = time_zero;
  program_name = codes "/home/a.out";
  program_argv = [];
}

abbrev sample_settings : Settings
sample_settings = elim (application_settings sample_arguments) [
  | ok s ↦ s
  | failed_with e ↦ early sample_arguments no_features
]

application_settings-run_example : Asked sample_arguments sample_settings
unfolding application_settings text_in flag_value
application_settings-run_example =
    application_settings-run sample_arguments sample_settings refl refl

abbrev bad_arguments : Arguments
bad_arguments = record sample_arguments { failure = some (codes "no path") }

main_bad_command_line_example :
    (main (λ s. ok exit_ok) bad_arguments ≡ parse_error)
    ⊎ (main (λ s. ok exit_ok) bad_arguments ≡ fatal_error)
unfolding is_empty
main_bad_command_line_example =
    main_bad_command_line (λ s. ok exit_ok) bad_arguments (codes "no path") refl refl refl refl

-- Only the mount namespace and the dropping of capabilities.
abbrev confined_settings : Settings
confined_settings = early sample_arguments (λ f. feature_number f == 8 || feature_number f == 10)

abbrev forked : Forked
forked = record {
  memory_limit = record {
    memory_peak_kb = 0;
    memory_limit_kb = 0;
    vm_peak_valid = false;
    child_pid = 0;
  };
  output_limit = record { output_limit_b = 0; child_pid = 0 };
  mounts = record {
    new_root = record {
      source_path = codes "/box";
      target_path = codes "/";
      mode = mode_ro;
      dev = false;
    };
    executable_path = codes "/home/a.out";
    bind_mounts = [];
    mount_proc = false;
    bind_executable = true;
  };
  files = record { suppress_stderr = false; fds = []; devnull = 7 };
  files_fuel = 1;
  cap_last_cap = 1;
  since_4_3 = true;
  secure_bits = 0;
  load_filter = pure tt;
}

abbrev confined_world : World
confined_world = record sample_world {
  history =
      close 7
      ∷ history_after (Dropped.calls 1 true 0) (history_after (Calls.calls forked.mounts) []);
}

before_execv_confines_example :
    Passed sample_kernel forked confined_settings sample_world mount_ns (Calls.calls forked.mounts)
    × Passed sample_kernel forked confined_settings sample_world priv (Dropped.calls 1 true 0)
unfolding before_execv Memory.on_post_fork_child Output.on_post_fork_child early
    Mount.on_post_fork_child Privileges.on_post_fork_child Closing.on_post_fork_child
before_execv_confines_example =
    before_execv_confines confined_settings forked (codes "/exe") sample_kernel sample_world
      confined_world refl refl refl

-- A release of two numbers, and one of a single number, the second of which is read all the same.
releases :
    (check_kernel_version 4 3 (some (codes "4.19-rc1")) ≡ done (some true))
    × (check_kernel_version 4 3 (some (codes "4-rc1")) ≡ done none)
unfolding check_kernel_version is_digit read_digits
releases = (refl, refl)
