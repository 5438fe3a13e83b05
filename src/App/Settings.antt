-- ===== src/App/Settings.antt =====
-- s2japp/ApplicationSettings.cc: the settings that the constructor makes of the command line. What
-- TCLAP's parser leaves in the arguments, and its texts of help and version, are a parameter.
pub mod Run
use sio2jail.Common.{
  ℕ, ◌/◌, Bool, true, false, not, ◌&&◌, ◌||◌, ◌==◌, if◌then◌else◌, Text, codes, List, [], ◌∷◌,
  Option, none, some, ℤ,
}
use sio2jail.Printer.Dump.{Format}
use sio2jail.Namespaces.Mount.{BindMount}
use sio2jail.App.{Failure, arg_exception, invalid_configuration, Result, ok, failed_with, ◌>>=◌}
use sio2jail.App.BindMounts.{add_bind_mount}
use sio2jail.App.Features.{
  FeatureSet, no_features, set_feature, perf, fake_time, feature_by_name, add_features,
}

pub data Action : Type 0 where
  print_help print_version run : Action

pub data TimeMode : Type 0 where
  time_off time_random time_zero : TimeMode

pub data PolicyName : Type 0 where
  default_policy permissive_policy : PolicyName

-- The arguments after the parser: their values, the defaults included, and the message of its
-- failure.
pub record Arguments : Type 0 where
  pub help_set : Bool
  pub version_set : Bool
  pub failure : Option Text
  pub help_text : Text
  pub version_text : Text
  pub long_id : Text → Text
  pub feature_values : Text → Option Text
  pub output_format : Format
  pub policy : PolicyName
  pub memory_limit : ℕ
  pub output_limit : ℕ
  pub show_stderr : Bool
  pub results_fd : ℤ
  pub instruction_count_limit : Option ℕ
  pub r_time_limit : ℕ
  pub u_time_limit : ℕ
  pub s_time_limit : ℕ
  pub us_time_limit : ℕ
  pub bind_mount_lines : List Text
  pub no_default_binds : Bool
  pub working_dir : Text
  pub logger_path : Text
  pub threads_limit : ℤ
  pub perf_oversampling : ℕ
  pub time_mode : TimeMode
  pub program_name : Text
  pub program_argv : List Text

pub record Settings : Type 0 where
  pub action : Action
  pub parsing_error : Text
  pub help_message : Text
  pub version_message : Text
  pub memory_limit_kb : ℕ
  pub output_limit_b : ℕ
  pub instruction_count_limit : ℕ
  pub r_time_limit_us : ℕ
  pub u_time_limit_us : ℕ
  pub s_time_limit_us : ℕ
  pub us_time_limit_us : ℕ
  pub results_fd : ℤ
  pub threads_limit : ℤ
  pub perf_oversampling_factor : ℕ
  pub program_name : Text
  pub program_argv : List Text
  pub program_working_dir : Text
  pub logger_path : Text
  pub output_format : Format
  pub policy : PolicyName
  pub features : FeatureSet
  pub bind_mounts : List BindMount
  pub bind_executable : Bool
  pub suppress_stderr : Bool
  pub time_mode : TimeMode

-- What the program is asked to do: help goes before version, and both before an error.
unfoldable pub action_of : Arguments → Action
action_of a =
    if a.help_set
    then print_help
    else if a.version_set
    then print_version
    else elim a.failure [ some message ↦ print_help | none ↦ run ]

unfoldable pub parsing_error_of : Arguments → Text
parsing_error_of a =
    if a.help_set || a.version_set
    then []
    else elim a.failure [ some message ↦ message | none ↦ [] ]

-- The settings that an exception in the loop over the features leaves, and so before it.
unfoldable pub early : Arguments → FeatureSet → Settings
unfolding action_of parsing_error_of
early a features = record {
  action = action_of a;
  parsing_error = parsing_error_of a;
  help_message = a.help_text;
  version_message = a.version_text;
  memory_limit_kb = a.memory_limit / 1024;
  output_limit_b = a.output_limit;
  instruction_count_limit = 0;
  r_time_limit_us = 0;
  u_time_limit_us = 0;
  s_time_limit_us = 0;
  us_time_limit_us = 0;
  results_fd = ℤ.pos 0;
  threads_limit = ℤ.pos 0;
  perf_oversampling_factor = 0;
  program_name = a.program_name;
  program_argv = a.program_argv;
  program_working_dir = a.working_dir;
  logger_path = a.logger_path;
  output_format = a.output_format;
  policy = a.policy;
  features = features;
  bind_mounts = [];
  bind_executable = false;
  suppress_stderr = false;
  time_mode = time_off;
}

unfoldable pub add_bind_mounts : List Text → List BindMount → Result (List BindMount)
unfolding add_bind_mount
add_bind_mounts [] bind_mounts = ok bind_mounts
add_bind_mounts (line ∷ lines) bind_mounts = do
  more ← add_bind_mount line bind_mounts
  add_bind_mounts lines more

-- An instruction count limit needs the counter.
unfoldable pub check_perf : FeatureSet → Option ℕ → Result ℕ
check_perf features none = ok 0
check_perf features (some limit) =
    if features perf
    then ok limit
    else failed_with (
        invalid_configuration (codes "Instruction count limit can only be used if PERF is enabled"))

unfoldable pub is_fake : TimeMode → Bool
is_fake time_off = false
is_fake _ = true

-- What follows the loop over the features.
unfoldable pub late : Arguments → FeatureSet → Result Settings
unfolding early add_bind_mounts check_perf is_fake set_feature
late a features = do
  bind_mounts ← add_bind_mounts a.bind_mount_lines []
  instruction_count_limit ← check_perf features a.instruction_count_limit
  ok
      (record (early a
        (if is_fake a.time_mode then set_feature fake_time true features else features)) {
          bind_mounts = bind_mounts;
          bind_executable = not a.no_default_binds;
          instruction_count_limit = instruction_count_limit;
          r_time_limit_us = a.r_time_limit;
          u_time_limit_us = a.u_time_limit;
          s_time_limit_us = a.s_time_limit;
          us_time_limit_us = a.us_time_limit;
          suppress_stderr = not a.show_stderr;
          results_fd = a.results_fd;
          threads_limit = a.threads_limit;
          perf_oversampling_factor = a.perf_oversampling;
          time_mode = a.time_mode;
        })

-- The handler of TCLAP's exceptions prints help with the message; other exceptions go on.
unfoldable pub after_features : Arguments → FeatureSet × Option Text → Result Settings
unfolding late early
after_features a (features, none) = late a features
after_features a (features, some message) =
    ok (record (early a features) { action = print_help; parsing_error = message })

unfoldable pub application_settings : Arguments → Result Settings
unfolding after_features add_features
application_settings a =
    after_features a (add_features a.long_id a.feature_values feature_by_name no_features)
