-- ===== src/App/Features.antt =====
-- s2japp/ApplicationSettings.cc and common/Feature.h: the features and the flags that control them.
-- A set of features is its membership test.
pub mod Flags
use sio2jail.Common.{
  ℕ, Bool, true, false, ◌||◌, ◌==◌, if◌then◌else◌, Text, codes, text_eq, List, [], ◌∷◌, ◌++◌,
  Option, none, some,
}

pub data Feature : Type 0 where
  ptrace perf seccomp pid_namespace net_namespace ipc_namespace uts_namespace : Feature
  user_namespace mount_namespace mount_procfs capability_drop fake_time : Feature

-- The value of the enumeration's constant.
abbrev pub feature_number : Feature → ℕ
feature_number ptrace = 0
feature_number perf = 1
feature_number seccomp = 2
feature_number pid_namespace = 3
feature_number net_namespace = 4
feature_number ipc_namespace = 5
feature_number uts_namespace = 6
feature_number user_namespace = 7
feature_number mount_namespace = 8
feature_number mount_procfs = 9
feature_number capability_drop = 10
feature_number fake_time = 11

abbrev pub FeatureSet : Type 0
FeatureSet = Feature → Bool

abbrev pub no_features : FeatureSet
no_features f = false

-- `insert` with true, `erase` with false.
unfoldable pub set_feature : Feature → Bool → FeatureSet → FeatureSet
set_feature f on features g = if feature_number f == feature_number g then on else features g

pub record FeatureFlag : Type 0 where
  pub name : Text
  pub feature : Feature
  pub default : Bool

-- FEATURE_BY_NAME, in the order of the map, that of the names.
abbrev pub feature_by_name : List FeatureFlag
feature_by_name =
    record { name = codes "capability-drop"; feature = capability_drop; default = true }
    ∷ record { name = codes "ipc-namespace"; feature = ipc_namespace; default = true }
    ∷ record { name = codes "mount-namespace"; feature = mount_namespace; default = true }
    ∷ record { name = codes "net-namespace"; feature = net_namespace; default = true }
    ∷ record { name = codes "perf"; feature = perf; default = true }
    ∷ record { name = codes "pid-namespace"; feature = pid_namespace; default = true }
    ∷ record { name = codes "procfs"; feature = mount_procfs; default = false }
    ∷ record { name = codes "ptrace"; feature = ptrace; default = true }
    ∷ record { name = codes "seccomp"; feature = seccomp; default = true }
    ∷ record { name = codes "user-namespace"; feature = user_namespace; default = true }
    ∷ record { name = codes "uts-namespace"; feature = uts_namespace; default = true }
    ∷ []

abbrev pub flags_on : List Text
flags_on = codes "on" ∷ codes "yes" ∷ codes "1" ∷ []

abbrev pub flags_off : List Text
flags_off = codes "off" ∷ codes "no" ∷ codes "0" ∷ []

unfoldable pub text_in : Text → List Text → Bool
unfolding text_eq
text_in t [] = false
text_in t (x ∷ xs) = text_eq x t || text_in t xs

-- The value of a flag: the one of the command line, or the default's word.
unfoldable pub flag_value : (Text → Option Text) → FeatureFlag → Text
flag_value values flag = elim (values flag.name) [
  | some value ↦ value
  | none ↦ if flag.default then codes "on" else codes "off"
]

-- The loop over the flags: the set, and the message for the first bad value. What TCLAP calls an
-- argument in its messages is a parameter.
unfoldable pub add_features :
    (long_id : Text → Text) (values : Text → Option Text)
    → List FeatureFlag
    → FeatureSet
    → FeatureSet × Option Text
add_features long_id values [] features = (features, none)
add_features long_id values (flag ∷ flags) features =
    let value : Text = flag_value values flag in
    let on = add_features long_id values flags (set_feature flag.feature true features) in
    let off = add_features long_id values flags (set_feature flag.feature false features) in
    if text_in value flags_on then on else if text_in value flags_off then off else (
      features,
      some (codes "Bad value '" ++ (value ++ (codes "' for argument " ++ long_id flag.name))),
    )
