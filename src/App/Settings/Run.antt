-- ===== src/App/Settings/Run.antt =====
-- When the settings ask for a run.
use sio2jail.Common.{
  ℕ, ◌≡◌, ◌≢◌, refl, sym, ap, ◌∙◌, true, false, Text, Option, none, some, In, inl, inr, arith,
  Bool-cases, [], if◌then◌else◌, ≢→==, All-In,
}
use sio2jail.App.{Result, ok, >>=-eq-ok}
use sio2jail.App.Features.{
  FeatureSet, no_features, feature_number, set_feature, fake_time, perf, FeatureFlag,
  feature_by_name, add_features,
}
use sio2jail.App.Features.Flags.{Fresh, Distinct, Controls, untouched, add_features_lem}
use sio2jail.App.Settings.{
  Arguments, Settings, print_help, run, is_fake, action_of, parsing_error_of, early,
  add_bind_mounts, check_perf, late, after_features, application_settings,
}

-- Neither help nor version was asked for, the parser met no error, each flag has a word for on or
-- off and controls its feature, the time is faked exactly in the modes for it, and a limit of
-- instructions comes with the counter.
abbrev pub Asked : Arguments → Settings → Type 0
Asked a s =
    ((a.help_set ≡ false)
      × (a.version_set ≡ false)
      × (a.failure ≡ none)
      × ((flag : FeatureFlag) → In flag feature_by_name → Controls a.feature_values s.features flag)
      × (s.features fake_time ≡ is_fake a.time_mode)
      × ((limit : ℕ) → a.instruction_count_limit ≡ some limit → s.features perf ≡ true))

action_of-run :
    (a : Arguments)
    → action_of a ≡ run
    → (a.help_set ≡ false) × (a.version_set ≡ false) × (a.failure ≡ none)
unfolding action_of
action_of-run a h = ground arith

feature_by_name-Distinct : Distinct feature_by_name
feature_by_name-Distinct = ground arith

feature_by_name-Fresh : Fresh fake_time feature_by_name
feature_by_name-Fresh = ground arith

-- The set with the time's feature, if the time is faked.
pub final : Arguments → FeatureSet → FeatureSet
final a features = if is_fake a.time_mode then set_feature fake_time true features else features

final_other :
    (a : Arguments) (features : FeatureSet) (flag : FeatureFlag)
    → In flag feature_by_name
    → final a features flag.feature ≡ features flag.feature
unfolding final set_feature
final_other a features flag i =
    let fresh =
      All-In (λ g. feature_number fake_time ≢ feature_number g.feature) flag feature_by_name
        feature_by_name-Fresh i in
    ground (arith, ≢→== (feature_number fake_time) (feature_number flag.feature) fresh)

ok_injective : {s t : Settings} → ◌≡◌ {A = Result Settings} (ok s) (ok t) → s ≡ t
ok_injective h = cc

needs_perf :
    (features : FeatureSet) (wanted limit : ℕ)
    → check_perf features (some wanted) ≡ ok limit
    → features perf ≡ true
unfolding check_perf
needs_perf features wanted limit h = elim (Bool-cases (features perf)) [
  | inl e ↦ e
  | inr e ↦ let bad = (rw (e, check_perf) at h) in cc
]

final_perf : (a : Arguments) (features : FeatureSet) → final a features perf ≡ features perf
unfolding final set_feature
final_perf a features = ground arith

final_fake :
    (a : Arguments) (features : FeatureSet)
    → features fake_time ≡ false
    → final a features fake_time ≡ is_fake a.time_mode
unfolding final set_feature
final_fake a features h = ground arith

-- What an accepted command line leaves of its parts.
pub late_lem :
    (a : Arguments) (features : FeatureSet) (s : Settings)
    → late a features ≡ ok s
    → (s.features ≡ final a features)
      × (s.action ≡ action_of a)
      × (s.parsing_error ≡ parsing_error_of a)
      × ((limit : ℕ) → a.instruction_count_limit ≡ some limit → features perf ≡ true)
unfolding late early final check_perf
late_lem a features s h =
    let (mounts, e, rest) = >>=-eq-ok (add_bind_mounts a.bind_mount_lines []) _ s h in
    let (limit, f, same) = >>=-eq-ok (check_perf features a.instruction_count_limit) _ s rest in
    let same' = sym (ok_injective same) in
    (
      ap (λ t. t.features) same',
      ap (λ t. t.action) same',
      ap (λ t. t.parsing_error) same',
      λ wanted i. needs_perf features wanted limit (ap (check_perf features) (sym i) ∙ f),
    )

-- If the settings ask for a run, then nothing else was asked for and nothing was wrong: neither help
-- nor version, no error of the parser, a word for on or off for each feature, which is in the set
-- exactly for the former, the feature of faked time exactly for a mode that fakes it, and a limit of
-- instructions only with the counter.
pub application_settings-run :
    (a : Arguments) (s : Settings) → application_settings a ≡ ok s → s.action ≡ run → Asked a s
unfolding application_settings after_features
application_settings-run a s h r =
    go (add_features a.long_id a.feature_values feature_by_name no_features) refl h
  where
    go :
        (p : FeatureSet × Option Text)
        → add_features a.long_id a.feature_values feature_by_name no_features ≡ p
        → after_features a p ≡ ok s
        → Asked a s
    go (features, some message) e h =
        let bad : print_help ≡ run = ap (λ t. t.action) (ok_injective h) ∙ r in
        absurd (ground arith)
    go (features, none) e h =
        let (same, act, error, needs) = late_lem a features s h in
        let (help, version, failure) = action_of-run a (sym act ∙ r) in
        (
          help,
          version,
          failure,
          λ flag i.
              let holds =
                add_features_lem a.long_id a.feature_values flag feature_by_name no_features
                  features feature_by_name-Distinct e i in
              (ap (λ f. f flag.feature) same ∙ final_other a features flag i ∙ holds.0, holds.1),
          ap (λ f. f fake_time) same
              ∙ final_fake a features (
                  untouched a.long_id a.feature_values fake_time feature_by_name no_features
                    features feature_by_name-Fresh e),
          λ limit i. ap (λ f. f perf) same ∙ final_perf a features ∙ needs limit i,
        )
