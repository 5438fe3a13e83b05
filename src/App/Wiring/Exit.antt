-- ===== src/App/Wiring/Exit.antt =====
-- The exit code after a bad command line.
use sio2jail.Stream.{is_empty}
use sio2jail.Common.{
  List, [], ◌≡◌, ◌⊎◌, refl, ap, subst, ◌∙◌, inl, inr, false, Text, ◌∷◌, Option, none, some,
  Bool-cases,
}
use sio2jail.App.{Result, ok, failed_with, ◌>>=◌}
use sio2jail.App.Features.{
  FeatureSet, FeatureFlag, flags_on, flags_off, text_in, flag_value, feature_by_name, no_features,
  add_features,
}
use sio2jail.App.Settings.{
  Arguments, Settings, print_help, action_of, parsing_error_of, early, late, after_features,
  application_settings,
}
use sio2jail.App.Wiring.{
  ExitCode, parse_error, fatal_error, main, exit_of, handle_help, application_main,
}
use sio2jail.App.Settings.Run.{late_lem}

some_injective : {t u : Text} → ◌≡◌ {A = Option Text} (some t) (some u) → t ≡ u
some_injective h = cc

bad_value_text :
    (long_id : Text → Text) (values : Text → Option Text) (flags : List FeatureFlag)
    (s s' : FeatureSet) (message : Text)
    → add_features long_id values flags s ≡ (s', some message)
    → is_empty message ≡ false
unfolding add_features is_empty
bad_value_text long_id values [] s s' message h = cc
bad_value_text long_id values (flag ∷ flags) s s' message h =
    elim (Bool-cases (text_in (flag_value values flag) flags_on)) [
      | inl on ↦ bad_value_text long_id values flags _ s' message (rw (on, add_features) at h)
      | inr not_on ↦ elim (Bool-cases (text_in (flag_value values flag) flags_off)) [
        | inl off ↦
            bad_value_text long_id values flags _ s' message (rw (not_on, off, add_features) at h)
        | inr not_off ↦
            let bad = (rw (not_on, not_off, add_features) at h) in
            subst (λ t. is_empty t ≡ false) (some_injective (ap (λ p. p.1) bad)) refl
      ]
    ]

-- Settings that ask for help with a message.
complains :
    (handle_run : Settings → Result ExitCode) (s : Settings)
    → s.action ≡ print_help
    → is_empty s.parsing_error ≡ false
    → exit_of handle_run (ok s) ≡ parse_error
unfolding exit_of application_main handle_help
complains handle_run s h e = rw (h, e, exit_of, application_main, ◌>>=◌)

failed_action :
    (a : Arguments) (message : Text)
    → a.failure ≡ some message
    → a.help_set ≡ false
    → a.version_set ≡ false
    → action_of a ≡ print_help
unfolding action_of
failed_action a message hf hh hv = rw (hf, hh, hv, action_of)

failed_error :
    (a : Arguments) (message : Text)
    → a.failure ≡ some message
    → a.help_set ≡ false
    → a.version_set ≡ false
    → parsing_error_of a ≡ message
unfolding parsing_error_of
failed_error a message hf hh hv = rw (hf, hh, hv, parsing_error_of)

-- When the parser failed with a message that is not empty, and neither help nor version was asked
-- for, nothing is run and the exit code is that of a parsing error or of a fatal one, whatever a run
-- would do.
pub main_bad_command_line :
    (handle_run : Settings → Result ExitCode) (a : Arguments) (message : Text)
    → a.failure ≡ some message
    → is_empty message ≡ false
    → a.help_set ≡ false
    → a.version_set ≡ false
    → (main handle_run a ≡ parse_error) ⊎ (main handle_run a ≡ fatal_error)
unfolding main application_settings after_features
main_bad_command_line handle_run a message hf he hh hv =
    go (add_features a.long_id a.feature_values feature_by_name no_features) refl
  where
    go :
        (p : FeatureSet × Option Text)
        → add_features a.long_id a.feature_values feature_by_name no_features ≡ p
        → (exit_of handle_run (after_features a p) ≡ parse_error)
          ⊎ (exit_of handle_run (after_features a p) ≡ fatal_error)
    go (features, some bad) e = inl (
        complains handle_run
          (record (early a features) { action = print_help; parsing_error = bad }) refl
          (bad_value_text a.long_id a.feature_values feature_by_name no_features features bad e))
    go (features, none) e = accepted (late a features) refl
      where
        accepted :
            (r : Result Settings)
            → late a features ≡ r
            → (exit_of handle_run r ≡ parse_error) ⊎ (exit_of handle_run r ≡ fatal_error)
        accepted (failed_with x) f = inr refl
        accepted (ok s) f =
            let (same, act, error, needs) = late_lem a features s f in
            inl (
              complains handle_run s (act ∙ failed_action a message hf hh hv)
                (ap is_empty (error ∙ failed_error a message hf hh hv) ∙ he))
