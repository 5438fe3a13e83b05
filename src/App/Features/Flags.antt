-- ===== src/App/Features/Flags.antt =====
-- What the flags make of the features.
use sio2jail.Common.{
  ◌≡◌, ◌≢◌, ◌⊎◌, subst, ◌∙◌, true, Text, List, [], ◌∷◌, Option, none, All, In, inl, inr, arith,
  Bool-cases,
}
use sio2jail.App.Features.{
  Feature, feature_number, FeatureSet, set_feature, FeatureFlag, flags_on, flags_off, text_in,
  flag_value, add_features,
}

abbrev pub Fresh : Feature → List FeatureFlag → Type 0
Fresh f = All (λ flag. feature_number f ≢ feature_number flag.feature)

-- No two flags control the same feature.
abbrev pub Distinct : List FeatureFlag → Type 0
Distinct [] = Unit
Distinct (flag ∷ flags) = Fresh flag.feature flags × Distinct flags

-- The flag's value is a word for on or for off, and the feature is in the set exactly for the former.
abbrev pub Controls : (Text → Option Text) → FeatureSet → FeatureFlag → Type 0
Controls values features flag =
    ((features flag.feature ≡ text_in (flag_value values flag) flags_on)
      × ((text_in (flag_value values flag) flags_on ≡ true)
          ⊎ (text_in (flag_value values flag) flags_off ≡ true)))

module _ (long_id : Text → Text) (values : Text → Option Text) where
  after_flag :
      (flag : FeatureFlag) (flags : List FeatureFlag) (s s' : FeatureSet)
      → add_features long_id values (flag ∷ flags) s ≡ (s', none)
      → (add_features long_id values flags
            (set_feature flag.feature (text_in (flag_value values flag) flags_on) s)
          ≡ (s', none))
        × ((text_in (flag_value values flag) flags_on ≡ true)
            ⊎ (text_in (flag_value values flag) flags_off ≡ true))
  unfolding add_features
  after_flag flag flags s s' h = elim (Bool-cases (text_in (flag_value values flag) flags_on)) [
    | inl on ↦ (rw on (rw (on, add_features) at h), inl on)
    | inr not_on ↦ elim (Bool-cases (text_in (flag_value values flag) flags_off)) [
      | inl off ↦ (rw not_on (rw (not_on, off, add_features) at h), inr off)
      | inr not_off ↦ let bad = (rw (not_on, not_off, add_features) at h) in cc
    ]
  ]

  pub untouched :
      (f : Feature) (flags : List FeatureFlag) (s s' : FeatureSet)
      → Fresh f flags
      → add_features long_id values flags s ≡ (s', none)
      → s' f ≡ s f
  unfolding add_features set_feature
  untouched f [] s s' h e = cc
  untouched f (flag ∷ flags) s s' h e =
      let (rest, word) = after_flag flag flags s s' e in
      untouched f flags _ s' h.1 rest ∙ ground arith

  -- If no value is bad, each flag controls its feature.
  pub add_features_lem :
      (flag : FeatureFlag) (flags : List FeatureFlag) (s s' : FeatureSet)
      → Distinct flags
      → add_features long_id values flags s ≡ (s', none)
      → In flag flags
      → Controls values s' flag
  unfolding set_feature
  add_features_lem flag [] s s' d e i = absurd i
  add_features_lem flag (first ∷ flags) s s' d e (inl same) =
      let (rest, word) = after_flag first flags s s' e in
      subst (Controls values s') same
        (untouched first.feature flags _ s' d.0 rest ∙ ground arith, word)
  add_features_lem flag (first ∷ flags) s s' d e (inr i) =
      let (rest, word) = after_flag first flags s s' e in
      add_features_lem flag flags _ s' d.1 rest i
