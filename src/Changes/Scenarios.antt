-- ===== src/Changes/Scenarios.antt =====
-- Each feature that an accepted change set creates gets a scenario in it.
use viki.Prelude.{
  ◌≡◌, refl, ◌∙◌, sym, Bool, true, false, not, ◌||◌, ◌&&◌, List, [], ◌∷◌, Text, text_eq, any, All,
  if◌then◌else◌, ok, >>=-eq-ok, reject_if->>, arith,
}
use viki.Changes.{
  ChangeOperation, ChangeSet, no_keys, creates_feature, creates_child, check_changes,
  check_features, validate_shape, feature_without_scenario,
}
use viki.Changes.Links.{passed, keys_of, check_changes-AreLinked}

-- Some operation creates a scenario under the key.
abbrev pub has_child : Text → List ChangeOperation → Bool
has_child key = any (λ o. creates_child o && text_eq key o.parent_client_key)

abbrev HasChildIn : List ChangeOperation → ChangeOperation → Type 0
HasChildIn ops o = creates_feature o ≡ true → has_child o.client_key ops ≡ true

with_scenarios_lem :
    (key : Text) (before : List ChangeOperation)
    → any (text_eq key) (keys_of before).with_scenarios ≡ has_child key before
with_scenarios_lem key [] = refl
with_scenarios_lem key (o ∷ before) = ground (arith, with_scenarios_lem key before)

check_features_lem :
    (features with_scenarios : List Text) {u : Unit {0}}
    → check_features features with_scenarios ≡ ok u
    → All (λ key. any (text_eq key) with_scenarios ≡ true) features
unfolding check_features
check_features_lem [] with_scenarios h = tt
check_features_lem (key ∷ rest) with_scenarios h =
    let (some_child, h1) =
      reject_if->> (not (any (text_eq key) with_scenarios)) (feature_without_scenario key) _ h in
    (ground (arith, some_child), check_features_lem rest with_scenarios h1)

features_lem :
    (all before : List ChangeOperation)
    → All (λ key. has_child key all ≡ true) (keys_of before).features
    → All (HasChildIn all) before
features_lem all [] h = tt
features_lem all (o ∷ before) h = go (creates_feature o) refl h (features_lem all before)
  where
    go :
        (b : Bool)
        → creates_feature o ≡ b
        → All
            (λ key. has_child key all ≡ true)
            (if b then o.client_key ∷ (keys_of before).features else (keys_of before).features)
        → (All (λ key. has_child key all ≡ true) (keys_of before).features
            → All (HasChildIn all) before)
        → All (HasChildIn all) (o ∷ before)
    go true e h rest = ((λ _. h.0), rest h.1)
    go false e h rest = ((λ t. cc (sym e ∙ t)), rest h)

All-passed :
    (P : ChangeOperation → Type 0) (before ops : List ChangeOperation)
    → All P (passed before ops)
    → All P before × All P ops
All-passed P before [] h = (h, tt)
All-passed P before (o ∷ ops) h = let r = All-passed P (o ∷ before) ops h in (r.0.1, (r.0.0, r.1))

has_child-passed :
    (key : Text) (before ops : List ChangeOperation)
    → has_child key (passed before ops) ≡ (has_child key before || has_child key ops)
has_child-passed key before [] = ground arith
has_child-passed key before (o ∷ ops) = ground (arith, has_child-passed key (o ∷ before) ops)

All-map :
    {A : Type 0} (P Q : A → Type 0) (xs : List A) → ((x : A) → P x → Q x) → All P xs → All Q xs
All-map P Q [] f h = tt
All-map P Q (x ∷ xs) f h = (f x h.0, All-map P Q xs f h.1)

-- In a change set that is accepted, each operation that creates a feature has an operation that
-- creates a scenario under the feature's client key.
pub accepted-has_child :
    (s : ChangeSet)
    → validate_shape s ≡ ok tt
    → All
        (λ (o : ChangeOperation).
          creates_feature o ≡ true → has_child o.client_key s.operations ≡ true)
        s.operations
unfolding validate_shape
accepted-has_child s h =
    let (keys, e, f) = >>=-eq-ok (check_changes 0 s.operations no_keys) _ h in
    let all = passed [] s.operations in
    let same = (check_changes-AreLinked 0 [] s.operations keys e).0 in
    let listed =
      check_features_lem (keys_of all).features (keys_of all).with_scenarios (rw (← same) f) in
    let children =
      All-map _ (λ key. has_child key all ≡ true) (keys_of all).features
        (λ key some_child. sym (with_scenarios_lem key all) ∙ some_child) listed in
    let over_all =
      (All-passed (HasChildIn all) [] s.operations (features_lem all all children)).1 in
    All-map (HasChildIn all) (HasChildIn s.operations) s.operations
      (λ o f made. sym (has_child-passed o.client_key [] s.operations) ∙ f made) over_all
