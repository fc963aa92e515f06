-- ===== src/Changes.antt =====
-- A change set of the assistant and the rules of its shape: AIChangeSet of
-- backend/internal/model/model.go and validateAssistantChangeSetShape of
-- backend/internal/postgres/ai_changes.go. A number in an error is the operation's position. The maps
-- keyed by client keys are lists of pairs, the latest first.
pub mod Links
pub mod Scenarios
use viki.Prelude.{
  find_key, ℕ, ◌+◌, Bool, true, false, not, ◌&&◌, ◌||◌, Option, none, some, List, [], ◌∷◌, Text,
  text_eq, is_empty, is_blank, any, is_some, if◌then◌else◌, Result, ok, err, ◌>>=◌, ◌>>◌, reject_if,
}
use viki.Model.{
  Uuid, PageKind, concept, feature, scenario, ConceptKind, PageReference, RevisionContent,
}
use viki.Pages.{InputError, validate_page_input}

pub data Operation : Type 0 where
  create revise : Operation
  other_operation : Text → Operation

pub record ChangeOperation : Type 0 where
  pub operation : Operation
  pub client_key : Text
  pub page : Option Uuid
  pub base : Option Uuid
  pub kind : PageKind
  pub concept_kind : Option ConceptKind
  pub parent : Option Uuid
  pub parent_client_key : Text
  pub slug : Text
  pub content : RevisionContent

pub record ChangeSet : Type 0 where
  pub clarification : Text
  pub summary : Text
  pub operations : List ChangeOperation

pub data ShapeError : Type 0 where
  create_has_target revise_lacks_target unsupported_operation unknown_parent_key : ℕ → ShapeError
  references_required invalid_reference unknown_concept_key repeated_key : ℕ → ShapeError
  scenario_required : ℕ → ShapeError
  content_error : ℕ → InputError → ShapeError
  feature_without_scenario : Text → ShapeError

-- createdKinds, createdFeatures and featuresWithScenarios
pub record Keys : Type 0 where
  pub kinds : List (Text × PageKind)
  pub features : List Text
  pub with_scenarios : List Text

abbrev pub no_keys : Keys
no_keys = record { kinds = []; features = []; with_scenarios = [] }

abbrev pub is_feature_kind : PageKind → Bool
is_feature_kind feature = true
is_feature_kind _ = false

abbrev pub is_concept_kind : PageKind → Bool
is_concept_kind concept = true
is_concept_kind _ = false

-- The kind under a key passes a test; a missing key has the kind "", which passes none.
abbrev pub kind_passes : (PageKind → Bool) → Option PageKind → Bool
kind_passes test none = false
kind_passes test (some k) = test k

unfoldable pub check_operation : ℕ → ChangeOperation → Result ShapeError (Unit {0})
check_operation index o = elim o.operation [
  | create ↦ reject_if (is_some o.page || is_some o.base) (create_has_target index)
  | revise ↦ reject_if (not (is_some o.page) || not (is_some o.base)) (revise_lacks_target index)
  | other_operation _ ↦ err (unsupported_operation index)
]

-- A client key stands in for the parent while the content is validated.
abbrev keyed_parent : ChangeOperation → Option Uuid
keyed_parent o = if is_empty o.parent_client_key then o.parent else some 0

unfoldable pub check_parent_key : ℕ → ChangeOperation → Keys → Result ShapeError (Unit {0})
check_parent_key index o keys =
    reject_if
      (not (is_empty o.parent_client_key)
        && not (kind_passes is_feature_kind (find_key o.parent_client_key keys.kinds)))
      (unknown_parent_key index)

abbrev pub as_content_error {ℓ} : {A : Type ℓ} → ℕ → Result InputError A → Result ShapeError A
as_content_error index (ok a) = ok a
as_content_error index (err e) = err (content_error index e)

unfoldable pub check_reference : ℕ → Keys → PageReference → Result ShapeError (Unit {0})
check_reference index keys ref = do
  let has_page = is_some ref.target_page_id
  let has_key = not (is_blank ref.target_client_key)
  reject_if
      ((if has_page then has_key else not has_key)
        || is_blank ref.relation
        || is_blank ref.target_title)
      (invalid_reference index)
  reject_if
      (has_key && not (kind_passes is_concept_kind (find_key ref.target_client_key keys.kinds)))
      (unknown_concept_key index)

unfoldable pub check_references : ℕ → Keys → List PageReference → Result ShapeError (Unit {0})
check_references index keys [] = ok tt
check_references index keys (ref ∷ rest) =
    check_reference index keys ref >> check_references index keys rest

abbrev pub has_references : List PageReference → Bool
has_references [] = false
has_references (_ ∷ _) = true

abbrev pub creates_kind : PageKind → Operation → Bool
creates_kind feature create = true
creates_kind _ _ = false

abbrev pub creates_feature : ChangeOperation → Bool
creates_feature o = creates_kind o.kind o.operation

abbrev creates_scenario_kind : PageKind → Operation → Bool
creates_scenario_kind scenario create = true
creates_scenario_kind _ _ = false

abbrev pub creates_child : ChangeOperation → Bool
creates_child o = creates_scenario_kind o.kind o.operation && not (is_empty o.parent_client_key)

-- createdKinds[operation.ClientKey] = operation.Kind, the other maps likewise.
abbrev pub add_keys : ChangeOperation → Keys → Keys
add_keys o keys = record {
  kinds = if is_empty o.client_key then keys.kinds else (o.client_key, o.kind) ∷ keys.kinds;
  features = if creates_feature o then o.client_key ∷ keys.features else keys.features;
  with_scenarios =
      if creates_child o then o.parent_client_key ∷ keys.with_scenarios else keys.with_scenarios;
}

-- The body of the loop.
unfoldable pub check_change : ℕ → ChangeOperation → Keys → Result ShapeError Keys
check_change index o keys = do
  check_operation index o
  check_parent_key index o keys
  as_content_error index (validate_page_input o.kind o.concept_kind (keyed_parent o) o.content)
  reject_if (not (is_concept_kind o.kind) && not (has_references o.content.references))
      (references_required index)
  check_references index keys o.content.references
  reject_if (not (is_empty o.client_key) && is_some (find_key o.client_key keys.kinds))
      (repeated_key index)
  reject_if (creates_feature o && is_empty o.client_key) (scenario_required index)
  ok (add_keys o keys)

unfoldable pub check_changes : ℕ → List ChangeOperation → Keys → Result ShapeError Keys
check_changes index [] keys = ok keys
check_changes index (o ∷ rest) keys =
    check_change (index + 1) o keys >>= check_changes (index + 1) rest

-- The last loop. It visits the features in the order of a Go map, which is not fixed: which feature
-- the error names is not modelled further.
unfoldable pub check_features : List Text → List Text → Result ShapeError (Unit {0})
check_features [] with_scenarios = ok tt
check_features (key ∷ rest) with_scenarios =
    reject_if (not (any (text_eq key) with_scenarios)) (feature_without_scenario key)
    >> check_features rest with_scenarios

unfoldable pub validate_shape : ChangeSet → Result ShapeError (Unit {0})
validate_shape s = check_changes 0 s.operations no_keys >>= λ keys.
    check_features keys.features keys.with_scenarios
