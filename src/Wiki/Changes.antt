-- ===== src/Wiki/Changes.antt =====
-- ApplyAIChangeSet and applyAIChangeSetTx of backend/internal/postgres/ai_changes.go: the drafts that an
-- assistant's change set makes.
use viki.Prelude.{
  find_key, Bool, true, false, not, ◌&&◌, Option, none, some, List, [], ◌∷◌, ◌++◌, Text, codes,
  text_eq, is_empty, is_blank, is_some, opt_eq, if◌then◌else◌, Result, ok, err, ◌>>=◌, ◌>>◌,
  reject_if,
}
use viki.Model.{
  Uuid, PageKind, concept, feature, scenario, other_kind, ConceptKind, noun, verb, other_concept,
  PageReference, RevisionContent,
}
use viki.Pages.{validate_page_input}
use viki.Pages.Slug.{is_slug}
use viki.Changes.{
  ChangeOperation, ChangeSet, Operation, validate_shape, create, revise, other_operation,
}
use viki.Wiki.State.{
  Db, Page, Caller, Error, read_only, conflict, input, shape, as_error, empty_change_set,
  unknown_parent_key, unknown_reference_key, unsupported_operation, missing_revise_target,
  immutable_metadata, invalid_generated_slug,
}
use viki.Wiki.Writes.{repository_managed, audit, page_of, validate_parent}
use viki.Wiki.Create.{new_page, create_draft}
use viki.Wiki.Save.{current_revision, is_current, write_draft, or_not_found}

-- createdIDs, createdPages and the tables.
pub record Applied : Type 0 where
  pub revisions : List Uuid
  pub created : List (Text × Uuid)
  pub db : Db

abbrev found_parent : Option Uuid → Result Error (Option Uuid)
found_parent none = err unknown_parent_key
found_parent (some p) = ok (some p)

abbrev pub resolve_parent : ChangeOperation → List (Text × Uuid) → Result Error (Option Uuid)
resolve_parent o created =
    if not (is_some o.parent) && not (is_empty o.parent_client_key)
    then found_parent (find_key o.parent_client_key created)
    else ok o.parent

abbrev found_target : PageReference → Option Uuid → Result Error PageReference
found_target ref none = err unknown_reference_key
found_target ref (some p) = ok (record ref { target_page_id = some p })

abbrev pub resolve_reference : List (Text × Uuid) → PageReference → Result Error PageReference
resolve_reference created ref =
    if not (is_some ref.target_page_id) && not (is_empty ref.target_client_key)
    then found_target ref (find_key ref.target_client_key created)
    else ok ref

unfoldable pub resolve_references :
    List (Text × Uuid) → List PageReference → Result Error (List PageReference)
resolve_references created [] = ok []
resolve_references created (ref ∷ rest) = do
  one ← resolve_reference created ref
  others ← resolve_references created rest
  ok (one ∷ others)

abbrev page_kind_eq : PageKind → PageKind → Bool
page_kind_eq concept concept = true
page_kind_eq feature feature = true
page_kind_eq scenario scenario = true
page_kind_eq (other_kind s) (other_kind t) = text_eq s t
page_kind_eq _ _ = false

abbrev concept_kind_eq : ConceptKind → ConceptKind → Bool
concept_kind_eq noun noun = true
concept_kind_eq verb verb = true
concept_kind_eq (other_concept s) (other_concept t) = text_eq s t
concept_kind_eq _ _ = false

-- conceptKindMatches
abbrev concept_kind_matches : Option ConceptKind → Option ConceptKind → Bool
concept_kind_matches none none = true
concept_kind_matches (some a) (some b) = concept_kind_eq a b
concept_kind_matches _ _ = false

-- The metadata of a revised page, which an operation repeats; optionalStringMatches is opt_eq.
abbrev pub same_metadata : ChangeOperation → Option Uuid → Page → Bool
same_metadata o parent p =
    page_kind_eq o.kind p.kind
    && text_eq o.slug p.slug
    && concept_kind_matches o.concept_kind p.concept_kind
    && opt_eq parent p.parent

abbrev remember : Text → Uuid → List (Text × Uuid) → List (Text × Uuid)
remember key page created = if is_empty key then created else (key, page) ∷ created

-- case "create"
unfoldable pub apply_create :
    Caller → ChangeOperation → Option Uuid → RevisionContent → Applied → Result Error Applied
apply_create c o parent content a = do
  reject_if (not (is_slug o.slug)) invalid_generated_slug
  as_error input (validate_page_input o.kind o.concept_kind parent content)
  validate_parent c o.kind parent a.db
  made ← create_draft c (new_page c o.kind o.concept_kind parent o.slug) content a.db
  ok (record {
    revisions = a.revisions ++ (made.1 ∷ []);
    created = remember o.client_key made.0 a.created;
    db = made.2;
  })

-- The rest of case "revise", for a page and a base. The page has a current revision, so max(number)
-- is not NULL.
unfoldable pub revise_page :
    Caller
    → ChangeOperation
    → Option Uuid
    → RevisionContent
    → Uuid
    → Uuid
    → Applied
    → Result Error Applied
revise_page c o parent content page base a = do
  p ← or_not_found (page_of c page a.db)
  reject_if (not (same_metadata o parent p)) immutable_metadata
  reject_if (not (is_current (current_revision p) base)) conflict
  as_error input (validate_page_input p.kind p.concept_kind p.parent content)
  made ← write_draft c page p base content a.db
  ok (record { revisions = a.revisions ++ (made.0 ∷ []); created = a.created; db = made.2 })

unfoldable pub apply_revise :
    Caller → ChangeOperation → Option Uuid → RevisionContent → Applied → Result Error Applied
apply_revise c o parent content a = elim o.page [
  | none ↦ err missing_revise_target
  | some page ↦ elim o.base [
    | none ↦ err missing_revise_target
    | some base ↦ revise_page c o parent content page base a
  ]
]

-- switch operation.Operation
abbrev pub apply_operation :
    Caller
    → ChangeOperation
    → Operation
    → Option Uuid
    → RevisionContent
    → Applied
    → Result Error Applied
apply_operation c o create parent content a = apply_create c o parent content a
apply_operation c o revise parent content a = apply_revise c o parent content a
apply_operation c o (other_operation _) parent content a = err unsupported_operation

-- The body of the loop.
unfoldable pub apply_change : Caller → ChangeOperation → Applied → Result Error Applied
apply_change c o a = do
  parent ← resolve_parent o a.created
  references ← resolve_references a.created o.content.references
  let content = record o.content { references = references }
  apply_operation c o o.operation parent content a

unfoldable pub apply_changes : Caller → List ChangeOperation → Applied → Result Error Applied
apply_changes c [] a = ok a
apply_changes c (o ∷ rest) a = apply_change c o a >>= apply_changes c rest

abbrev pub no_operations : List ChangeOperation → Bool
no_operations [] = true
no_operations (_ ∷ _) = false

abbrev pub nothing_applied : Db → Applied
nothing_applied db = record { revisions = []; created = []; db = db }

-- The change set of a conversation: the revisions made, and the tables.
unfoldable pub apply_change_set : Caller → Uuid → ChangeSet → Db → Result Error (List Uuid × Db)
apply_change_set c conversation s db = do
  reject_if (repository_managed db c.organization) read_only
  if not (is_blank s.clarification) then ok ([], db) else do
    reject_if (no_operations s.operations) empty_change_set
    as_error shape (validate_shape s)
    done ← apply_changes c s.operations (nothing_applied db)
    ok (
      done.revisions,
      audit c (codes "assistant.drafts_created") (codes "assistant_conversation") conversation
          done.db,
    )
