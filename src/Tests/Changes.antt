-- ===== src/Tests/Changes.antt =====
-- A change set of the assistant: a concept, a feature that refers to it, and the feature's scenario.
use viki.Prelude.{
  find_key, ◌≡◌, refl, true, List, [], ◌∷◌, Option, none, some, Text, codes, All, Result, ok, err,
  lookup, insert, adjust, trim_space, trim_left, trim_right, is_space, is_blank,
}
use viki.Model.{Uuid, PageKind, concept, feature, scenario, ConceptKind, noun, PageReference, Step}
use viki.Pages.{
  is_empty_step, scan_keyword, scan_step, scan_steps, require_phases, validate_bdd_steps,
  validate_kind, validate_page_input, role_of,
}
use viki.Pages.Slug.{is_slug_char, word_due, in_word, is_slug}
use viki.Pages.Render.{render_step_expression, render_pieces, pieces, has_brace, holes}
use viki.Changes.{
  ChangeOperation, ChangeSet, create, check_operation, check_parent_key, check_reference,
  check_references, check_change, check_changes, check_features, validate_shape, creates_feature,
}
use viki.Changes.Links.{AreLinked, accepted-AreLinked}
use viki.Changes.Scenarios.{has_child, accepted-has_child}
use viki.Wiki.State.{Db, Error}
use viki.Wiki.Writes.{
  repository_managed, audit, page_of, validate_parent, insert_page, insert_draft, find_definition,
  upsert_definition, resolve_definition, store_step, insert_step, insert_steps, insert_reference,
  insert_references, insert_revision, set_latest_draft,
}
use viki.Wiki.Create.{create_draft}
use viki.Wiki.Changes.{
  resolve_references, apply_create, apply_change, apply_changes, apply_change_set,
}
use viki.Wiki.Refine.Changes.{apply_change_set-approved}
use viki.Wiki.Invariant.{approved_of}
use viki.Wiki.Performed.Sets.{SetPerformed, apply_change_set-SetPerformed}
use viki.Tests.Pages.{sample_steps}
use viki.Tests.Run.{empty_db, author}

abbrev to_page : Text → PageReference
to_page key = record {
  target_page_id = none;
  target_client_key = key;
  target_title = codes "Page";
  relation = codes "uses";
}

abbrev creation_of :
    PageKind → Option ConceptKind → Text → Text → List Step → List PageReference → ChangeOperation
creation_of kind concept_kind key parent_key steps refs = record {
  operation = create;
  client_key = key;
  page = none;
  base = none;
  kind = kind;
  concept_kind = concept_kind;
  parent = none;
  parent_client_key = parent_key;
  slug = key;
  content = record { title = key; body_md = []; steps = steps; references = refs };
}

abbrev sample_set : ChangeSet
sample_set = record {
  clarification = [];
  summary = codes "Editing";
  operations =
      creation_of concept (some noun) (codes "page") [] [] []
      ∷ creation_of feature none (codes "editing") [] [] (to_page (codes "page") ∷ [])
      ∷ creation_of scenario none (codes "edit-page") (codes "editing") sample_steps
          (to_page (codes "page") ∷ [])
      ∷ [];
}

abbrev applied_of : Result Error (List Uuid × Db) → List Uuid × Db
applied_of (ok r) = r
applied_of (err _) = ([], empty_db)

abbrev sample_applied : List Uuid × Db
sample_applied = applied_of (apply_change_set author 7 sample_set empty_db)

sample_set_accepted : validate_shape sample_set ≡ ok tt
unfolding validate_shape check_changes check_change check_operation check_parent_key
    check_references check_reference check_features find_key trim_space trim_left trim_right
    is_space is_blank is_empty_step scan_keyword scan_step scan_steps require_phases
    validate_bdd_steps validate_kind validate_page_input
sample_set_accepted = refl

accepted-AreLinked_example : AreLinked [] sample_set.operations
accepted-AreLinked_example = accepted-AreLinked sample_set sample_set_accepted

accepted-has_child_example :
    All
      (λ (o : ChangeOperation).
        creates_feature o ≡ true → has_child o.client_key sample_set.operations ≡ true)
      sample_set.operations
accepted-has_child_example = accepted-has_child sample_set sample_set_accepted

sample_set_applies : apply_change_set author 7 sample_set empty_db ≡ ok sample_applied
unfolding apply_change_set apply_changes apply_change apply_create resolve_references validate_shape
    check_changes check_change check_operation check_parent_key check_references check_reference
    check_features find_key create_draft lookup insert adjust trim_space trim_left trim_right
    is_space is_blank is_empty_step scan_keyword scan_step scan_steps require_phases
    validate_bdd_steps validate_kind validate_page_input role_of is_slug_char word_due in_word
    is_slug render_step_expression render_pieces pieces has_brace holes repository_managed audit
    page_of validate_parent insert_page insert_draft find_definition upsert_definition
    resolve_definition store_step insert_step insert_steps insert_reference insert_references
    insert_revision set_latest_draft
sample_set_applies = refl

apply_change_set-SetPerformed_example : SetPerformed author sample_set empty_db sample_applied
apply_change_set-SetPerformed_example =
    apply_change_set-SetPerformed author 7 sample_set empty_db sample_applied sample_set_applies

apply_change_set-approved_example :
    approved_of sample_applied.1.pages 10 ≡ approved_of empty_db.pages 10
apply_change_set-approved_example =
    apply_change_set-approved author 7 sample_set empty_db sample_applied sample_set_applies 10
