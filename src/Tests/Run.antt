-- ===== src/Tests/Run.antt =====
-- One run of the wiki: a feature with its first scenario, both approved, and a later draft.
use viki.Prelude.{
  ◌≡◌, refl, false, [], none, some, codes, Result, ok, err, lookup, insert, adjust, trim_space,
  trim_left, trim_right, is_space, is_blank,
}
use viki.Model.{Uuid, feature}
use viki.Pages.{
  is_empty_step, scan_keyword, scan_step, scan_steps, require_phases, validate_bdd_steps,
  validate_kind, validate_page_input, role_of,
}
use viki.Pages.Slug.{is_slug_char, word_due, in_word, is_slug}
use viki.Pages.Render.{render_step_expression, render_pieces, pieces, has_brace, holes}
use viki.Governance.{can_approve}
use viki.Wiki.State.{Db, Error, Caller}
use viki.Wiki.Writes.{
  repository_managed, audit, page_of, validate_parent, insert_page, insert_draft, find_definition,
  upsert_definition, resolve_definition, store_step, insert_step, insert_steps, insert_reference,
  insert_references, insert_revision, set_latest_draft,
}
use viki.Wiki.Create.{CreatePageInput, create_draft, create_page}
use viki.Wiki.Save.{max_number, supersede_draft, write_draft, save_revision}
use viki.Wiki.Approve.{
  revision_page, open_objections, mark_approved, approve_definitions, queue_rows, queue_scenario,
  approve_revision,
}
use viki.Tests.Pages.{sample_steps, sample_content}

abbrev pub empty_db : Db
empty_db = record {
  uuid = λ k. k;
  prints = λ _. false;
  drawn = 10;
  managed = [];
  pages = [];
  revisions = [];
  definitions = [];
  steps = [];
  references = [];
  objections = [];
  comments = [];
  developments = [];
  audits = [];
}

abbrev pub author : Caller
author = record { organization = 1; user = 2; now = 1000 }

abbrev pub editing_feature : CreatePageInput
editing_feature = record {
  kind = feature;
  concept_kind = none;
  parent = none;
  slug = codes "editing";
  content = sample_content [];
  initial = some (record { slug = codes "edit-page"; content = sample_content sample_steps });
}

-- What an operation returned, where it succeeded.
abbrev pub returned : Result Error (Uuid × Db) → Uuid × Db
returned (ok r) = r
returned (err _) = (0, empty_db)

abbrev pub created : Uuid × Db
created = returned (create_page author editing_feature empty_db)

pub create_page_works : create_page author editing_feature empty_db ≡ ok created
unfolding create_page create_draft lookup insert adjust trim_space trim_left trim_right is_space
    is_blank is_empty_step scan_keyword scan_step scan_steps require_phases validate_bdd_steps
    validate_kind validate_page_input role_of is_slug_char word_due in_word is_slug
    render_step_expression render_pieces pieces has_brace holes repository_managed audit page_of
    validate_parent insert_page insert_draft find_definition upsert_definition resolve_definition
    store_step insert_step insert_steps insert_reference insert_references insert_revision
    set_latest_draft
create_page_works = refl

abbrev pub feature_approved : Uuid × Db
feature_approved = returned (approve_revision author 11 created.1)

abbrev pub scenario_approved : Uuid × Db
scenario_approved = returned (approve_revision author 13 feature_approved.1)

abbrev pub saved_again : Uuid × Db
saved_again = returned (save_revision author 10 11 (sample_content []) created.1)

pub feature_approval_works : approve_revision author 11 created.1 ≡ ok feature_approved
unfolding create_page create_draft lookup insert adjust trim_space trim_left trim_right is_space
    is_blank is_empty_step scan_keyword scan_step scan_steps require_phases validate_bdd_steps
    validate_kind validate_page_input role_of is_slug_char word_due in_word is_slug
    render_step_expression render_pieces pieces has_brace holes repository_managed audit page_of
    validate_parent insert_page insert_draft find_definition upsert_definition resolve_definition
    store_step insert_step insert_steps insert_reference insert_references insert_revision
    set_latest_draft max_number supersede_draft write_draft save_revision revision_page
    open_objections mark_approved approve_definitions queue_rows queue_scenario approve_revision
    can_approve
feature_approval_works = refl

pub scenario_approval_works : approve_revision author 13 feature_approved.1 ≡ ok scenario_approved
unfolding create_page create_draft lookup insert adjust trim_space trim_left trim_right is_space
    is_blank is_empty_step scan_keyword scan_step scan_steps require_phases validate_bdd_steps
    validate_kind validate_page_input role_of is_slug_char word_due in_word is_slug
    render_step_expression render_pieces pieces has_brace holes repository_managed audit page_of
    validate_parent insert_page insert_draft find_definition upsert_definition resolve_definition
    store_step insert_step insert_steps insert_reference insert_references insert_revision
    set_latest_draft max_number supersede_draft write_draft save_revision revision_page
    open_objections mark_approved approve_definitions queue_rows queue_scenario approve_revision
    can_approve
scenario_approval_works = refl

pub save_works : save_revision author 10 11 (sample_content []) created.1 ≡ ok saved_again
unfolding create_page create_draft lookup insert adjust trim_space trim_left trim_right is_space
    is_blank is_empty_step scan_keyword scan_step scan_steps require_phases validate_bdd_steps
    validate_kind validate_page_input role_of is_slug_char word_due in_word is_slug
    render_step_expression render_pieces pieces has_brace holes repository_managed audit page_of
    validate_parent insert_page insert_draft find_definition upsert_definition resolve_definition
    store_step insert_step insert_steps insert_reference insert_references insert_revision
    set_latest_draft max_number supersede_draft write_draft save_revision revision_page
    open_objections mark_approved approve_definitions queue_rows queue_scenario approve_revision
    can_approve
save_works = refl
