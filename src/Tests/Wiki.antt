-- ===== src/Tests/Wiki.antt =====
-- The theorems on the wiki at the run of Run.
use viki.Prelude.{
  arith, ◌≡◌, refl, ◌↔◌, true, [], none, some, codes, ok, err, lookup, insert, adjust, is_some,
  trim_space, trim_left, trim_right, is_space, is_blank,
}
use viki.Model.{Uuid, feature, scenario, draft, approved}
use viki.Pages.{
  is_empty_step, scan_keyword, scan_step, scan_steps, require_phases, validate_bdd_steps,
  validate_kind, validate_page_input, role_of,
}
use viki.Pages.Slug.{is_slug_char, word_due, in_word, is_slug}
use viki.Pages.Render.{render_step_expression, render_pieces, pieces, has_brace, holes}
use viki.Governance.{can_approve}
use viki.Wiki.State.{Db, Page, conflict}
use viki.Wiki.Writes.{
  repository_managed, audit, page_of, validate_parent, insert_page, insert_draft, find_definition,
  upsert_definition, resolve_definition, store_step, insert_step, insert_steps, insert_reference,
  insert_references, insert_revision, set_latest_draft,
}
use viki.Wiki.Create.{new_page, create_draft, create_page}
use viki.Wiki.Save.{max_number, supersede_draft, write_draft, save_revision}
use viki.Wiki.Approve.{
  revision_page, open_objections, mark_approved, approve_definitions, queue_rows, queue_scenario,
  approve_revision,
}
use viki.Wiki.Refine.Others.{Reach, here, next, creating, approving}
use viki.Wiki.Invariant.{draft_of, approved_of, view_of}
use viki.Wiki.Invariant.Numbers.{Fixed, fixed_of}
use viki.Wiki.Moves.{parent_page, is_feature_page, is_approved_page}
use viki.Wiki.Approval.{
  ApprovalOutcome, approve_revision-outcome, CanApprove, approve_revision_succeeds,
}
use viki.Wiki.Conflict.{Saved, save_revision-Saved, save_revision-conflict}
use viki.Wiki.Queue.{claim_development}
use viki.Wiki.Earliest.{IsClaim, claim_development-IsClaim}
use viki.Wiki.Lifecycle.{
  approved_scenario_parent, revision_immutable, approval_permanent, IsConsistent, IsEmpty,
  IsEmpty-IsConsistent, Reach-IsConsistent, pointers_exact,
}
use viki.Tests.Pages.{sample_steps, sample_content}
use viki.Tests.Run.{
  empty_db, author, editing_feature, created, feature_approved, scenario_approved, saved_again,
  create_page_works, feature_approval_works, scenario_approval_works, save_works,
}

sample-IsEmpty : IsEmpty empty_db
sample-IsEmpty = (refl, refl)

creation : Reach empty_db created.1
creation = next here (creating author editing_feature created create_page_works refl)

approvals : Reach created.1 scenario_approved.1
approvals =
    next (next here (approving author 11 feature_approved feature_approval_works refl))
      (approving author 13 scenario_approved scenario_approval_works refl)

whole_run : Reach empty_db scenario_approved.1
whole_run =
    next (next creation (approving author 11 feature_approved feature_approval_works refl))
      (approving author 13 scenario_approved scenario_approval_works refl)

created_IsConsistent : IsConsistent created.1
created_IsConsistent = Reach-IsConsistent (IsEmpty-IsConsistent empty_db sample-IsEmpty) creation

Reach-IsConsistent_example : IsConsistent scenario_approved.1
Reach-IsConsistent_example = Reach-IsConsistent created_IsConsistent approvals

pointers_exact_example :
    ((draft_of scenario_approved.1.pages 12 ≡ some 13)
      ↔ (view_of scenario_approved.1.revisions 13 ≡ some (12, draft)))
    × ((approved_of scenario_approved.1.pages 12 ≡ some 13)
        ↔ (view_of scenario_approved.1.revisions 13 ≡ some (12, approved)))
pointers_exact_example = pointers_exact sample-IsEmpty whole_run 12 13

abbrev scenario_row : Page
scenario_row = record (new_page author scenario none (some 10) (codes "edit-page")) {
  approved = some 13;
}

scenario_row_found : lookup 12 scenario_approved.1.pages ≡ some scenario_row
unfolding create_page create_draft lookup insert adjust trim_space trim_left trim_right is_space
    is_blank is_empty_step scan_keyword scan_step scan_steps require_phases validate_bdd_steps
    validate_kind validate_page_input role_of is_slug_char word_due in_word is_slug
    render_step_expression render_pieces pieces has_brace holes repository_managed audit page_of
    validate_parent insert_page insert_draft find_definition upsert_definition resolve_definition
    store_step insert_step insert_steps insert_reference insert_references insert_revision
    set_latest_draft max_number supersede_draft write_draft save_revision revision_page
    open_objections mark_approved approve_definitions queue_rows queue_scenario approve_revision
    can_approve
scenario_row_found = refl

approved_scenario_parent_example :
    (is_feature_page (parent_page scenario_row scenario_approved.1.pages) ≡ true)
    × (is_approved_page (parent_page scenario_row scenario_approved.1.pages) ≡ true)
approved_scenario_parent_example =
    approved_scenario_parent sample-IsEmpty whole_run 12 scenario_row scenario_row_found refl refl

abbrev first_fixed : Fixed
first_fixed = record {
  page = 10;
  number = 1;
  title = codes "Edit";
  body_md = codes "Text";
  base = none;
  author = 2;
}

first_fixed_created : fixed_of created.1.revisions 11 ≡ some first_fixed
unfolding create_page create_draft lookup insert adjust trim_space trim_left trim_right is_space
    is_blank is_empty_step scan_keyword scan_step scan_steps require_phases validate_bdd_steps
    validate_kind validate_page_input role_of is_slug_char word_due in_word is_slug
    render_step_expression render_pieces pieces has_brace holes repository_managed audit page_of
    validate_parent insert_page insert_draft find_definition upsert_definition resolve_definition
    store_step insert_step insert_steps insert_reference insert_references insert_revision
    set_latest_draft max_number supersede_draft write_draft save_revision revision_page
    open_objections mark_approved approve_definitions queue_rows queue_scenario approve_revision
    can_approve
first_fixed_created = refl

revision_immutable_example : fixed_of scenario_approved.1.revisions 11 ≡ some first_fixed
revision_immutable_example = revision_immutable approvals 11 first_fixed first_fixed_created

feature_has_approval : is_some (approved_of feature_approved.1.pages 10) ≡ true
unfolding create_page create_draft lookup insert adjust trim_space trim_left trim_right is_space
    is_blank is_empty_step scan_keyword scan_step scan_steps require_phases validate_bdd_steps
    validate_kind validate_page_input role_of is_slug_char word_due in_word is_slug
    render_step_expression render_pieces pieces has_brace holes repository_managed audit page_of
    validate_parent insert_page insert_draft find_definition upsert_definition resolve_definition
    store_step insert_step insert_steps insert_reference insert_references insert_revision
    set_latest_draft max_number supersede_draft write_draft save_revision revision_page
    open_objections mark_approved approve_definitions queue_rows queue_scenario approve_revision
    can_approve
feature_has_approval = refl

approval_permanent_example : is_some (approved_of scenario_approved.1.pages 10) ≡ true
approval_permanent_example =
    approval_permanent
      (next here (approving author 13 scenario_approved scenario_approval_works refl)) 10
      feature_has_approval

approve_revision-outcome_example : ApprovalOutcome author 11 created.1 feature_approved
approve_revision-outcome_example =
    approve_revision-outcome author 11 created.1 feature_approved created_IsConsistent
      feature_approval_works

feature_CanApprove : CanApprove author 11 created.1
unfolding create_page create_draft lookup insert adjust trim_space trim_left trim_right is_space
    is_blank is_empty_step scan_keyword scan_step scan_steps require_phases validate_bdd_steps
    validate_kind validate_page_input role_of is_slug_char word_due in_word is_slug
    render_step_expression render_pieces pieces has_brace holes repository_managed audit page_of
    validate_parent insert_page insert_draft find_definition upsert_definition resolve_definition
    store_step insert_step insert_steps insert_reference insert_references insert_revision
    set_latest_draft max_number supersede_draft write_draft save_revision revision_page
    open_objections mark_approved approve_definitions queue_rows queue_scenario approve_revision
    can_approve
feature_CanApprove = record {
  unmanaged = refl;
  version = record {
    page = 10;
    number = 1;
    status = draft;
    title = codes "Edit";
    body_md = codes "Text";
    base = none;
    created_by = 2;
    approved_at = none;
  };
  row = record (new_page author feature none none (codes "editing")) { latest_draft = some 11 };
  found = refl;
  page_row = refl;
  current = refl;
  parent_first = λ h. ground arith;
  unblocked = refl;
  undeveloped = refl;
}

approve_revision_succeeds_example : (r : Uuid × Db) × (approve_revision author 11 created.1 ≡ ok r)
approve_revision_succeeds_example = approve_revision_succeeds author 11 created.1 feature_CanApprove

save_revision-Saved_example : Saved author 10 11 created.1 saved_again
save_revision-Saved_example =
    save_revision-Saved author 10 11 (sample_content []) created.1 saved_again save_works

save_revision-conflict_example :
    save_revision author 10 11 (sample_content sample_steps) saved_again.1 ≡ err conflict
save_revision-conflict_example =
    save_revision-conflict author author 10 11 (sample_content []) (sample_content sample_steps)
      created.1 saved_again created_IsConsistent refl save_works

claim_development-IsClaim_example :
    IsClaim 2000 scenario_approved.1 (claim_development 2000 scenario_approved.1)
claim_development-IsClaim_example = claim_development-IsClaim 2000 scenario_approved.1
