-- ===== src/Wiki/Approval.antt =====
-- What an approval needs and what it does.
use viki.Prelude.{
  ℕ, ◌≡◌, refl, sym, ap, ◌∙◌, ◌⊎◌, inl, inr, Bool, true, false, not, ◌&&◌, Bool-cases, Option, none,
  some, is_some, if◌then◌else◌, ◌==◌, List, [], ◌∷◌, opt_eq, opt_eq_iff, codes, Table, lookup,
  insert, adjust, lookup-nil, lookup-cons, any, lookup-insert, lookup-adjust, Result, ok, err,
  ◌>>=◌, ◌>>◌, reject_if, reject_if->>, arith,
}
use viki.Model.{Uuid, approved, superseded, queued}
use viki.Governance.{can_approve}
use viki.Wiki.State.{Db, Page, Revision, Objection, Development, Caller}
use viki.Wiki.Writes.{is_scenario, repository_managed, page_of, audit}
use viki.Wiki.Approve.{
  approve_revision, revision_page, open_objections, queue_scenario, queue_rows, mark_approved,
  parent_approved,
}
use viki.Wiki.Moves.{parent_page, is_approved_page, adjust_at, retire_row}
use viki.Wiki.Refine.Update.{
  approve_revision-Approved, approved_tables, revision_page-lookup, parent_approved_lem,
}
use viki.Wiki.Invariant.{
  draft_of, approved_of, view_of, view_from, draft-point_approved, approved-point_approved,
  view-promote, view-retire,
}
use viki.Wiki.Lifecycle.{IsConsistent}

-- Every objection to the page is resolved.
abbrev pub AllResolved : Uuid → Table Objection → Type 0
AllResolved page t =
    (id : Uuid) (o : Objection)
    → lookup id t ≡ some o
    → o.page ≡ page
    → is_some o.resolved_at ≡ true

unblocked_resolved :
    (page : Uuid) (t : Table Objection) (id : Uuid) (o : Objection)
    → can_approve (open_objections page t) ≡ ok tt
    → lookup id t ≡ some o
    → o.page ≡ page
    → is_some o.resolved_at ≡ true
unfolding open_objections can_approve
unblocked_resolved page [] id o h e p = cc (sym e ∙ lookup-nil id)
unblocked_resolved page ((k, w) ∷ t) id o h e p =
    ground (arith, h, lookup-cons id k w t, e, p, unblocked_resolved page t id o)

resolved_unblocked :
    (page : Uuid) (t : Table Objection)
    → any (λ row. row.1.page == page && not (is_some row.1.resolved_at)) t ≡ false
    → can_approve (open_objections page t) ≡ ok tt
unfolding open_objections can_approve
resolved_unblocked page [] h = refl
resolved_unblocked page ((k, w) ∷ t) h = ground (arith, h, resolved_unblocked page t)

abbrev pub queued_at : ℕ → Development
queued_at now = record { status = queued; detail = []; updated_at = now }

-- What holds after an approval, and what held before it.
pub record ApprovalOutcome (c : Caller) (revision : Uuid) (db : Db) (r : Uuid × Db) : Type 0 where
  pub was_draft : draft_of db.pages r.0 ≡ some revision
  pub resolved : AllResolved r.0 db.objections
  pub row : Page
  pub page_row : lookup r.0 db.pages ≡ some row
  pub parent_first :
      is_scenario row.kind ≡ true → is_approved_page (parent_page row db.pages) ≡ true
  pub approved_now : approved_of r.1.pages r.0 ≡ some revision
  pub no_draft : draft_of r.1.pages r.0 ≡ none
  pub status : view_of r.1.revisions revision ≡ some (r.0, approved)
  pub superseded_before :
      (old : Uuid)
      → approved_of db.pages r.0 ≡ some old
      → view_of r.1.revisions old ≡ some (r.0, superseded)
  pub queued_scenario :
      is_scenario row.kind ≡ true → lookup revision r.1.developments ≡ some (queued_at c.now)

queued_row :
    (c : Caller) (p : Page) (revision : Uuid) (db db' : Db)
    → queue_scenario c p revision db ≡ ok db'
    → is_scenario p.kind ≡ true
    → lookup revision db'.developments ≡ some (queued_at c.now)
unfolding queue_scenario
queued_row c p revision db db' h s =
    ground (arith, h, s, lookup-insert revision revision (queued_at c.now) db.developments)

audit_developments :
    (c : Caller) (a b : viki.Prelude.Text) (e : Uuid) (db : Db)
    → (audit c a b e db).developments ≡ db.developments
unfolding audit
audit_developments c a b e db = refl

-- An approval that succeeds in a consistent database approved the page's latest draft, with every objection to the page
-- resolved and, for a scenario, an approved parent. Afterwards the revision is the page's approved
-- one and has that status, the page has no draft, the revision approved before is superseded, and
-- a scenario's development is queued.
pub approve_revision-outcome :
    (c : Caller) (revision : Uuid) (db : Db) (r : Uuid × Db)
    → IsConsistent db
    → approve_revision c revision db ≡ ok r
    → ApprovalOutcome c revision db r
approve_revision-outcome c revision db r good h =
    let a = approve_revision-Approved c revision db r h in
    let (pages, revisions) = approved_tables c revision db r a in
    let p = good.pointers.in_step in
    let row = revision_page-lookup c revision db (r.0, a.row) a.found in
    let drafted : draft_of db.pages r.0 ≡ some revision =
      ap viki.Wiki.Invariant.draft_from row ∙ a.current in
    record {
      was_draft = drafted;
      resolved = λ id o e q. unblocked_resolved r.0 db.objections id o a.unblocked e q;
      row = a.row;
      page_row = row;
      parent_first = a.parent_first;
      approved_now =
          ap (λ t. approved_of t r.0) pages
          ∙ approved-point_approved db.pages r.0 revision c.now a.row row r.0
          ∙ ground arith;
      no_draft =
          ap (λ t. draft_of t r.0) pages
          ∙ draft-point_approved db.pages r.0 revision c.now a.row row r.0
          ∙ ground arith;
      status =
          ap (λ t. view_of t revision) revisions
          ∙ ground (
            arith,
            view-promote (adjust_at a.row.approved retire_row db.revisions) revision revision c.now,
            view-retire db.revisions revision a.row.approved,
            p.draft_points r.0 revision drafted,
          );
      superseded_before = λ old e.
          ap (λ t. view_of t old) revisions
          ∙ ground (
            arith,
            e,
            ap viki.Wiki.Invariant.approved_from row,
            view-promote (adjust_at a.row.approved retire_row db.revisions) old revision c.now,
            view-retire db.revisions old a.row.approved,
            p.draft_points r.0 revision drafted,
            p.approved_points r.0 old e,
          );
      queued_scenario = λ s.
          ap (λ (d : Db). lookup revision d.developments) (sym a.after)
          ∙ ap (lookup revision) (audit_developments c _ _ revision a.written)
          ∙ queued_row c a.row revision _ a.written a.writes s;
    }

queue_ok :
    (c : Caller) (p : Page) (revision : Uuid) (db : Db)
    → lookup revision db.developments ≡ none
    → (db' : Db) × (queue_scenario c p revision db ≡ ok db')
unfolding queue_scenario
queue_ok c p revision db free = elim (Bool-cases (is_scenario p.kind)) [
  | inl s ↦ (queue_rows c revision db, rw (s, free) refl)
  | inr s ↦ (db, rw s refl)
]

developments-mark_approved :
    (c : Caller) (id : Uuid) (p : Page) (revision : Uuid) (db : Db)
    → (mark_approved c id p revision db).developments ≡ db.developments
unfolding mark_approved
developments-mark_approved c id p revision db = ground arith

-- What an approval needs: the workspace is not managed in Git, the revision belongs to a page of
-- the caller's organization and is its latest draft, a scenario's parent is approved, and no
-- objection to the page is open. The revision has no development yet.
pub record CanApprove (c : Caller) (revision : Uuid) (db : Db) : Type 0 where
  pub unmanaged : repository_managed db c.organization ≡ false
  pub version : Revision
  pub row : Page
  pub found : lookup revision db.revisions ≡ some version
  pub page_row : page_of c version.page db ≡ some row
  pub current : row.latest_draft ≡ some revision
  pub parent_first :
      is_scenario row.kind ≡ true → is_approved_page (parent_page row db.pages) ≡ true
  pub unblocked :
      any (λ o. o.1.page == version.page && not (is_some o.1.resolved_at)) db.objections ≡ false
  pub undeveloped : lookup revision db.developments ≡ none

revision_page_ok :
    (c : Caller) (revision : Uuid) (db : Db) (v : Revision) (p : Page)
    → lookup revision db.revisions ≡ some v
    → page_of c v.page db ≡ some p
    → revision_page c revision db ≡ ok (v.page, p)
unfolding revision_page
revision_page_ok c revision db v p e h = ground (arith, e, h)

-- An approval succeeds where the workspace is not managed in Git, the revision is the latest draft of a
-- page of the caller's organization, a scenario's parent is approved, no objection to the page is open
-- and the revision has no development yet.
pub approve_revision_succeeds :
    (c : Caller) (revision : Uuid) (db : Db)
    → CanApprove c revision db
    → (r : Uuid × Db) × (approve_revision c revision db ≡ ok r)
unfolding approve_revision
approve_revision_succeeds c revision db k =
    let (written, w) =
      queue_ok c k.row revision (mark_approved c k.version.page k.row revision db) (
        ap (lookup revision) (developments-mark_approved c k.version.page k.row revision db)
        ∙ k.undeveloped) in
    let cur : opt_eq k.row.latest_draft (some revision) ≡ true = (opt_eq_iff _ _).1 k.current in
    let par : (is_scenario k.row.kind && not (is_some (parent_approved k.row db))) ≡ false =
      ground (arith, k.parent_first, parent_approved_lem k.row db) in
    let rp = revision_page_ok c revision db k.version k.row k.found k.page_row in
    (
      (k.version.page, audit c (codes "revision.approved") (codes "revision") revision written),
      rw (k.unmanaged, rp, cur, par, resolved_unblocked k.version.page db.objections k.unblocked, w)
          refl,
    )
