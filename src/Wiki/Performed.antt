-- ===== src/Wiki/Performed.antt =====
-- What each operation of an applied change set did, applyAIChangeSetTx of
-- backend/internal/postgres/ai_changes.go.
pub mod Sets
use viki.Prelude.{
  ℕ, opt_eq_iff, ◌+◌, ◌≡◌, ◌≢◌, refl, sym, ap, ◌∙◌, Bool, true, false, not, Option, none, some,
  List, [], ◌∷◌, ◌++◌, Text, codes, is_blank, trim_space, if◌then◌else◌, lookup, adjust,
  lookup-adjust, lookup-insert, insert, Result, ok, err, ◌>>=◌, ◌>>◌, reject_if, >>=-eq-ok,
  reject_if->>, ok-injective, arith,
}
use mathlib.Core.List.{append_assoc, append-nil}
use mathlib.Core.Path.{subst}
use viki.Model.{Uuid, draft, RevisionContent}
use viki.Pages.{validate_page_input}
use viki.Pages.Slug.{is_slug}
use viki.Changes.{
  ChangeOperation, ChangeSet, Operation, create, revise, other_operation, validate_shape,
}
use viki.Wiki.State.{
  Db, Page, Revision, Caller, Error, read_only, conflict, input, shape, as_error, empty_change_set,
  immutable_metadata, invalid_generated_slug,
}
use viki.Wiki.Writes.{
  repository_managed, audit, page_of, validate_parent, insert_page, insert_revision,
  set_latest_draft,
}
use viki.Wiki.Create.{new_page, create_draft}
use viki.Wiki.Save.{
  current_revision, is_current, write_draft, or_not_found, max_number, supersede, supersede_draft,
}
use viki.Wiki.Frame.{draft_row, insert_revision-Inserted}
use viki.Wiki.Changes.{
  Applied, resolve_parent, resolve_references, same_metadata, no_operations, nothing_applied,
  apply_create, revise_page, apply_revise, apply_operation, apply_change, apply_changes,
  apply_change_set,
}
use viki.Wiki.Moves.{adjust_at, point_draft}
use viki.Wiki.Refine.{PageInserted, insert_page-PageInserted}
use viki.Wiki.Refine.Update.{
  page_of-lookup, or_not_found-eq-ok, pages-supersede_draft, revisions-supersede_draft,
}
use viki.Wiki.Conflict.{absent}

-- The page of a draft is new, or was there with the base as its current revision; then an old draft
-- of it is superseded. No other revision changes.
pub data Target (o : ChangeOperation) (a b : Db) (id page : Uuid) (row : Page) (version : Revision)
    : Type 0 where
  new_target :
      o.operation ≡ create
      → lookup page a.pages ≡ none
      → row.kind ≡ o.kind
      → row.concept_kind ≡ o.concept_kind
      → row.slug ≡ o.slug
      → row.approved ≡ none
      → version.number ≡ 1
      → b.revisions ≡ insert id version a.revisions
      → Target o a b id page row version
  old_target :
      (old : Page)
      → o.operation ≡ revise
      → o.page ≡ some page
      → o.base ≡ current_revision old
      → lookup page a.pages ≡ some old
      → row.slug ≡ old.slug
      → row.approved ≡ old.approved
      → version.number ≡ max_number page a.revisions + 1
      → version.base ≡ o.base
      → b.revisions ≡ insert id version (adjust_at old.latest_draft supersede a.revisions)
      → Target o a b id page row version

-- The operation stored a new draft under `id`, with its title and body, and made it the draft of its
-- page; no other page changes.
pub record Performs (o : ChangeOperation) (a : Db) (id : Uuid) (b : Db) : Type 0 where
  pub page : Uuid
  pub row : Page
  pub version : Revision
  pub free : lookup id a.revisions ≡ none
  pub stored : lookup id b.revisions ≡ some version
  pub version_page : version.page ≡ page
  pub version_status : version.status ≡ draft
  pub version_title : version.title ≡ trim_space o.content.title
  pub version_body : version.body_md ≡ o.content.body_md
  pub page_stored : lookup page b.pages ≡ some row
  pub page_draft : row.latest_draft ≡ some id
  pub other_pages : (q : Uuid) → q ≢ page → lookup q b.pages ≡ lookup q a.pages
  pub target : Target o a b id page row version

-- One after the other, the operations stored the drafts with these identifiers; the tables of pages
-- and revisions are as the last one left them.
pub data Performed : Db → List ChangeOperation → List Uuid → Db → Type 0 where
  finished : {a b : Db} → b.pages ≡ a.pages → b.revisions ≡ a.revisions → Performed a [] [] b
  and_next :
      {a m b : Db} {o : ChangeOperation} {id : Uuid} {ops : List ChangeOperation} {ids : List Uuid}
      → Performs o a id m
      → Performed m ops ids b
      → Performed a (o ∷ ops) (id ∷ ids) b

pub Performed-still :
    {a b c : Db} {ops : List ChangeOperation} {ids : List Uuid}
    → Performed a ops ids b
    → c.pages ≡ b.pages
    → c.revisions ≡ b.revisions
    → Performed a ops ids c
Performed-still (finished p r) ps rs = finished (ps ∙ p) (rs ∙ r)
Performed-still (and_next first rest) ps rs = and_next first (Performed-still rest ps rs)

pub create_draft-Performs :
    (c : Caller) (o : ChangeOperation) (parent : Option Uuid) (content : RevisionContent) (db : Db)
    (r : Uuid × Uuid × Db)
    → o.operation ≡ create
    → content.title ≡ o.content.title
    → content.body_md ≡ o.content.body_md
    → create_draft c (new_page c o.kind o.concept_kind parent o.slug) content db ≡ ok r
    → Performs o db r.1 r.2
unfolding create_draft set_latest_draft
create_draft-Performs c o parent content db r creating title body h =
    let p = new_page c o.kind o.concept_kind parent o.slug in
    let (page, e1, h1) = >>=-eq-ok (insert_page p db) _ h in
    let (revision, e2, h2) = >>=-eq-ok (insert_revision c page.0 1 none content page.1) _ h1 in
    let at = insert_page-PageInserted p db page e1 in
    let new = insert_revision-Inserted c page.0 1 none content page.1 revision e2 in
    let version = draft_row c page.0 1 none content in
    let pages : revision.1.pages ≡ insert page.0 p db.pages = new.pages ∙ at.pages in
    subst (λ (s : Uuid × Uuid × Db). Performs o db s.1 s.2) (ok-injective h2)
      (record {
        page = page.0;
        row = point_draft revision.0 c.now p;
        version = version;
        free = ap (lookup revision.0) (sym at.revisions) ∙ new.free;
        stored =
            ap (lookup revision.0) new.revisions
            ∙ lookup-insert revision.0 revision.0 version _
            ∙ ground arith;
        version_page = refl;
        version_status = refl;
        version_title = ap trim_space title;
        version_body = body;
        page_stored = rw pages (rw lookup-adjust (rw lookup-insert (ground arith)));
        page_draft = refl;
        other_pages =
            λ q other. rw pages (rw lookup-adjust (rw lookup-insert (ground (arith, other))));
        target =
            new_target creating at.free refl refl refl refl refl
              (new.revisions ∙ ap (insert revision.0 version) at.revisions);
      })

pub write_draft-Performs :
    (c : Caller) (o : ChangeOperation) (page base : Uuid) (old : Page) (content : RevisionContent)
    (db : Db) (r : Uuid × ℕ × Db)
    → o.operation ≡ revise
    → o.page ≡ some page
    → o.base ≡ some base
    → current_revision old ≡ some base
    → lookup page db.pages ≡ some old
    → content.title ≡ o.content.title
    → content.body_md ≡ o.content.body_md
    → write_draft c page old base content db ≡ ok r
    → Performs o db r.0 r.2
unfolding write_draft set_latest_draft
write_draft-Performs c o page base old content db r revising at on current row title body h =
    let number = max_number page db.revisions + 1 in
    let (made, e, h1) =
      >>=-eq-ok
        (insert_revision c page number (some base) content (supersede_draft old.latest_draft db)) _
        h in
    let new = insert_revision-Inserted c page number (some base) content _ made e in
    let version = draft_row c page number (some base) content in
    let rows = revisions-supersede_draft old.latest_draft db in
    let pages : made.1.pages ≡ db.pages = new.pages ∙ pages-supersede_draft old.latest_draft db in
    subst (λ (s : Uuid × ℕ × Db). Performs o db s.0 s.2) (ok-injective h1)
      (record {
        page = page;
        row = point_draft made.0 c.now old;
        version = version;
        free =
            absent old.latest_draft made.0 db.revisions (ap (lookup made.0) (sym rows) ∙ new.free);
        stored =
            ap (lookup made.0) new.revisions ∙ lookup-insert made.0 made.0 version _ ∙ ground arith;
        version_page = refl;
        version_status = refl;
        version_title = ap trim_space title;
        version_body = body;
        page_stored = rw pages (rw lookup-adjust (rw row (ground arith)));
        page_draft = refl;
        other_pages = λ q other. rw pages (rw lookup-adjust (ground (arith, other)));
        target =
            old_target old revising at (on ∙ sym current) row refl refl refl (sym on)
              (new.revisions ∙ ap (insert made.0 version) rows);
      })
