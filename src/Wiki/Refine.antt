-- ===== src/Wiki/Refine.antt =====
-- Every operation of the wiki that returns makes a sequence of the abstract moves.
pub mod Update
pub mod Changes
pub mod Others
use viki.Prelude.{
  ℕ, suc, ◌+◌, ◌≡◌, refl, sym, ap, ◌∙◌, ◌⊎◌, inl, inr, Bool, true, false, not, ◌&&◌, ◌||◌,
  Bool-cases, Option, none, some, List, [], ◌∷◌, Text, codes, is_some, if◌then◌else◌, ◌==◌, opt_eq,
  Table, lookup, insert, adjust, lookup-adjust, lookup-insert, Result, ok, err, ◌>>=◌, ◌>>◌,
  reject_if, >>=-eq-ok, reject_if->>, ok-injective, arith,
}
use mathlib.Core.Path.{subst}
use viki.Model.{Uuid, PageKind, scenario, ConceptKind, RevisionContent, DevelopmentStatus}
use viki.Pages.{validate_page_input}
use viki.Pages.Slug.{is_slug}
use viki.Wiki.State.{
  Db, Page, Revision, Caller, Error, read_only, bad_slug, scenario_without_feature, input, as_error,
  Comment, Objection,
}
use viki.Wiki.Writes.{
  is_scenario, is_feature, repository_managed, audit, page_of, validate_parent, insert_page,
  insert_draft, insert_revision, set_latest_draft, fresh,
}
use viki.Wiki.Create.{
  InitialScenario, CreatePageInput, new_page, create_draft, check_initial, create_initial,
  create_page,
}
use viki.Wiki.Save.{save_revision, write_draft, supersede_draft, current_revision, max_number}
use viki.Wiki.Approve.{approve_revision}
use viki.Wiki.Frame.{Inserted, insert_revision-Inserted}
use viki.Wiki.Moves.{
  Moves, still, creates, revises, approves, and_then, Creates, Revises, Approves, parent_page,
  is_feature_page, is_approved_page,
}

-- INSERT INTO pages that succeeded.
pub record PageInserted (p : Page) (db : Db) (r : Uuid × Db) : Type 0 where
  pub free : lookup r.0 db.pages ≡ none
  pub pages : r.1.pages ≡ insert r.0 p db.pages
  pub revisions : r.1.revisions ≡ db.revisions

pub insert_page-PageInserted :
    (p : Page) (db : Db) (r : Uuid × Db) → insert_page p db ≡ ok r → PageInserted p db r
unfolding insert_page
insert_page-PageInserted p db r h = ground arith

-- A page in the hierarchy: the parent of a scenario is a feature.
abbrev InHierarchy : Page → Db → Type 0
InHierarchy p db = is_scenario p.kind ≡ true → is_feature_page (parent_page p db.pages) ≡ true

-- The insert of a page and its first draft, and what the page's row becomes.
pub create_draft-Creates :
    (c : Caller) (p : Page) (content : RevisionContent) (db : Db) (r : Uuid × Uuid × Db)
    → p.latest_draft ≡ none
    → p.approved ≡ none
    → InHierarchy p db
    → create_draft c p content db ≡ ok r
    → Creates db r.2
unfolding create_draft set_latest_draft
create_draft-Creates c p content db r no_draft no_approved hierarchy h =
    let (page, e1, h1) = >>=-eq-ok (insert_page p db) _ h in
    let (revision, e2, h2) = >>=-eq-ok (insert_revision c page.0 1 none content page.1) _ h1 in
    let at = insert_page-PageInserted p db page e1 in
    let row = insert_revision-Inserted c page.0 1 none content page.1 revision e2 in
    subst (λ (s : Uuid × Uuid × Db). Creates db s.2) (ok-injective h2)
      (record {
        page = page.0;
        revision = revision.0;
        row = p;
        content = _;
        now = c.now;
        new_page = at.free;
        new_revision = ap (lookup revision.0) (sym at.revisions) ∙ row.free;
        no_draft = no_draft;
        not_approved = no_approved;
        in_hierarchy = hierarchy;
        content_page = refl;
        content_status = refl;
        pages = ap (adjust page.0 _) (row.pages ∙ at.pages);
        revisions = row.revisions ∙ ap (insert revision.0 _) at.revisions;
      })

pub create_draft-row :
    (c : Caller) (p : Page) (content : RevisionContent) (db : Db) (r : Uuid × Uuid × Db)
    → create_draft c p content db ≡ ok r
    → lookup r.0 r.2.pages ≡ some (record p { latest_draft = some r.1; updated_at = c.now })
unfolding create_draft set_latest_draft
create_draft-row c p content db r h =
    let (page, e1, h1) = >>=-eq-ok (insert_page p db) _ h in
    let (revision, e2, h2) = >>=-eq-ok (insert_revision c page.0 1 none content page.1) _ h1 in
    let at = insert_page-PageInserted p db page e1 in
    let row = insert_revision-Inserted c page.0 1 none content page.1 revision e2 in
    let same : revision.1.pages ≡ insert page.0 p db.pages = row.pages ∙ at.pages in
    subst
      (λ (s : Uuid × Uuid × Db).
        lookup s.0 s.2.pages ≡ some (record p { latest_draft = some s.1; updated_at = c.now }))
      (ok-injective h2) (rw same (rw lookup-adjust (rw lookup-insert (ground arith))))

pub validate_parent_lem :
    (c : Caller) (kind : PageKind) (k : Option ConceptKind) (parent : Option Uuid) (slug : Text)
    (db : Db) {u : Unit {0}}
    → validate_parent c kind parent db ≡ ok u
    → InHierarchy (new_page c kind k parent slug) db
unfolding validate_parent
validate_parent_lem c kind k parent slug db h s = ground arith

created_initial :
    (c : Caller) (page : Uuid) (i : Option InitialScenario) (db db' : Db) (p : Page)
    → lookup page db.pages ≡ some p
    → (is_some i ≡ true → is_feature p.kind ≡ true)
    → create_initial c page i db ≡ ok db'
    → Moves db db'
unfolding audit
created_initial c page none db db' p row feature h =
    subst (Moves db) (ok-injective h) (still refl refl)
created_initial c page (some i) db db' p row feature h =
    let child = new_page c scenario none (some page) i.slug in
    let (made, e, h1) = >>=-eq-ok (create_draft c child i.content db) _ h in
    let fits : InHierarchy child db = λ _. rw row (feature refl) in
    subst (Moves db) (ok-injective h1) (
      and_then (creates (create_draft-Creates c child i.content db made refl refl fits e))
        (still refl refl))

check_initial_lem :
    (kind : PageKind) (i : Option InitialScenario) {u : Unit {0}}
    → check_initial kind i ≡ ok u
    → is_some i ≡ true
    → is_feature kind ≡ true
check_initial_lem kind none h s = cc
check_initial_lem kind (some i) h s =
    go (is_feature kind) (reject_if->> (not (is_feature kind)) scenario_without_feature _ h).0
  where
    go : (b : Bool) → not b ≡ false → b ≡ true
    go true e = refl
    go false e = cc

-- CreatePage creates the page with its draft, and then perhaps a scenario under it.
pub create_page-Moves :
    (c : Caller) (i : CreatePageInput) (db : Db) (r : Uuid × Db)
    → create_page c i db ≡ ok r
    → Moves db r.1
unfolding create_page audit
create_page-Moves c i db r h0 =
    let (_, h1) = reject_if->> (repository_managed db c.organization) read_only _ h0 in
    let (_, h2) = reject_if->> (not (is_slug i.slug)) bad_slug _ h1 in
    let (_, _, h3) =
      >>=-eq-ok (as_error input (validate_page_input i.kind i.concept_kind i.parent i.content)) _
        h2 in
    let (_, checked, h4) = >>=-eq-ok (check_initial i.kind i.initial) _ h3 in
    let (_, parent, h5) = >>=-eq-ok (validate_parent c i.kind i.parent db) _ h4 in
    let p = new_page c i.kind i.concept_kind i.parent i.slug in
    let (made, e, h6) = >>=-eq-ok (create_draft c p i.content db) _ h5 in
    let (last, e7, h7) = >>=-eq-ok (create_initial c made.0 i.initial _) _ h6 in
    let first =
      create_draft-Creates c p i.content db made refl refl
        (validate_parent_lem c i.kind i.concept_kind i.parent i.slug db parent) e in
    subst (λ (s : Uuid × Db). Moves db s.1) (ok-injective h7)
      (and_then (creates first) (
        and_then {b = audit c (codes "page.created") (codes "page") made.0 made.2} (still refl refl)
          (created_initial c made.0 i.initial _ last _ (create_draft-row c p i.content db made e)
            (check_initial_lem i.kind i.initial checked) e7)))
