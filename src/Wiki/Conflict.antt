-- ===== src/Wiki/Conflict.antt =====
-- Saving on a base that is no longer current.
use viki.Prelude.{
  ℕ, ◌+◌, ◌≡◌, refl, sym, ap, ◌∙◌, ◌≢◌, false, not, Option, none, some, opt_eq_iff, ◌==◌, Table,
  lookup, adjust, lookup-adjust, lookup-insert, ok, err, reject_if->>, >>=-eq-ok, ok-injective,
  arith,
}
use mathlib.Core.Path.{subst}
use viki.Model.{Uuid, draft, RevisionContent}
use viki.Pages.{validate_page_input}
use viki.Wiki.State.{Db, Page, Revision, Caller, conflict, read_only, input, as_error}
use viki.Wiki.Writes.{page_of, repository_managed, audit, insert_revision, set_latest_draft}
use viki.Wiki.Save.{
  save_revision, write_draft, current_revision, is_current, supersede_draft, supersede, max_number,
  or_not_found,
}
use viki.Wiki.Frame.{draft_row, insert_revision-Inserted}
use viki.Wiki.Moves.{adjust_at, point_draft}
use viki.Wiki.Refine.Update.{
  or_not_found-eq-ok, page_of-lookup, revisions-supersede_draft, pages-supersede_draft,
}
use viki.Wiki.Invariant.{view_from, draft_from, approved_from}
use viki.Wiki.Lifecycle.{IsConsistent}

-- What the writes of a new draft leave: the revision is the page's draft, with the next number and
-- the given base.
pub record Drafted (c : Caller) (id base : Uuid) (row : Page) (db : Db) (revision : Uuid) (db' : Db)
    : Type 0 where
  pub new : lookup revision (adjust_at row.latest_draft supersede db.revisions) ≡ none
  pub managed : db'.managed ≡ db.managed
  pub pages : db'.pages ≡ adjust id (point_draft revision c.now) db.pages
  pub version : Revision
  pub stored : lookup revision db'.revisions ≡ some version
  pub version_page : version.page ≡ id
  pub version_status : version.status ≡ draft
  pub version_number : version.number ≡ max_number id db.revisions + 1
  pub version_base : version.base ≡ some base

managed-supersede_draft : (d : Option Uuid) (db : Db) → (supersede_draft d db).managed ≡ db.managed
unfolding supersede_draft
managed-supersede_draft none db = refl
managed-supersede_draft (some d) db = refl

write_draft-Drafted :
    (c : Caller) (id : Uuid) (p : Page) (base : Uuid) (content : RevisionContent) (db : Db)
    (r : Uuid × ℕ × Db)
    → write_draft c id p base content db ≡ ok r
    → Drafted c id base p db r.0 r.2
unfolding write_draft set_latest_draft
write_draft-Drafted c id p base content db r h =
    let number = max_number id db.revisions + 1 in
    let (ins, e, h1) =
      >>=-eq-ok
        (insert_revision c id number (some base) content (supersede_draft p.latest_draft db)) _ h in
    let new = insert_revision-Inserted c id number (some base) content _ ins e in
    let row = draft_row c id number (some base) content in
    let old = revisions-supersede_draft p.latest_draft db in
    subst (λ (s : Uuid × ℕ × Db). Drafted c id base p db s.0 s.2) (ok-injective h1)
      (record {
        new = ap (lookup ins.0) (sym old) ∙ new.free;
        managed = new.managed ∙ managed-supersede_draft p.latest_draft db;
        pages = ap (adjust id _) (new.pages ∙ pages-supersede_draft p.latest_draft db);
        version = row;
        stored = ap (lookup ins.0) new.revisions ∙ lookup-insert ins.0 ins.0 row _ ∙ ground arith;
        version_page = refl;
        version_status = refl;
        version_number = refl;
        version_base = refl;
      })

-- A save that succeeded was based on the page's current revision.
pub record Saved (c : Caller) (id base : Uuid) (db : Db) (r : Uuid × Db) : Type 0 where
  pub unmanaged : repository_managed db c.organization ≡ false
  pub row : Page
  pub found : page_of c id db ≡ some row
  pub current : current_revision row ≡ some base
  pub drafted : Drafted c id base row db r.0 r.1

-- A save that succeeds was on the page's current revision, its draft or else its approved one. It
-- leaves a new draft, with the next number and this base, as the page's draft.
pub save_revision-Saved :
    (c : Caller) (id base : Uuid) (content : RevisionContent) (db : Db) (r : Uuid × Db)
    → save_revision c id base content db ≡ ok r
    → Saved c id base db r
unfolding save_revision audit
save_revision-Saved c id base content db r h0 =
    let (free, h1) = reject_if->> (repository_managed db c.organization) read_only _ h0 in
    let (p, found, h2) = >>=-eq-ok (or_not_found (page_of c id db)) _ h1 in
    let (cur, h3) = reject_if->> (not (is_current (current_revision p) base)) conflict _ h2 in
    let (_, _, h4) =
      >>=-eq-ok (as_error input (validate_page_input p.kind p.concept_kind p.parent content)) _
        h3 in
    let (made, e, h5) = >>=-eq-ok (write_draft c id p base content db) _ h4 in
    let d = write_draft-Drafted c id p base content db made e in
    subst (Saved c id base db) (ok-injective h5) (record {
      unmanaged = free;
      row = p;
      found = or_not_found-eq-ok _ p found;
      current = ground (arith, cur, opt_eq_iff (current_revision p) (some base));
      drafted = record {
        new = d.new;
        managed = d.managed;
        pages = d.pages;
        version = d.version;
        stored = d.stored;
        version_page = d.version_page;
        version_status = d.version_status;
        version_number = d.version_number;
        version_base = d.version_base;
      };
    })

-- The current revision of a page is stored.
current_stored :
    (c : Caller) (id base : Uuid) (db : Db) (row : Page)
    → IsConsistent db
    → page_of c id db ≡ some row
    → current_revision row ≡ some base
    → lookup base db.revisions ≢ none
current_stored c id base db row good found current gone =
    let p = good.pointers.in_step in
    let at = page_of-lookup c id db row found in
    ground (
      arith,
      current,
      ap draft_from at,
      ap approved_from at,
      p.draft_points id base,
      p.approved_points id base,
      ap view_from gone,
    )

pub absent :
    (d : Option Uuid) (q : Uuid) (t : Table Revision)
    → lookup q (adjust_at d supersede t) ≡ none
    → lookup q t ≡ none
absent none q t h = h
absent (some d) q t h = ground (arith, h, lookup-adjust d q supersede t)

-- The page as the next caller finds it.
page_after :
    (c d : Caller) (id : Uuid) (db db' : Db) (row : Page) (revision : Uuid)
    → d.organization ≡ c.organization
    → page_of c id db ≡ some row
    → db'.pages ≡ adjust id (point_draft revision c.now) db.pages
    → page_of d id db' ≡ some (point_draft revision c.now row)
unfolding page_of
page_after c d id db db' row revision org found pages = ground (
  arith,
  org,
  found,
  ap (lookup id) pages,
  lookup-adjust id id (point_draft revision c.now) db.pages,
)

managed_same :
    (c d : Caller) (db db' : Db)
    → d.organization ≡ c.organization
    → db'.managed ≡ db.managed
    → repository_managed db c.organization ≡ false
    → repository_managed db' d.organization ≡ false
unfolding repository_managed
managed_same c d db db' org same h = rw (same, org) h

-- Of two saves on the same base the first wins: after one that succeeds in a consistent database, a
-- second one by anybody in
-- the organization is refused with a conflict.
pub save_revision-conflict :
    (c d : Caller) (id base : Uuid) (content other : RevisionContent) (db : Db) (r : Uuid × Db)
    → IsConsistent db
    → d.organization ≡ c.organization
    → save_revision c id base content db ≡ ok r
    → save_revision d id base other r.1 ≡ err conflict
unfolding save_revision
save_revision-conflict c d id base content other db r good org h =
    let s = save_revision-Saved c id base content db r h in
    let now = s.drafted in
    let fresh : r.0 ≢ base = λ e. current_stored c id base db s.row good s.found s.current (
      absent s.row.latest_draft base db.revisions (
        subst (λ q. lookup q (adjust_at s.row.latest_draft supersede db.revisions) ≡ none) e
          now.new)) in
    let page = page_after c d id db r.1 s.row r.0 org s.found now.pages in
    let unmanaged : repository_managed r.1 d.organization ≡ false =
      managed_same c d db r.1 org now.managed s.unmanaged in
    let other_base : (r.0 == base) ≡ false = ground (arith, fresh) in
    rw (unmanaged, page) (rw other_base refl)
