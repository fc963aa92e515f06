-- ===== src/Wiki/Refine/Update.antt =====
-- The moves of SaveRevision and of ApproveRevision.
use viki.Prelude.{
  ℕ, ◌+◌, ◌≡◌, refl, sym, ap, ◌∙◌, true, not, ◌&&◌, Option, none, some, codes, is_some, opt_eq,
  opt_eq_iff, lookup, insert, adjust, Result, ok, err, >>=-eq-ok, reject_if->>, ok-injective, arith,
}
use mathlib.Core.Path.{subst}
use viki.Model.{Uuid, RevisionContent}
use viki.Pages.{validate_page_input}
use viki.Governance.{can_approve, parent_feature_not_approved}
use viki.Wiki.State.{Db, Page, Caller, read_only, conflict, input, policy, as_error}
use viki.Wiki.Writes.{
  is_scenario, repository_managed, audit, page_of, insert_revision, set_latest_draft,
}
use viki.Wiki.Save.{
  save_revision, write_draft, supersede, supersede_draft, current_revision, is_current, max_number,
  or_not_found,
}
use viki.Wiki.Approve.{
  approve_revision, revision_page, parent_approved, open_objections, mark_approved, queue_scenario,
  supersede_approved,
}
use viki.Wiki.Frame.{insert_revision-Inserted}
use viki.Wiki.Moves.{
  Moves, still, revises, and_then, Revises, Approves, parent_page, is_approved_page, adjust_at,
  retire_row, point_approved, promote_row,
}

pub pages-supersede_draft : (d : Option Uuid) (db : Db) → (supersede_draft d db).pages ≡ db.pages
unfolding supersede_draft
pages-supersede_draft none db = refl
pages-supersede_draft (some d) db = refl

pub revisions-supersede_draft :
    (d : Option Uuid) (db : Db)
    → (supersede_draft d db).revisions ≡ adjust_at d supersede db.revisions
unfolding supersede_draft
revisions-supersede_draft none db = refl
revisions-supersede_draft (some d) db = refl

pub page_of-lookup :
    (c : Caller) (id : Uuid) (db : Db) (p : Page)
    → page_of c id db ≡ some p
    → lookup id db.pages ≡ some p
unfolding page_of
page_of-lookup c id db p h = ground arith

-- The writes of a new draft, which SaveRevision and the assistant's revisions share.
pub write_draft-Revises :
    (c : Caller) (id : Uuid) (p : Page) (base : Uuid) (content : RevisionContent) (db : Db)
    (r : Uuid × ℕ × Db)
    → lookup id db.pages ≡ some p
    → write_draft c id p base content db ≡ ok r
    → Revises db r.2
unfolding write_draft set_latest_draft
write_draft-Revises c id p base content db r row h =
    let number = max_number id db.revisions + 1 in
    let (made, e, h1) =
      >>=-eq-ok
        (insert_revision c id number (some base) content (supersede_draft p.latest_draft db)) _ h in
    let new = insert_revision-Inserted c id number (some base) content _ made e in
    let old = revisions-supersede_draft p.latest_draft db in
    subst (λ (s : Uuid × ℕ × Db). Revises db s.2) (ok-injective h1)
      (record {
        page = id;
        revision = made.0;
        row = p;
        content = _;
        now = c.now;
        old_page = row;
        new_revision = ap (lookup made.0) (sym old) ∙ new.free;
        new_number = ap (viki.Wiki.Writes.revision_conflicts id number) (sym old) ∙ new.fits;
        content_page = refl;
        content_status = refl;
        pages = ap (adjust id _) (new.pages ∙ pages-supersede_draft p.latest_draft db);
        revisions = new.revisions ∙ ap (insert made.0 _) old;
      })

pub or_not_found-eq-ok : (o : Option Page) (p : Page) → or_not_found o ≡ ok p → o ≡ some p
or_not_found-eq-ok o p h = ground arith

-- SaveRevision revises the page.
pub save_revision-Moves :
    (c : Caller) (id base : Uuid) (content : RevisionContent) (db : Db) (r : Uuid × Db)
    → save_revision c id base content db ≡ ok r
    → Moves db r.1
unfolding save_revision audit
save_revision-Moves c id base content db r h0 =
    let (_, h1) = reject_if->> (repository_managed db c.organization) read_only _ h0 in
    let (p, found, h2) = >>=-eq-ok (or_not_found (page_of c id db)) _ h1 in
    let (_, h3) = reject_if->> (not (is_current (current_revision p) base)) conflict _ h2 in
    let (_, _, h4) =
      >>=-eq-ok (as_error input (validate_page_input p.kind p.concept_kind p.parent content)) _
        h3 in
    let (made, e, h5) = >>=-eq-ok (write_draft c id p base content db) _ h4 in
    let row = page_of-lookup c id db p (or_not_found-eq-ok _ p found) in
    subst (λ (s : Uuid × Db). Moves db s.1) (ok-injective h5)
      (and_then (revises (write_draft-Revises c id p base content db made row e)) (still refl refl))

pub revision_page-lookup :
    (c : Caller) (revision : Uuid) (db : Db) (found : Uuid × Page)
    → revision_page c revision db ≡ ok found
    → lookup found.0 db.pages ≡ some found.1
unfolding revision_page page_of
revision_page-lookup c revision db found h = ground arith

pub parent_approved_lem :
    (p : Page) (db : Db)
    → is_some (parent_approved p db) ≡ is_approved_page (parent_page p db.pages)
parent_approved_lem p db = ground arith

queue_scenario_keeps :
    (c : Caller) (p : Page) (revision : Uuid) (db db' : Db)
    → queue_scenario c p revision db ≡ ok db'
    → (db'.pages ≡ db.pages) × (db'.revisions ≡ db.revisions)
unfolding queue_scenario
queue_scenario_keeps c p revision db db' h = ground arith

mark_approved_rows :
    (c : Caller) (id : Uuid) (p : Page) (revision : Uuid) (db : Db)
    → ((mark_approved c id p revision db).pages
        ≡ adjust id (point_approved revision c.now) db.pages)
      × ((mark_approved c id p revision db).revisions
          ≡ adjust revision (promote_row c.now) (adjust_at p.approved retire_row db.revisions))
unfolding mark_approved
mark_approved_rows c id p revision db = go p.approved
  where
    go :
        (a : Option Uuid)
        → (adjust id (point_approved revision c.now) (supersede_approved a db).pages
            ≡ adjust id (point_approved revision c.now) db.pages)
          × (adjust revision (promote_row c.now) (supersede_approved a db).revisions
              ≡ adjust revision (promote_row c.now) (adjust_at a retire_row db.revisions))
    go none = (refl, refl)
    go (some a) = (refl, refl)

-- What ApproveRevision checked, and the writes that it made.
pub record Approved (c : Caller) (revision : Uuid) (db : Db) (r : Uuid × Db) : Type 0 where
  pub row : Page
  pub written : Db
  pub found : revision_page c revision db ≡ ok (r.0, row)
  pub current : row.latest_draft ≡ some revision
  pub parent_first :
      is_scenario row.kind ≡ true → is_approved_page (parent_page row db.pages) ≡ true
  pub unblocked : can_approve (open_objections r.0 db.objections) ≡ ok tt
  pub writes : queue_scenario c row revision (mark_approved c r.0 row revision db) ≡ ok written
  pub after : audit c (codes "revision.approved") (codes "revision") revision written ≡ r.1

as_policy_ok :
    (m : Result viki.Governance.PolicyError (Unit {0})) {u : Unit {0}}
    → as_error policy m ≡ ok u
    → m ≡ ok tt
as_policy_ok (ok u) h = refl
as_policy_ok (err e) h = cc

pub approve_revision-Approved :
    (c : Caller) (revision : Uuid) (db : Db) (r : Uuid × Db)
    → approve_revision c revision db ≡ ok r
    → Approved c revision db r
unfolding approve_revision
approve_revision-Approved c revision db r h0 =
    let (_, h1) = reject_if->> (repository_managed db c.organization) read_only _ h0 in
    let (found, e1, h2) = >>=-eq-ok (revision_page c revision db) _ h1 in
    let (cur, h3) =
      reject_if->> (not (opt_eq found.1.latest_draft (some revision))) conflict _ h2 in
    let (par, h4) =
      reject_if->> (is_scenario found.1.kind && not (is_some (parent_approved found.1 db)))
        (policy parent_feature_not_approved) _ h3 in
    let (_, free, h5) =
      >>=-eq-ok (as_error policy (can_approve (open_objections found.0 db.objections))) _ h4 in
    let (written, w, h6) =
      >>=-eq-ok (queue_scenario c found.1 revision (mark_approved c found.0 found.1 revision db)) _
        h5 in
    subst (Approved c revision db) (ok-injective h6) (record {
      row = found.1;
      written = written;
      found = e1;
      current = ground (arith, cur, opt_eq_iff found.1.latest_draft (some revision));
      parent_first = λ s. ground (arith, par, parent_approved_lem found.1 db, s);
      unblocked = as_policy_ok _ free;
      writes = w;
      after = refl;
    })

-- The tables of pages and revisions after an approval.
pub approved_tables :
    (c : Caller) (revision : Uuid) (db : Db) (r : Uuid × Db) (a : Approved c revision db r)
    → (r.1.pages ≡ adjust r.0 (point_approved revision c.now) db.pages)
      × (r.1.revisions
          ≡ adjust revision (promote_row c.now) (adjust_at a.row.approved retire_row db.revisions))
unfolding audit
approved_tables c revision db r a =
    let (ps, rs) = queue_scenario_keeps c a.row revision _ a.written a.writes in
    let (mp, mr) = mark_approved_rows c r.0 a.row revision db in
    (
      ap (λ (d : Db). d.pages) (sym a.after) ∙ ps ∙ mp,
      ap (λ (d : Db). d.revisions) (sym a.after) ∙ rs ∙ mr,
    )

pub approve_revision-Approves :
    (c : Caller) (revision : Uuid) (db : Db) (r : Uuid × Db)
    → Approved c revision db r
    → Approves db r.1
approve_revision-Approves c revision db r a =
    let (ps, rs) = approved_tables c revision db r a in
    record {
      page = r.0;
      revision = revision;
      row = a.row;
      now = c.now;
      old_page = revision_page-lookup c revision db (r.0, a.row) a.found;
      current = a.current;
      parent_first = a.parent_first;
      pages = ps;
      revisions = rs;
    }
