-- ===== src/Wiki/Invariant.antt =====
-- The invariant of the pages and revisions, and that every move keeps it.
pub mod Numbers
pub mod Parents
use viki.Prelude.{
  ℕ, ◌≡◌, refl, sym, ap, ◌∙◌, Bool, true, false, ◌||◌, Option, none, some, is_some, if◌then◌else◌,
  ◌==◌, Table, lookup, insert, adjust, lookup-insert, lookup-adjust, map_option, arith,
}
use mathlib.Core.Path.{subst}
use viki.Model.{Uuid, RevisionStatus, draft, approved, superseded}
use viki.Wiki.State.{Db, Page, Revision}
use viki.Wiki.Save.{supersede}
use viki.Wiki.Pointers.{
  View, InStep, at, demote, demote_draft, retire, promote, grow-InStep, new_draft-InStep,
  approve-InStep,
}
use viki.Wiki.Moves.{
  Moves, still, creates, revises, approves, and_then, Creates, Revises, Approves, point_draft,
  point_approved, adjust_at, retire_row, promote_row,
}

abbrev pub draft_from : Option Page → Option Uuid
draft_from none = none
draft_from (some p) = p.latest_draft

abbrev pub approved_from : Option Page → Option Uuid
approved_from none = none
approved_from (some p) = p.approved

abbrev pub view_from : Option Revision → Option (Uuid × RevisionStatus)
view_from none = none
view_from (some r) = some (r.page, r.status)

abbrev pub draft_of : Table Page → Uuid → Option Uuid
draft_of pages i = draft_from (lookup i pages)

abbrev pub approved_of : Table Page → Uuid → Option Uuid
approved_of pages i = approved_from (lookup i pages)

abbrev pub view_of : Table Revision → View
view_of revisions r = view_from (lookup r revisions)

abbrev pub known_in : Table Page → Uuid → Bool
known_in pages i = is_some (lookup i pages)

-- Pages and revisions are in step.
pub record HasPointers (db : Db) : Type 0 where
  pub in_step :
      InStep (draft_of db.pages) (approved_of db.pages) (view_of db.revisions) (known_in db.pages)

module _ (pages : Table Page) (i r : Uuid) (now : ℕ) (p : Page) (row : lookup i pages ≡ some p)
    (j : Uuid) where
  draft-point_draft :
      draft_of (adjust i (point_draft r now) pages) j
      ≡ (if i == j then some r else draft_of pages j)
  draft-point_draft = rw lookup-adjust (ground arith)

  approved-point_draft : approved_of (adjust i (point_draft r now) pages) j ≡ approved_of pages j
  approved-point_draft = rw lookup-adjust (ground arith)

  pub draft-point_approved :
      draft_of (adjust i (point_approved r now) pages) j
      ≡ (if i == j then none else draft_of pages j)
  draft-point_approved = rw lookup-adjust (ground arith)

  pub approved-point_approved :
      approved_of (adjust i (point_approved r now) pages) j
      ≡ (if i == j then some r else approved_of pages j)
  approved-point_approved = rw lookup-adjust (ground arith)

known-adjust :
    (pages : Table Page) (i : Uuid) (f : Page → Page) (j : Uuid)
    → known_in (adjust i f pages) j ≡ known_in pages j
known-adjust pages i f j = rw lookup-adjust (ground arith)

module _ (revisions : Table Revision) (q : Uuid) where
  view-supersede :
      (d : Option Uuid)
      → view_of (adjust_at d supersede revisions) q ≡ at d demote (view_of revisions) q
  view-supersede none = refl
  view-supersede (some d) = rw lookup-adjust (ground arith)

  pub view-retire :
      (d : Option Uuid)
      → view_of (adjust_at d retire_row revisions) q ≡ at d retire (view_of revisions) q
  view-retire none = refl
  view-retire (some d) = rw lookup-adjust (ground arith)

  pub view-promote :
      (r : Uuid) (now : ℕ)
      → view_of (adjust r (promote_row now) revisions) q ≡ at (some r) promote (view_of revisions) q
  view-promote r now = rw lookup-adjust (ground arith)

  view-insert :
      (r : Uuid) (v : Revision)
      → view_of (insert r v revisions) q
        ≡ (if r == q then some (v.page, v.status) else view_of revisions q)
  view-insert r v = rw lookup-insert (ground arith)

absent_before :
    (t : Table Revision) (d : Option Uuid) (f : Revision → Revision) (r : Uuid)
    → lookup r (adjust_at d f t) ≡ none
    → view_of t r ≡ none
absent_before t none f r h = rw h
absent_before t (some d) f r h = ground (arith, lookup-adjust d r f t)

Revises-HasPointers : {a b : Db} → Revises a b → HasPointers a → HasPointers b
Revises-HasPointers {a} {b} m h =
    let drafted =
      new_draft-InStep h.in_step m.page m.revision (draft_of b.pages) (approved_of b.pages)
        (view_of b.revisions)
        (absent_before a.revisions m.row.latest_draft supersede m.revision m.new_revision)
        (ap is_some m.old_page)
        (λ j.
          ap (λ t. draft_of t j) m.pages
          ∙ draft-point_draft a.pages m.page m.revision m.now m.row m.old_page j)
        (λ j.
          ap (λ t. approved_of t j) m.pages
          ∙ approved-point_draft a.pages m.page m.revision m.now m.row m.old_page j)
        (λ q. ground (
          arith,
          ap (λ t. view_of t q) m.revisions,
          view-insert (adjust_at m.row.latest_draft supersede a.revisions) q m.revision m.content,
          view-supersede a.revisions q m.row.latest_draft,
          ap draft_from m.old_page,
          m.content_page,
          m.content_status,
        )) in
    record {
      in_step =
          grow-InStep drafted _ _ _ (known_in b.pages) (λ j. refl) (λ j. refl) (λ q. refl)
            (λ j k. ap (λ t. known_in t j) m.pages ∙ known-adjust a.pages m.page _ j ∙ k);
    }

-- A page that is only inserted has no pointers yet.
inserted_page :
    (a : Db) (i : Uuid) (row : Page)
    → HasPointers a
    → lookup i a.pages ≡ none
    → row.latest_draft ≡ none
    → row.approved ≡ none
    → let pages = insert i row a.pages in
      InStep (draft_of pages) (approved_of pages) (view_of a.revisions) (known_in pages)
inserted_page a i row h new no_draft no_approved =
    grow-InStep h.in_step _ _ _ _ (λ j. ground (arith, lookup-insert i j row a.pages))
      (λ j. ground (arith, lookup-insert i j row a.pages)) (λ q. refl)
      (λ j k. ground (arith, lookup-insert i j row a.pages))

Creates-HasPointers : {a b : Db} → Creates a b → HasPointers a → HasPointers b
Creates-HasPointers {a} {b} m h =
    let pages = insert m.page m.row a.pages in
    let row : lookup m.page pages ≡ some m.row = rw lookup-insert (ground arith) in
    let drafted =
      new_draft-InStep (inserted_page a m.page m.row h m.new_page m.no_draft m.not_approved) m.page
        m.revision (draft_of b.pages) (approved_of b.pages) (view_of b.revisions)
        (ap view_from m.new_revision) (ap is_some row)
        (λ j.
          ap (λ t. draft_of t j) m.pages
          ∙ draft-point_draft pages m.page m.revision m.now m.row row j)
        (λ j.
          ap (λ t. approved_of t j) m.pages
          ∙ approved-point_draft pages m.page m.revision m.now m.row row j)
        (λ q. ground (
          arith,
          ap (λ t. view_of t q) m.revisions,
          view-insert a.revisions q m.revision m.content,
          ap draft_from row,
          m.no_draft,
          m.content_page,
          m.content_status,
        )) in
    record {
      in_step =
          grow-InStep drafted _ _ _ (known_in b.pages) (λ j. refl) (λ j. refl) (λ q. refl)
            (λ j k. ap (λ t. known_in t j) m.pages ∙ known-adjust pages m.page _ j ∙ k);
    }

Approves-HasPointers : {a b : Db} → Approves a b → HasPointers a → HasPointers b
Approves-HasPointers {a} {b} m h =
    let done =
      approve-InStep h.in_step m.page m.revision (draft_of b.pages) (approved_of b.pages)
        (view_of b.revisions) (ap draft_from m.old_page ∙ m.current)
        (λ j.
          ap (λ t. draft_of t j) m.pages
          ∙ draft-point_approved a.pages m.page m.revision m.now m.row m.old_page j)
        (λ j.
          ap (λ t. approved_of t j) m.pages
          ∙ approved-point_approved a.pages m.page m.revision m.now m.row m.old_page j)
        (λ q. ground (
          arith,
          ap (λ t. view_of t q) m.revisions,
          view-promote (adjust_at m.row.approved retire_row a.revisions) q m.revision m.now,
          view-retire a.revisions q m.row.approved,
          ap approved_from m.old_page,
        )) in
    record {
      in_step =
          grow-InStep done _ _ _ (known_in b.pages) (λ j. refl) (λ j. refl) (λ q. refl)
            (λ j k. ap (λ t. known_in t j) m.pages ∙ known-adjust a.pages m.page _ j ∙ k);
    }

-- The pointers of the pages and the statuses of the revisions stay in step.
pub Moves-HasPointers : {a b : Db} → Moves a b → HasPointers a → HasPointers b
Moves-HasPointers {a} {b} (still p r) h = record {
  in_step =
      grow-InStep h.in_step _ _ _ _ (λ j. ap (λ t. draft_of t j) p)
        (λ j. ap (λ t. approved_of t j) p) (λ q. ap (λ t. view_of t q) r)
        (λ j k. ap (λ t. known_in t j) p ∙ k);
}
Moves-HasPointers (creates m) h = Creates-HasPointers m h
Moves-HasPointers (revises m) h = Revises-HasPointers m h
Moves-HasPointers (approves m) h = Approves-HasPointers m h
Moves-HasPointers (and_then m n) h = Moves-HasPointers n (Moves-HasPointers m h)
