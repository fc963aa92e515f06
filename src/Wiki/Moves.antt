-- ===== src/Wiki/Moves.antt =====
-- The abstract moves of the tables of pages and revisions. An operation of the wiki makes a sequence
-- of them (Wiki/Refine.antt), and each one keeps the invariant (Wiki/Invariant.antt).
use viki.Prelude.{
  ℕ, ◌≡◌, Bool, true, false, Option, none, some, is_some, Table, lookup, insert, adjust,
}
use viki.Model.{Uuid, draft, approved, superseded}
use viki.Wiki.State.{Db, Page, Revision}
use viki.Wiki.Writes.{is_scenario, is_feature, revision_conflicts}
use viki.Wiki.Save.{supersede}

-- The page that a page's parent names.
abbrev pub parent_page : Page → Table Page → Option Page
parent_page p pages = elim p.parent [ none ↦ none | some q ↦ lookup q pages ]

abbrev pub is_feature_page : Option Page → Bool
is_feature_page none = false
is_feature_page (some q) = is_feature q.kind

abbrev pub is_approved_page : Option Page → Bool
is_approved_page none = false
is_approved_page (some q) = is_some q.approved

abbrev pub point_draft : Uuid → ℕ → Page → Page
point_draft r now p = record p { latest_draft = some r; updated_at = now }

abbrev pub point_approved : Uuid → ℕ → Page → Page
point_approved r now p = record p { approved = some r; latest_draft = none; updated_at = now }

abbrev pub adjust_at : Option Uuid → (Revision → Revision) → Table Revision → Table Revision
adjust_at none f t = t
adjust_at (some k) f t = adjust k f t

abbrev pub retire_row : Revision → Revision
retire_row r = record r { status = superseded }

abbrev pub promote_row : ℕ → Revision → Revision
promote_row now r = record r { status = approved; approved_at = some now }

-- A new page with its first draft.
pub record Creates (a b : Db) : Type 0 where
  pub page : Uuid
  pub revision : Uuid
  pub row : Page
  pub content : Revision
  pub now : ℕ
  pub new_page : lookup page a.pages ≡ none
  pub new_revision : lookup revision a.revisions ≡ none
  pub no_draft : row.latest_draft ≡ none
  pub not_approved : row.approved ≡ none
  pub in_hierarchy : is_scenario row.kind ≡ true → is_feature_page (parent_page row a.pages) ≡ true
  pub content_page : content.page ≡ page
  pub content_status : content.status ≡ draft
  pub pages : b.pages ≡ adjust page (point_draft revision now) (insert page row a.pages)
  pub revisions : b.revisions ≡ insert revision content a.revisions

-- A new draft of a page, with a number that the page does not have; an old draft is superseded.
pub record Revises (a b : Db) : Type 0 where
  pub page : Uuid
  pub revision : Uuid
  pub row : Page
  pub content : Revision
  pub now : ℕ
  pub old_page : lookup page a.pages ≡ some row
  pub new_revision : lookup revision (adjust_at row.latest_draft supersede a.revisions) ≡ none
  pub new_number :
      revision_conflicts page content.number (adjust_at row.latest_draft supersede a.revisions)
      ≡ false
  pub content_page : content.page ≡ page
  pub content_status : content.status ≡ draft
  pub pages : b.pages ≡ adjust page (point_draft revision now) a.pages
  pub revisions :
      b.revisions ≡ insert revision content (adjust_at row.latest_draft supersede a.revisions)

-- The draft of a page becomes its approved revision; a scenario's parent has one.
pub record Approves (a b : Db) : Type 0 where
  pub page : Uuid
  pub revision : Uuid
  pub row : Page
  pub now : ℕ
  pub old_page : lookup page a.pages ≡ some row
  pub current : row.latest_draft ≡ some revision
  pub parent_first : is_scenario row.kind ≡ true → is_approved_page (parent_page row a.pages) ≡ true
  pub pages : b.pages ≡ adjust page (point_approved revision now) a.pages
  pub revisions :
      b.revisions
      ≡ adjust revision (promote_row now) (adjust_at row.approved retire_row a.revisions)

pub data Moves : Db → Db → Type 0 where
  still : {a b : Db} → b.pages ≡ a.pages → b.revisions ≡ a.revisions → Moves a b
  creates : {a b : Db} → Creates a b → Moves a b
  revises : {a b : Db} → Revises a b → Moves a b
  approves : {a b : Db} → Approves a b → Moves a b
  and_then : {a b c : Db} → Moves a b → Moves b c → Moves a c
