-- ===== src/Wiki/Lifecycle.antt =====
-- The life of pages and revisions over any sequence of operations.
use viki.Prelude.{
  ◌≡◌, sym, ap, ◌∙◌, ◌↔◌, true, some, is_some, [], lookup, lookup-nil, lookup-adjust, lookup-insert,
  insert, arith,
}
use viki.Model.{Uuid, draft, approved}
use viki.Wiki.State.{Db, Page}
use viki.Wiki.Writes.{is_scenario}
use viki.Wiki.Moves.{
  Moves, still, creates, revises, approves, and_then, parent_page, is_feature_page,
  is_approved_page, point_draft, point_approved,
}
use viki.Wiki.Refine.Others.{Step, Reach, here, next, Step-Moves}
use viki.Wiki.Invariant.{HasPointers, Moves-HasPointers, draft_of, approved_of, view_of}
use viki.Wiki.Invariant.Numbers.{Fixed, fixed_of, HasNumbers, Moves-HasNumbers, Moves-fixed}
use viki.Wiki.Invariant.Parents.{HasParents, Moves-HasParents}

pub record IsConsistent (db : Db) : Type 0 where
  pub pointers : HasPointers db
  pub parents : HasParents db.pages
  pub numbers : HasNumbers db.revisions

-- A database with no page and no revision.
abbrev pub IsEmpty : Db → Type 0
IsEmpty db = (db.pages ≡ []) × (db.revisions ≡ [])

pub IsEmpty-IsConsistent : (db : Db) → IsEmpty db → IsConsistent db
IsEmpty-IsConsistent db e = record {
  pointers = record {
    in_step = record {
      draft_points = λ i r h. absurd (no_page_draft i r h);
      draft_pointed = λ i r h. absurd (no_revision r h);
      approved_points = λ i r h. absurd (no_page_approved i r h);
      approved_pointed = λ i r h. absurd (no_revision r h);
      owned = λ i r s h. absurd (no_revision r h);
    };
  };
  parents = record {
    feature_parent = λ i p h. absurd (no_page i h);
    approved_parent = λ i p h. absurd (no_page i h);
  };
  numbers = record { distinct = λ q r x y hq. absurd (no_fixed q hq) };
}
  where
    no_page : (i : Uuid) {p : Page} → lookup i db.pages ≡ some p → ⊥
    no_page i h = cc (sym (ap (lookup i) e.0 ∙ lookup-nil i) ∙ h)

    no_page_draft : (i r : Uuid) → draft_of db.pages i ≡ some r → ⊥
    no_page_draft i r h = ground (arith, h, ap (lookup i) e.0, lookup-nil {V = Page} i)

    no_page_approved : (i r : Uuid) → approved_of db.pages i ≡ some r → ⊥
    no_page_approved i r h = ground (arith, h, ap (lookup i) e.0, lookup-nil {V = Page} i)

    no_revision :
        (r : Uuid) {x : Uuid × viki.Model.RevisionStatus} → view_of db.revisions r ≡ some x → ⊥
    no_revision r h =
        ground (arith, h, ap (lookup r) e.1, lookup-nil {V = viki.Wiki.State.Revision} r)

    no_fixed : (q : Uuid) {x : Fixed} → fixed_of db.revisions q ≡ some x → ⊥
    no_fixed q h = ground (arith, h, ap (lookup q) e.1, lookup-nil {V = viki.Wiki.State.Revision} q)

pub Step-IsConsistent : {a b : Db} → Step a b → IsConsistent a → IsConsistent b
Step-IsConsistent s h =
    let m = Step-Moves s in
    record {
      pointers = Moves-HasPointers m h.pointers;
      parents = Moves-HasParents m h.parents;
      numbers = Moves-HasNumbers m h.pointers h.numbers;
    }

-- Every sequence of operations keeps a consistent database consistent: each page's draft pointer
-- names the one draft of the page and its approval pointer the one approved revision, every
-- revision belongs to a page, a scenario's parent is a feature, an approved scenario's parent is
-- approved, and the revisions of a page have different numbers.
pub Reach-IsConsistent : {a b : Db} → IsConsistent a → Reach a b → IsConsistent b
Reach-IsConsistent h here = h
Reach-IsConsistent h (next r s) = Step-IsConsistent s (Reach-IsConsistent h r)

-- In a database that operations made from an empty one, a page's draft pointer names a revision
-- exactly when that revision is a draft of the page, and its approval pointer names a revision
-- exactly when that revision is an approved one of the page: there is at most one of each.
pub pointers_exact :
    {a b : Db}
    → IsEmpty a
    → Reach a b
    → (i r : Uuid)
    → ((draft_of b.pages i ≡ some r) ↔ (view_of b.revisions r ≡ some (i, draft)))
      × ((approved_of b.pages i ≡ some r) ↔ (view_of b.revisions r ≡ some (i, approved)))
pointers_exact {a} e reach i r =
    let p = (Reach-IsConsistent (IsEmpty-IsConsistent a e) reach).pointers.in_step in
    ((p.draft_points i r, p.draft_pointed i r), (p.approved_points i r, p.approved_pointed i r))

-- In a database that operations made from an empty one, an approved scenario has a parent, which is a feature and has an approved
-- revision.
pub approved_scenario_parent :
    {a b : Db}
    → IsEmpty a
    → Reach a b
    → (i : Uuid) (p : Page) → lookup i b.pages ≡ some p
    → is_scenario p.kind ≡ true
    → is_some p.approved ≡ true
    → (is_feature_page (parent_page p b.pages) ≡ true)
      × (is_approved_page (parent_page p b.pages) ≡ true)
approved_scenario_parent {a} e reach i p row s done =
    let h = (Reach-IsConsistent (IsEmpty-IsConsistent a e) reach).parents in
    (h.feature_parent i p row s, h.approved_parent i p row s done)

-- Whatever operations follow, a revision keeps its page, number, title, body, base and author.
pub revision_immutable :
    {a b : Db}
    → Reach a b
    → (q : Uuid) (x : Fixed) → fixed_of a.revisions q ≡ some x
    → fixed_of b.revisions q ≡ some x
revision_immutable here q x h = h
revision_immutable (next r s) q x h = Moves-fixed (Step-Moves s) q x (revision_immutable r q x h)

-- A move takes no approval away.
Moves-approved :
    {a b : Db}
    → Moves a b
    → (i : Uuid) → is_some (approved_of a.pages i) ≡ true
    → is_some (approved_of b.pages i) ≡ true
Moves-approved (still p r) i h = ap (λ t. is_some (approved_of t i)) p ∙ h
Moves-approved {a} (creates m) i h =
    ap (λ t. is_some (approved_of t i)) m.pages
    ∙ ground (
      arith,
      lookup-adjust m.page i (point_draft m.revision m.now) (insert m.page m.row a.pages),
      lookup-insert m.page i m.row a.pages,
      m.new_page,
      h,
    )
Moves-approved {a} (revises m) i h =
    ap (λ t. is_some (approved_of t i)) m.pages
    ∙ ground (arith, lookup-adjust m.page i (point_draft m.revision m.now) a.pages, h)
Moves-approved {a} (approves m) i h =
    ap (λ t. is_some (approved_of t i)) m.pages
    ∙ ground (arith, lookup-adjust m.page i (point_approved m.revision m.now) a.pages, h)
Moves-approved (and_then m n) i h = Moves-approved n i (Moves-approved m i h)

-- Whatever operations follow, a page that has an approved revision keeps having one.
pub approval_permanent :
    {a b : Db}
    → Reach a b
    → (i : Uuid) → is_some (approved_of a.pages i) ≡ true
    → is_some (approved_of b.pages i) ≡ true
approval_permanent here i h = h
approval_permanent (next r s) i h = Moves-approved (Step-Moves s) i (approval_permanent r i h)
