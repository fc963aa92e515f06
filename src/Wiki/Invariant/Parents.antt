-- ===== src/Wiki/Invariant/Parents.antt =====
-- A scenario's parent is a feature, and an approved scenario's parent has an approved revision.
use mathlib.Core.Logic.{inl, inr}
use viki.Prelude.{
  Bool-cases, ℕ, ◌≡◌, refl, sym, ap, ◌∙◌, true, Option, none, some, is_some, if◌then◌else◌, ◌==◌,
  Table, lookup, insert, adjust, lookup-insert, lookup-adjust, map_option, arith,
}
use mathlib.Core.Path.{subst}
use viki.Model.{Uuid}
use viki.Wiki.State.{Db, Page}
use viki.Wiki.Writes.{is_scenario}
use viki.Wiki.Moves.{
  Moves, still, creates, revises, approves, and_then, point_draft, point_approved, parent_page,
  is_feature_page, is_approved_page,
}

pub record HasParents (pages : Table Page) : Type 0 where
  pub feature_parent :
      (i : Uuid) (p : Page)
      → lookup i pages ≡ some p
      → is_scenario p.kind ≡ true
      → is_feature_page (parent_page p pages) ≡ true
  pub approved_parent :
      (i : Uuid) (p : Page)
      → lookup i pages ≡ some p
      → is_scenario p.kind ≡ true
      → is_some p.approved ≡ true
      → is_approved_page (parent_page p pages) ≡ true

-- An update that keeps kinds and parents, and takes no approval away.
record Keeps (f : Page → Page) : Type 0 where
  kind : (p : Page) → (f p).kind ≡ p.kind
  parent : (p : Page) → (f p).parent ≡ p.parent
  approval : (p : Page) → is_some p.approved ≡ true → is_some (f p).approved ≡ true

module _ (pages : Table Page) (i : Uuid) (f : Page → Page) (k : Keeps f) where
  feature-row :
      (q : Uuid)
      → is_feature_page (lookup q pages) ≡ true
      → is_feature_page (lookup q (adjust i f pages)) ≡ true
  feature-row q h = rw lookup-adjust (go (lookup q pages) h)
    where
      go :
          (o : Option Page)
          → is_feature_page o ≡ true
          → is_feature_page (if i == q then map_option f o else o) ≡ true
      go none e = cc
      go (some r) e = ground (arith, k.kind r)

  approved-row :
      (q : Uuid)
      → is_approved_page (lookup q pages) ≡ true
      → is_approved_page (lookup q (adjust i f pages)) ≡ true
  approved-row q h = rw lookup-adjust (go (lookup q pages) h)
    where
      go :
          (o : Option Page)
          → is_approved_page o ≡ true
          → is_approved_page (if i == q then map_option f o else o) ≡ true
      go none e = cc
      go (some r) e = ground (arith, k.approval r e)

  feature-adjust :
      (p : Page)
      → is_feature_page (parent_page p pages) ≡ true
      → is_feature_page (parent_page p (adjust i f pages)) ≡ true
  feature-adjust p h = go p.parent h
    where
      go :
          (o : Option Uuid)
          → is_feature_page (elim o [ none ↦ none | some q ↦ lookup q pages ]) ≡ true
          → is_feature_page (elim o [ none ↦ none | some q ↦ lookup q (adjust i f pages) ]) ≡ true
      go none e = e
      go (some q) e = feature-row q e

  approved-adjust :
      (p : Page)
      → is_approved_page (parent_page p pages) ≡ true
      → is_approved_page (parent_page p (adjust i f pages)) ≡ true
  approved-adjust p h = go p.parent h
    where
      go :
          (o : Option Uuid)
          → is_approved_page (elim o [ none ↦ none | some q ↦ lookup q pages ]) ≡ true
          → is_approved_page (elim o [ none ↦ none | some q ↦ lookup q (adjust i f pages) ]) ≡ true
      go none e = e
      go (some q) e = approved-row q e

  -- A row after the update, and the row that it was.
  row_before :
      (j : Uuid) (p : Page)
      → lookup j (adjust i f pages) ≡ some p
      → (o : Page) × (lookup j pages ≡ some o) × (p ≡ (if i == j then f o else o))
  row_before j p h = go (lookup j pages) refl (sym (lookup-adjust i j f pages) ∙ h)
    where
      go :
          (m : Option Page)
          → lookup j pages ≡ m
          → (if i == j then map_option f m else m) ≡ some p
          → (o : Page) × (lookup j pages ≡ some o) × (p ≡ (if i == j then f o else o))
      go none e g = absurd (ground (arith, g))
      go (some o) e g = (o, e, ground (arith, g))

module _ (pages : Table Page) (i : Uuid) (row : Page) (new : lookup i pages ≡ none) where
  feature-insert :
      (p : Page)
      → is_feature_page (parent_page p pages) ≡ true
      → is_feature_page (parent_page p (insert i row pages)) ≡ true
  feature-insert p h = go p.parent h
    where
      go :
          (o : Option Uuid)
          → is_feature_page (elim o [ none ↦ none | some q ↦ lookup q pages ]) ≡ true
          → is_feature_page (elim o [ none ↦ none | some q ↦ lookup q (insert i row pages) ]) ≡ true
      go none e = e
      go (some q) e = ground (arith, lookup-insert i q row pages, new, e)

  approved-insert :
      (p : Page)
      → is_approved_page (parent_page p pages) ≡ true
      → is_approved_page (parent_page p (insert i row pages)) ≡ true
  approved-insert p h = go p.parent h
    where
      go :
          (o : Option Uuid)
          → is_approved_page (elim o [ none ↦ none | some q ↦ lookup q pages ]) ≡ true
          → is_approved_page (elim o [ none ↦ none | some q ↦ lookup q (insert i row pages) ])
            ≡ true
      go none e = e
      go (some q) e = ground (arith, lookup-insert i q row pages, new, e)

-- Rows whose parent, kind and approval are those of an old row.
point_draft-Keeps : (r : Uuid) (now : ℕ) → Keeps (point_draft r now)
point_draft-Keeps r now = record { kind = λ p. refl; parent = λ p. refl; approval = λ p h. h }

point_approved-Keeps : (r : Uuid) (now : ℕ) → Keeps (point_approved r now)
point_approved-Keeps r now = record { kind = λ p. refl; parent = λ p. refl; approval = λ p h. refl }

module _ (pages : Table Page) (i : Uuid) (f : Page → Page) (k : Keeps f)
    (h : HasParents pages) where
  same_kind : (j : Uuid) (o : Page) → (if i == j then f o else o).kind ≡ o.kind
  same_kind j o = ground (arith, k.kind o)

  same_parent : (j : Uuid) (o : Page) → (if i == j then f o else o).parent ≡ o.parent
  same_parent j o = ground (arith, k.parent o)

  adjust-HasParents :
      ((j : Uuid) (o : Page)
        → lookup j pages ≡ some o
        → is_scenario o.kind ≡ true
        → is_some (if i == j then f o else o).approved ≡ true
        → is_approved_page (parent_page o pages) ≡ true)
      → HasParents (adjust i f pages)
  adjust-HasParents fits = record {
    feature_parent = λ j p e s.
        let (o, was, now) = row_before pages i f k j p e in
        let kind : p.kind ≡ o.kind = ap (λ (q : Page). q.kind) now ∙ same_kind j o in
        let parent : p.parent ≡ o.parent = ap (λ (q : Page). q.parent) now ∙ same_parent j o in
        feature-adjust pages i f k p (
          ap (λ q. is_feature_page (elim q [ none ↦ none | some q' ↦ lookup q' pages ])) parent
          ∙ h.feature_parent j o was (sym (ap is_scenario kind) ∙ s));
    approved_parent = λ j p e s a.
        let (o, was, now) = row_before pages i f k j p e in
        let kind : p.kind ≡ o.kind = ap (λ (q : Page). q.kind) now ∙ same_kind j o in
        let parent : p.parent ≡ o.parent = ap (λ (q : Page). q.parent) now ∙ same_parent j o in
        approved-adjust pages i f k p (
          ap (λ q. is_approved_page (elim q [ none ↦ none | some q' ↦ lookup q' pages ])) parent
          ∙ fits j o was (sym (ap is_scenario kind) ∙ s)
              (sym (ap (λ (q : Page). is_some q.approved) now) ∙ a));
  }

draft-HasParents :
    (pages : Table Page) (i r : Uuid) (now : ℕ)
    → HasParents pages
    → HasParents (adjust i (point_draft r now) pages)
draft-HasParents pages i r now h =
    adjust-HasParents pages i (point_draft r now) (point_draft-Keeps r now) h
      λ j o was s a. h.approved_parent j o was s (ground (arith, a))

insert-HasParents :
    (pages : Table Page) (i : Uuid) (row : Page)
    → lookup i pages ≡ none
    → row.approved ≡ none
    → (is_scenario row.kind ≡ true → is_feature_page (parent_page row pages) ≡ true)
    → HasParents pages
    → HasParents (insert i row pages)
insert-HasParents pages i row new plain fits h = record {
  feature_parent = λ j p e s.
      feature-insert pages i row new p
        (ground (arith, lookup-insert i j row pages, e, s, h.feature_parent j p, fits));
  approved_parent = λ j p e s a.
      approved-insert pages i row new p
        (ground (arith, lookup-insert i j row pages, e, s, a, plain, h.approved_parent j p));
}

approved_first :
    (pages : Table Page) (i j : Uuid) (row o : Page) (r : Uuid) (now : ℕ)
    → lookup i pages ≡ some row
    → lookup j pages ≡ some o
    → is_scenario o.kind ≡ true
    → (is_scenario row.kind ≡ true → is_approved_page (parent_page row pages) ≡ true)
    → (is_some o.approved ≡ true → is_approved_page (parent_page o pages) ≡ true)
    → is_some (if i == j then point_approved r now o else o).approved ≡ true
    → is_approved_page (parent_page o pages) ≡ true
approved_first pages i j row o r now at_i at_j s first before done = elim (Bool-cases (i == j)) [
  | inl same ↦
      let key : i ≡ j = ground (arith, same) in
      let rows : row ≡ o = cc in
      subst (λ (q : Page). is_approved_page (parent_page q pages) ≡ true) rows
        (first (ap (λ (q : Page). is_scenario q.kind) rows ∙ s))
  | inr other ↦ before (rw other at done)
]

pub Moves-HasParents : {a b : Db} → Moves a b → HasParents a.pages → HasParents b.pages
Moves-HasParents (still p r) h = subst HasParents (sym p) h
Moves-HasParents {a} (creates m) h = subst HasParents (sym m.pages) (
    draft-HasParents _ m.page m.revision m.now
      (insert-HasParents a.pages m.page m.row m.new_page m.not_approved m.in_hierarchy h))
Moves-HasParents {a} (revises m) h =
    subst HasParents (sym m.pages) (draft-HasParents a.pages m.page m.revision m.now h)
Moves-HasParents {a} (approves m) h = subst HasParents (sym m.pages) (
    adjust-HasParents a.pages m.page (point_approved m.revision m.now)
      (point_approved-Keeps m.revision m.now) h
      λ j o was s done.
        approved_first a.pages m.page j m.row o m.revision m.now m.old_page was s m.parent_first
          (h.approved_parent j o was s) done)
Moves-HasParents (and_then m n) h = Moves-HasParents n (Moves-HasParents m h)
