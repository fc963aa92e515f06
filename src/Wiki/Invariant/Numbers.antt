-- ===== src/Wiki/Invariant/Numbers.antt =====
-- The revisions of a page have different numbers, and what a revision says never changes.
use viki.Prelude.{
  ℕ, ◌≡◌, refl, sym, ap, ◌∙◌, true, false, ◌&&◌, ◌||◌, Option, none, some, is_some, if◌then◌else◌,
  ◌==◌, Table, lookup, insert, adjust, lookup-insert, lookup-adjust, any-lookup, Text, arith,
}
use mathlib.Core.Path.{subst}
use viki.Model.{Uuid}
use viki.Wiki.State.{Db, Revision}
use viki.Wiki.Writes.{revision_conflicts, is_draft}
use viki.Wiki.Save.{supersede}
use viki.Wiki.Moves.{
  Moves, still, creates, revises, approves, and_then, adjust_at, retire_row, promote_row,
}
use viki.Wiki.Invariant.{HasPointers, view_of, view_from, known_in, Moves-HasPointers}

-- The part of a revision that is fixed when it is saved.
pub record Fixed : Type 0 where
  pub page : Uuid
  pub number : ℕ
  pub title : Text
  pub body_md : Text
  pub base : Option Uuid
  pub author : Uuid

abbrev pub fixed : Revision → Fixed
fixed r = record {
  page = r.page;
  number = r.number;
  title = r.title;
  body_md = r.body_md;
  base = r.base;
  author = r.created_by;
}

abbrev pub fixed_from : Option Revision → Option Fixed
fixed_from none = none
fixed_from (some r) = some (fixed r)

abbrev pub fixed_of : Table Revision → Uuid → Option Fixed
fixed_of revisions r = fixed_from (lookup r revisions)

module _ (t : Table Revision) (q : Uuid) where
  fixed-supersede : (d : Option Uuid) → fixed_of (adjust_at d supersede t) q ≡ fixed_of t q
  fixed-supersede none = refl
  fixed-supersede (some d) = rw lookup-adjust (ground arith)

  fixed-retire : (d : Option Uuid) → fixed_of (adjust_at d retire_row t) q ≡ fixed_of t q
  fixed-retire none = refl
  fixed-retire (some d) = rw lookup-adjust (ground arith)

  fixed-promote : (d : Uuid) (now : ℕ) → fixed_of (adjust d (promote_row now) t) q ≡ fixed_of t q
  fixed-promote d now = rw lookup-adjust (ground arith)

-- A new row under a free key hides no old row.
fixed-insert :
    (t : Table Revision) (q r : Uuid) (v : Revision) (x : Fixed)
    → lookup r t ≡ none
    → fixed_of t q ≡ some x
    → fixed_of (insert r v t) q ≡ some x
fixed-insert t q r v x new h = ground (arith, lookup-insert r q v t, new, h)

pub Moves-fixed :
    {a b : Db}
    → Moves a b
    → (q : Uuid) (x : Fixed) → fixed_of a.revisions q ≡ some x
    → fixed_of b.revisions q ≡ some x
Moves-fixed (still p r) q x h = ap (λ t. fixed_of t q) r ∙ h
Moves-fixed {a} (creates m) q x h =
    ap (λ t. fixed_of t q) m.revisions
    ∙ fixed-insert a.revisions q m.revision m.content x m.new_revision h
Moves-fixed {a} (revises m) q x h =
    ap (λ t. fixed_of t q) m.revisions
    ∙ fixed-insert _ q m.revision m.content x m.new_revision
        (fixed-supersede a.revisions q m.row.latest_draft ∙ h)
Moves-fixed {a} (approves m) q x h =
    ap (λ t. fixed_of t q) m.revisions
    ∙ fixed-promote _ q m.revision m.now
    ∙ fixed-retire a.revisions q m.row.approved
    ∙ h
Moves-fixed (and_then m n) q x h = Moves-fixed n q x (Moves-fixed m q x h)

-- No two revisions of a page have the same number.
pub record HasNumbers (t : Table Revision) : Type 0 where
  pub distinct :
      (q r : Uuid) (x y : Fixed)
      → fixed_of t q ≡ some x
      → fixed_of t r ≡ some y
      → x.page ≡ y.page
      → x.number ≡ y.number
      → q ≡ r

same-HasNumbers :
    (t u : Table Revision)
    → ((q : Uuid) → fixed_of u q ≡ fixed_of t q)
    → HasNumbers t
    → HasNumbers u
same-HasNumbers t u e h = record {
  distinct = λ q r x y hq hr p n. h.distinct q r x y (sym (e q) ∙ hq) (sym (e r) ∙ hr) p n;
}

-- A row whose number is new for its page.
insert-HasNumbers :
    (t : Table Revision) (k : Uuid) (v : Revision)
    → ((q : Uuid) (x : Fixed) → fixed_of t q ≡ some x → x.page ≡ v.page → x.number ≡ v.number → ⊥)
    → HasNumbers t
    → HasNumbers (insert k v t)
insert-HasNumbers t k v new h = record {
  distinct = λ q r x y hq hr p n. go q r x y (sym (at q) ∙ hq) (sym (at r) ∙ hr) p n;
}
  where
    at : (q : Uuid) → fixed_of (insert k v t) q ≡ (if k == q then some (fixed v) else fixed_of t q)
    at q = ground (arith, lookup-insert k q v t)

    go :
        (q r : Uuid) (x y : Fixed)
        → (if k == q then some (fixed v) else fixed_of t q) ≡ some x
        → (if k == r then some (fixed v) else fixed_of t r) ≡ some y
        → x.page ≡ y.page
        → x.number ≡ y.number
        → q ≡ r
    go q r x y hq hr p n = ground (arith, hq, hr, p, n, new q x, new r y, h.distinct q r x y)

row_from_fixed :
    (t : Table Revision) (q : Uuid) (x : Fixed)
    → fixed_of t q ≡ some x
    → (w : Revision) × (lookup q t ≡ some w) × (fixed w ≡ x)
row_from_fixed t q x h = go (lookup q t) refl h
  where
    go :
        (o : Option Revision)
        → lookup q t ≡ o
        → fixed_from o ≡ some x
        → (w : Revision) × (lookup q t ≡ some w) × (fixed w ≡ x)
    go none e g = cc
    go (some w) e g = (w, e, ground (arith, g))

-- The constraint that revisions are inserted under says that the number is new.
conflict_free :
    (t : Table Revision) (page : Uuid) (number : ℕ) (q : Uuid) (x : Fixed)
    → revision_conflicts page number t ≡ false
    → fixed_of t q ≡ some x
    → x.page ≡ page
    → x.number ≡ number
    → ⊥
conflict_free t page number q x free h p n =
    let (w, e, f) = row_from_fixed t q x h in
    let clear : (w.page == page && (w.number == number || is_draft w.status)) ≡ false =
      any-lookup (λ row. row.1.page == page && (row.1.number == number || is_draft row.1.status)) t
        q w free e in
    ground (arith, clear, ap (λ (y : Fixed). y.page) f, ap (λ (y : Fixed). y.number) f, p, n)

-- A page that is not there has no revisions.
unowned :
    (a : Db) (page q : Uuid) (x : Fixed)
    → HasPointers a
    → lookup page a.pages ≡ none
    → fixed_of a.revisions q ≡ some x
    → x.page ≡ page
    → ⊥
unowned a page q x h new f p =
    let (w, e, g) = row_from_fixed a.revisions q x f in
    let view : view_of a.revisions q ≡ some (page, w.status) =
      ap view_from e ∙ ap (λ i. some (i, w.status)) (ap (λ (y : Fixed). y.page) g ∙ p) in
    let known : known_in a.pages page ≡ true = h.in_step.owned page q w.status view in
    cc (sym known ∙ ap is_some new)

pub Moves-HasNumbers :
    {a b : Db} → Moves a b → HasPointers a → HasNumbers a.revisions → HasNumbers b.revisions
Moves-HasNumbers (still p r) i h = subst HasNumbers (sym r) h
Moves-HasNumbers {a} (creates m) i h = subst HasNumbers (sym m.revisions) (
    insert-HasNumbers a.revisions m.revision m.content
      (λ q x f p n. unowned a m.page q x i m.new_page f (p ∙ m.content_page)) h)
Moves-HasNumbers {a} (revises m) i h =
    let before = adjust_at m.row.latest_draft supersede a.revisions in
    subst HasNumbers (sym m.revisions) (
      insert-HasNumbers before m.revision m.content
        (λ q x f p n.
          conflict_free before m.page m.content.number q x m.new_number f (p ∙ m.content_page) n)
        (same-HasNumbers a.revisions before (λ q. fixed-supersede a.revisions q m.row.latest_draft)
          h))
Moves-HasNumbers {a} (approves m) i h = subst HasNumbers (sym m.revisions) (
    same-HasNumbers _ _ (λ q. fixed-promote _ q m.revision m.now)
      (same-HasNumbers a.revisions _ (λ q. fixed-retire a.revisions q m.row.approved) h))
Moves-HasNumbers (and_then m n) i h =
    Moves-HasNumbers n (Moves-HasPointers m i) (Moves-HasNumbers m i h)
