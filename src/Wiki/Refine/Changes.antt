-- ===== src/Wiki/Refine/Changes.antt =====
-- The assistant's change sets make drafts and nothing else.
use viki.Prelude.{
  ◌≡◌, refl, ap, ◌∙◌, Bool, true, false, not, Option, none, some, List, [], ◌∷◌, codes, is_blank,
  if◌then◌else◌, lookup-insert, lookup-adjust, insert, ok, err, ◌>>=◌, ◌>>◌, reject_if, >>=-eq-ok,
  reject_if->>, ok-injective, arith,
}
use mathlib.Core.Path.{subst}
use viki.Model.{Uuid, RevisionContent}
use viki.Pages.{validate_page_input}
use viki.Pages.Slug.{is_slug}
use viki.Changes.{
  ChangeOperation, ChangeSet, Operation, create, revise, other_operation, validate_shape,
}
use viki.Wiki.State.{
  Db, Caller, Error, read_only, conflict, input, shape, as_error, empty_change_set,
  immutable_metadata, invalid_generated_slug,
}
use viki.Wiki.Writes.{repository_managed, audit, page_of, validate_parent}
use viki.Wiki.Create.{new_page, create_draft}
use viki.Wiki.Save.{current_revision, is_current, write_draft, or_not_found}
use viki.Wiki.Changes.{
  Applied, resolve_parent, resolve_references, same_metadata, no_operations, nothing_applied,
  apply_create, revise_page, apply_revise, apply_operation, apply_change, apply_changes,
  apply_change_set,
}
use viki.Wiki.Moves.{Creates, Revises, Moves, still, creates, revises, and_then, point_draft}
use viki.Wiki.Refine.{create_draft-Creates, validate_parent_lem}
use viki.Wiki.Refine.Update.{write_draft-Revises, page_of-lookup, or_not_found-eq-ok}
use viki.Wiki.Invariant.{approved_of}

-- Moves that only make drafts.
pub data Drafts : Db → Db → Type 0 where
  same : {a b : Db} → b.pages ≡ a.pages → b.revisions ≡ a.revisions → Drafts a b
  drafts_page : {a b : Db} → Creates a b → Drafts a b
  drafts_revision : {a b : Db} → Revises a b → Drafts a b
  followed_by : {a b c : Db} → Drafts a b → Drafts b c → Drafts a c

pub Drafts-Moves : {a b : Db} → Drafts a b → Moves a b
Drafts-Moves (same p r) = still p r
Drafts-Moves (drafts_page m) = creates m
Drafts-Moves (drafts_revision m) = revises m
Drafts-Moves (followed_by m n) = and_then (Drafts-Moves m) (Drafts-Moves n)

-- Drafts leave the approved revision of every page as it is.
pub Drafts-approved :
    {a b : Db} → Drafts a b → (i : Uuid) → approved_of b.pages i ≡ approved_of a.pages i
Drafts-approved (same p r) i = ap (λ t. approved_of t i) p
Drafts-approved {a} (drafts_page m) i =
    ap (λ t. approved_of t i) m.pages
    ∙ ground (
      arith,
      lookup-adjust m.page i (point_draft m.revision m.now) (insert m.page m.row a.pages),
      lookup-insert m.page i m.row a.pages,
      m.new_page,
      m.not_approved,
    )
Drafts-approved {a} (drafts_revision m) i =
    ap (λ t. approved_of t i) m.pages
    ∙ ground (arith, lookup-adjust m.page i (point_draft m.revision m.now) a.pages)
Drafts-approved (followed_by m n) i = Drafts-approved n i ∙ Drafts-approved m i

abbrev DraftsOf : Applied → Applied → Type 0
DraftsOf a b = Drafts a.db b.db

apply_create-DraftsOf :
    (c : Caller) (o : ChangeOperation) (parent : Option Uuid) (content : RevisionContent)
    (a b : Applied)
    → apply_create c o parent content a ≡ ok b
    → DraftsOf a b
unfolding apply_create
apply_create-DraftsOf c o parent content a b h0 =
    let (_, h1) = reject_if->> (not (is_slug o.slug)) invalid_generated_slug _ h0 in
    let (_, _, h2) =
      >>=-eq-ok (as_error input (validate_page_input o.kind o.concept_kind parent content)) _ h1 in
    let (_, under, h3) = >>=-eq-ok (validate_parent c o.kind parent a.db) _ h2 in
    let p = new_page c o.kind o.concept_kind parent o.slug in
    let (made, e, h4) = >>=-eq-ok (create_draft c p content a.db) _ h3 in
    subst (DraftsOf a) (ok-injective h4) (
      drafts_page (
        create_draft-Creates c p content a.db made refl refl
          (validate_parent_lem c o.kind o.concept_kind parent o.slug a.db under) e))

revise_page-DraftsOf :
    (c : Caller) (o : ChangeOperation) (parent : Option Uuid) (content : RevisionContent)
    (page base : Uuid) (a b : Applied)
    → revise_page c o parent content page base a ≡ ok b
    → DraftsOf a b
unfolding revise_page
revise_page-DraftsOf c o parent content page base a b h0 =
    let (p, found, h1) = >>=-eq-ok (or_not_found (page_of c page a.db)) _ h0 in
    let (_, h2) = reject_if->> (not (same_metadata o parent p)) immutable_metadata _ h1 in
    let (_, h3) = reject_if->> (not (is_current (current_revision p) base)) conflict _ h2 in
    let (_, _, h4) =
      >>=-eq-ok (as_error input (validate_page_input p.kind p.concept_kind p.parent content)) _
        h3 in
    let (made, e, h5) = >>=-eq-ok (write_draft c page p base content a.db) _ h4 in
    subst (DraftsOf a) (ok-injective h5) (
      drafts_revision (
        write_draft-Revises c page p base content a.db made
          (page_of-lookup c page a.db p (or_not_found-eq-ok _ p found)) e))

apply_operation-DraftsOf :
    (c : Caller) (o : ChangeOperation) (k : Operation) (parent : Option Uuid)
    (content : RevisionContent) (a b : Applied)
    → apply_operation c o k parent content a ≡ ok b
    → DraftsOf a b
unfolding apply_revise
apply_operation-DraftsOf c o create parent content a b h =
    apply_create-DraftsOf c o parent content a b h
apply_operation-DraftsOf c o revise parent content a b h = go o.page o.base h
  where
    go :
        (page base : Option Uuid)
        → (elim page [
          | none ↦ err Error.missing_revise_target
          | some q ↦ elim base [
            | none ↦ err Error.missing_revise_target
            | some r ↦ revise_page c o parent content q r a
          ]
        ])
          ≡ ok b
        → DraftsOf a b
    go none base h = cc
    go (some q) none h = cc
    go (some q) (some r) h = revise_page-DraftsOf c o parent content q r a b h
apply_operation-DraftsOf c o (other_operation _) parent content a b h = cc

apply_changes-Drafts :
    (c : Caller) (ops : List ChangeOperation) (a b : Applied)
    → apply_changes c ops a ≡ ok b
    → DraftsOf a b
unfolding apply_changes apply_change
apply_changes-Drafts c [] a b h = subst (DraftsOf a) (ok-injective h) (same refl refl)
apply_changes-Drafts c (o ∷ rest) a b h =
    let (mid, one, others) = >>=-eq-ok (apply_change c o a) _ h in
    let (parent, _, one1) = >>=-eq-ok (resolve_parent o a.created) _ one in
    let (references, _, one2) =
      >>=-eq-ok (resolve_references a.created o.content.references) _ one1 in
    let first =
      apply_operation-DraftsOf c o o.operation parent (record o.content { references = references })
        a mid one2 in
    followed_by first (apply_changes-Drafts c rest mid b others)

pub apply_change_set-Drafts :
    (c : Caller) (conversation : Uuid) (s : ChangeSet) (db : Db) (r : List Uuid × Db)
    → apply_change_set c conversation s db ≡ ok r
    → Drafts db r.1
unfolding apply_change_set audit
apply_change_set-Drafts c conversation s db r h0 =
    let (_, h1) = reject_if->> (repository_managed db c.organization) read_only _ h0 in
    go (is_blank s.clarification) h1
  where
    go :
        (b : Bool)
        → (if not b
            then ok ([], db)
            else (reject_if (no_operations s.operations) empty_change_set
                >> (as_error shape (validate_shape s)
                    >> (apply_changes c s.operations (nothing_applied db) >>= λ done. ok (
                      done.revisions,
                      audit c
                          (codes "assistant.drafts_created")
                          (codes "assistant_conversation")
                          conversation
                          done.db,
                    )))))
          ≡ ok r
        → Drafts db r.1
    go false h = subst (λ (t : List Uuid × Db). Drafts db t.1) (ok-injective h) (same refl refl)
    go true h =
        let (_, h2) = reject_if->> (no_operations s.operations) empty_change_set _ h in
        let (_, _, h3) = >>=-eq-ok (as_error shape (validate_shape s)) _ h2 in
        let (done, applied, h4) =
          >>=-eq-ok (apply_changes c s.operations (nothing_applied db)) _ h3 in
        let drafts = apply_changes-Drafts c s.operations (nothing_applied db) done applied in
        subst (λ (t : List Uuid × Db). Drafts db t.1) (ok-injective h4)
          (followed_by drafts (same refl refl))

-- A change set that is applied approves nothing: every page keeps the approved revision it had.
pub apply_change_set-approved :
    (c : Caller) (conversation : Uuid) (s : ChangeSet) (db : Db) (r : List Uuid × Db)
    → apply_change_set c conversation s db ≡ ok r
    → (i : Uuid) → approved_of r.1.pages i ≡ approved_of db.pages i
apply_change_set-approved c conversation s db r h =
    Drafts-approved (apply_change_set-Drafts c conversation s db r h)
