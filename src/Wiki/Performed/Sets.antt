-- ===== src/Wiki/Performed/Sets.antt =====
-- The change sets that ApplyAIChangeSet of backend/internal/postgres/ai_changes.go applies.
use viki.Prelude.{
  opt_eq_iff, ◌≡◌, ◌≢◌, refl, sym, ap, ◌∙◌, Bool, true, false, not, Option, none, some, List, [],
  ◌∷◌, ◌++◌, codes, is_blank, if◌then◌else◌, Result, ok, err, ◌>>=◌, ◌>>◌, reject_if, >>=-eq-ok,
  reject_if->>, ok-injective, arith,
}
use mathlib.Core.List.{append_assoc, append-nil}
use mathlib.Core.Path.{subst}
use viki.Model.{Uuid, RevisionContent}
use viki.Pages.{validate_page_input}
use viki.Pages.Slug.{is_slug}
use viki.Changes.{
  ChangeOperation, ChangeSet, Operation, create, revise, other_operation, validate_shape,
}
use viki.Wiki.State.{
  Db, Caller, Error, read_only, conflict, input, shape, as_error, empty_change_set,
  immutable_metadata, invalid_generated_slug,
}
use viki.Wiki.Writes.{repository_managed, audit, page_of, validate_parent}
use viki.Wiki.Create.{new_page, create_draft}
use viki.Wiki.Save.{current_revision, is_current, write_draft, or_not_found}
use viki.Wiki.Changes.{
  Applied, resolve_parent, resolve_references, same_metadata, no_operations, nothing_applied,
  apply_create, revise_page, apply_revise, apply_operation, apply_change, apply_changes,
  apply_change_set,
}
use viki.Wiki.Refine.Update.{page_of-lookup, or_not_found-eq-ok}
use viki.Wiki.Performed.{
  Performs, Performed, finished, and_next, Performed-still, create_draft-Performs,
  write_draft-Performs,
}

-- An operation adds one identifier, and performs itself.
abbrev Steps : ChangeOperation → Applied → Applied → Type 0
Steps o a b = (id : Uuid) × (b.revisions ≡ a.revisions ++ (id ∷ [])) × Performs o a.db id b.db

apply_create-Steps :
    (c : Caller) (o : ChangeOperation) (parent : Option Uuid) (content : RevisionContent)
    (a b : Applied)
    → o.operation ≡ create
    → content.title ≡ o.content.title
    → content.body_md ≡ o.content.body_md
    → apply_create c o parent content a ≡ ok b
    → Steps o a b
unfolding apply_create
apply_create-Steps c o parent content a b creating title body h0 =
    let (_, h1) = reject_if->> (not (is_slug o.slug)) invalid_generated_slug _ h0 in
    let (_, _, h2) =
      >>=-eq-ok (as_error input (validate_page_input o.kind o.concept_kind parent content)) _ h1 in
    let (_, _, h3) = >>=-eq-ok (validate_parent c o.kind parent a.db) _ h2 in
    let (made, e, h4) =
      >>=-eq-ok (create_draft c (new_page c o.kind o.concept_kind parent o.slug) content a.db) _
        h3 in
    subst (Steps o a) (ok-injective h4)
      (made.1, refl, create_draft-Performs c o parent content a.db made creating title body e)

revise_page-Steps :
    (c : Caller) (o : ChangeOperation) (parent : Option Uuid) (content : RevisionContent)
    (page base : Uuid) (a b : Applied)
    → o.operation ≡ revise
    → o.page ≡ some page
    → o.base ≡ some base
    → content.title ≡ o.content.title
    → content.body_md ≡ o.content.body_md
    → revise_page c o parent content page base a ≡ ok b
    → Steps o a b
unfolding revise_page
revise_page-Steps c o parent content page base a b revising at on title body h0 =
    let (p, found, h1) = >>=-eq-ok (or_not_found (page_of c page a.db)) _ h0 in
    let (_, h2) = reject_if->> (not (same_metadata o parent p)) immutable_metadata _ h1 in
    let (cur, h3) = reject_if->> (not (is_current (current_revision p) base)) conflict _ h2 in
    let (_, _, h4) =
      >>=-eq-ok (as_error input (validate_page_input p.kind p.concept_kind p.parent content)) _
        h3 in
    let (made, e, h5) = >>=-eq-ok (write_draft c page p base content a.db) _ h4 in
    let current : current_revision p ≡ some base =
      ground (arith, cur, opt_eq_iff (current_revision p) (some base)) in
    let row = page_of-lookup c page a.db p (or_not_found-eq-ok _ p found) in
    subst (Steps o a) (ok-injective h5) (
      made.0,
      refl,
      write_draft-Performs c o page base p content a.db made revising at on current row title body
          e,
    )

apply_operation-Steps :
    (c : Caller) (o : ChangeOperation) (k : Operation) (parent : Option Uuid)
    (content : RevisionContent) (a b : Applied)
    → o.operation ≡ k
    → content.title ≡ o.content.title
    → content.body_md ≡ o.content.body_md
    → apply_operation c o k parent content a ≡ ok b
    → Steps o a b
unfolding apply_revise
apply_operation-Steps c o create parent content a b kind title body h =
    apply_create-Steps c o parent content a b kind title body h
apply_operation-Steps c o revise parent content a b kind title body h = go o.page o.base refl refl h
  where
    go :
        (page base : Option Uuid)
        → o.page ≡ page
        → o.base ≡ base
        → (elim page [
          | none ↦ err Error.missing_revise_target
          | some q ↦ elim base [
            | none ↦ err Error.missing_revise_target
            | some r ↦ revise_page c o parent content q r a
          ]
        ])
          ≡ ok b
        → Steps o a b
    go none base at on h = cc
    go (some q) none at on h = cc
    go (some q) (some r) at on h =
        revise_page-Steps c o parent content q r a b kind at on title body h
apply_operation-Steps c o (other_operation _) parent content a b kind title body h = cc

apply_changes-Performed :
    (c : Caller) (ops : List ChangeOperation) (a b : Applied)
    → apply_changes c ops a ≡ ok b
    → (ids : List Uuid) × (b.revisions ≡ a.revisions ++ ids) × Performed a.db ops ids b.db
unfolding apply_changes apply_change
apply_changes-Performed c [] a b h =
    let same : a ≡ b = ok-injective h in
    (
      [],
      ap (λ (d : Applied). d.revisions) (sym same) ∙ sym (append-nil a.revisions),
      finished (ap (λ (d : Applied). d.db.pages) (sym same))
          (ap (λ (d : Applied). d.db.revisions) (sym same)),
    )
apply_changes-Performed c (o ∷ rest) a b h =
    let (mid, one, others) = >>=-eq-ok (apply_change c o a) _ h in
    let (parent, _, one1) = >>=-eq-ok (resolve_parent o a.created) _ one in
    let (references, _, one2) =
      >>=-eq-ok (resolve_references a.created o.content.references) _ one1 in
    let (id, grown, performs) =
      apply_operation-Steps c o o.operation parent (record o.content { references = references }) a
        mid refl refl refl one2 in
    let (ids, listed, performed) = apply_changes-Performed c rest mid b others in
    (
      id ∷ ids,
      listed ∙ ap (λ (l : List Uuid). l ++ ids) grown ∙ append_assoc a.revisions (id ∷ []) ids,
      and_next performs performed,
    )

-- What a change set did: nothing where it asks for clarification, and else what its operations do,
-- which are at least one and of an accepted shape.
pub record SetPerformed (c : Caller) (s : ChangeSet) (db : Db) (r : List Uuid × Db) : Type 0 where
  pub unmanaged : repository_managed db c.organization ≡ false
  pub asked : is_blank s.clarification ≡ false → r ≡ ([], db)
  pub accepted : is_blank s.clarification ≡ true → validate_shape s ≡ ok tt
  pub some_operation : is_blank s.clarification ≡ true → s.operations ≢ []
  pub performed : is_blank s.clarification ≡ true → Performed db s.operations r.0 r.1

as_error-eq-ok :
    (r : Result viki.Changes.ShapeError (Unit {0})) {u : Unit {0}}
    → as_error shape r ≡ ok u
    → r ≡ ok tt
as_error-eq-ok (ok tt) h = refl
as_error-eq-ok (err e) h = cc

some_operations : (ops : List ChangeOperation) → no_operations ops ≡ false → ops ≢ []
some_operations [] h = cc
some_operations (o ∷ ops) h = λ e. cc

-- A change set that is applied is for a workspace that is not managed in Git. Where it asks for
-- clarification, nothing happens and no identifier is returned. Else it has operations, its shape is
-- accepted, and the identifiers are those of its operations, in their order: each operation stored a
-- new draft revision with its title, trimmed, and its body, and made it the draft of its page. A
-- creation made the page, with the kinds and the slug of the operation, not approved, and gave the
-- draft the number 1; a revision was of the page's current revision, left the approval and the slug,
-- superseded an old draft and took the next number. Other pages and revisions are as they were
-- before each operation.
pub apply_change_set-SetPerformed :
    (c : Caller) (conversation : Uuid) (s : ChangeSet) (db : Db) (r : List Uuid × Db)
    → apply_change_set c conversation s db ≡ ok r
    → SetPerformed c s db r
unfolding apply_change_set audit
apply_change_set-SetPerformed c conversation s db r h0 =
    let (unmanaged, h1) = reject_if->> (repository_managed db c.organization) read_only _ h0 in
    go unmanaged (is_blank s.clarification) refl h1
  where
    go :
        repository_managed db c.organization ≡ false
        → (b : Bool) → is_blank s.clarification ≡ b
        → (if not b
            then ok ([], db)
            else (reject_if (no_operations s.operations) empty_change_set
                >> (as_error shape (validate_shape s)
                    >> (apply_changes c s.operations (nothing_applied db) >>= λ done. ok (
                      done.revisions,
                      audit c
                          (codes "assistant.drafts_created")
                          (codes "assistant_conversation")
                          conversation
                          done.db,
                    )))))
          ≡ ok r
        → SetPerformed c s db r
    go unmanaged false e h = record {
      unmanaged = unmanaged;
      asked = λ _. sym (ok-injective h);
      accepted = λ blank. cc (sym e ∙ blank);
      some_operation = λ blank. cc (sym e ∙ blank);
      performed = λ blank. cc (sym e ∙ blank);
    }
    go unmanaged true e h =
        let (present, h2) = reject_if->> (no_operations s.operations) empty_change_set _ h in
        let (_, shaped, h3) = >>=-eq-ok (as_error shape (validate_shape s)) _ h2 in
        let (done, applied, h4) =
          >>=-eq-ok (apply_changes c s.operations (nothing_applied db)) _ h3 in
        let (ids, listed, performed) =
          apply_changes-Performed c s.operations (nothing_applied db) done applied in
        subst (SetPerformed c s db) (ok-injective h4) (record {
          unmanaged = unmanaged;
          asked = λ full. cc (sym e ∙ full);
          accepted = λ _. as_error-eq-ok _ shaped;
          some_operation = λ _. some_operations s.operations present;
          performed = λ _.
              Performed-still
                (subst (λ (l : List Uuid). Performed db s.operations l done.db) (sym listed)
                  performed)
                refl refl;
        })
