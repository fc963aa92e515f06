-- ===== src/Wiki/Frame.antt =====
-- What the shared inserts leave alone, and what insertRevision adds.
use viki.Prelude.{
  ℕ, ◌+◌, ◌≡◌, refl, ◌∙◌, false, Option, none, some, List, [], ◌∷◌, Text, trim_space, lookup,
  insert, Result, ok, err, ◌>>=◌, >>=-eq-ok, ok-injective, arith,
}
use mathlib.Core.Path.{subst}
use viki.Model.{Uuid, Keyword, StepRole, draft, Step, PageReference, RevisionContent}
use viki.Pages.{role_of}
use viki.Pages.Render.{render_step_expression}
use viki.Wiki.State.{Db, Revision, Caller, Error, render, as_error}
use viki.Wiki.Writes.{
  insert_draft, insert_steps, insert_step, store_step, stable, insert_reference, insert_references,
  insert_revision, resolve_definition, revision_conflicts, upsert_definition,
}

-- The tables that storing the steps and references of a revision does not touch.
pub record Frame (a b : Db) : Type 0 where
  pub pages : b.pages ≡ a.pages
  pub revisions : b.revisions ≡ a.revisions
  pub objections : b.objections ≡ a.objections
  pub comments : b.comments ≡ a.comments
  pub developments : b.developments ≡ a.developments
  pub managed : b.managed ≡ a.managed
  pub audits : b.audits ≡ a.audits

pub Frame-refl : (a : Db) → Frame a a
Frame-refl a = record {
  pages = refl;
  revisions = refl;
  objections = refl;
  comments = refl;
  developments = refl;
  managed = refl;
  audits = refl;
}

pub Frame-trans : {a b c : Db} → Frame a b → Frame b c → Frame a c
Frame-trans f g = record {
  pages = g.pages ∙ f.pages;
  revisions = g.revisions ∙ f.revisions;
  objections = g.objections ∙ f.objections;
  comments = g.comments ∙ f.comments;
  developments = g.developments ∙ f.developments;
  managed = g.managed ∙ f.managed;
  audits = g.audits ∙ f.audits;
}

module _ (c : Caller) (role : StepRole) where
  upsert_definition-Frame :
      (e : Text) (db : Db) (r : Uuid × Db) → upsert_definition c role e db ≡ ok r → Frame db r.1
  unfolding upsert_definition
  upsert_definition-Frame e db r h = ground arith

  resolve_definition-Frame :
      (s : Step) (db : Db) (r : Uuid × Text × Db)
      → resolve_definition c role s db ≡ ok r
      → Frame db r.2
  unfolding resolve_definition
  resolve_definition-Frame s db r h = ground arith

  store_step-Frame :
      (revision : Uuid) (position : ℕ) (s : Step) (definition : Uuid) (text : Text)
      (id : Option Uuid) (db : Db)
      → let named = stable id db in
        Frame db (store_step revision position s definition text named.0 named.1)
  unfolding store_step
  store_step-Frame revision position s definition text none db = ground arith
  store_step-Frame revision position s definition text (some id) db = ground arith

  insert_step-Frame :
      (revision : Uuid) (position : ℕ) (s : Step) (db db' : Db)
      → insert_step c revision position role s db ≡ ok db'
      → Frame db db'
  unfolding insert_step
  insert_step-Frame revision position s db db' h = go (resolve_definition c role s db) refl h
    where
      text_then :
          (found : Uuid × Text × Db) (m : Result Error Text)
          → (m >>= λ text.
              let named = stable s.stable_id found.2 in
              ok (store_step revision position s found.0 text named.0 named.1))
            ≡ ok db'
          → Frame found.2 db'
      text_then found (ok text) e =
          subst (Frame found.2) (ok-injective e)
            (store_step-Frame revision position s found.0 text s.stable_id found.2)
      text_then found (err x) e = cc

      go :
          (m : Result Error (Uuid × Text × Db))
          → resolve_definition c role s db ≡ m
          → (m >>= λ found.
              as_error
                (render (position + 1))
                (render_step_expression db.prints found.1 s.arguments)
              >>= λ text.
                  let named = stable s.stable_id found.2 in
                  ok (store_step revision position s found.0 text named.0 named.1))
            ≡ ok db'
          → Frame db db'
      go (ok found) e k = Frame-trans (resolve_definition-Frame s db found e) (text_then found _ k)
      go (err x) e k = cc

insert_steps-Frame :
    (c : Caller) (revision : Uuid) (position : ℕ) (before : List Keyword) (steps : List Step)
    (db db' : Db)
    → insert_steps c revision position before steps db ≡ ok db'
    → Frame db db'
unfolding insert_steps
insert_steps-Frame c revision position before [] db db' h =
    subst (Frame db) (ok-injective h) (Frame-refl db)
insert_steps-Frame c revision position before (s ∷ rest) db db' h =
    let role = role_of (s.keyword ∷ before) in
    let (mid, e, h1) = >>=-eq-ok (insert_step c revision position role s db) _ h in
    Frame-trans (insert_step-Frame c role revision position s db mid e)
      (insert_steps-Frame c revision (position + 1) (s.keyword ∷ before) rest mid db' h1)

insert_reference-Frame :
    (c : Caller) (revision : Uuid) (ref : PageReference) (db db' : Db)
    → insert_reference c revision ref db ≡ ok db'
    → Frame db db'
unfolding insert_reference
insert_reference-Frame c revision ref db db' h = ground arith

insert_references-Frame :
    (c : Caller) (revision : Uuid) (refs : List PageReference) (db db' : Db)
    → insert_references c revision refs db ≡ ok db'
    → Frame db db'
unfolding insert_references
insert_references-Frame c revision [] db db' h = subst (Frame db) (ok-injective h) (Frame-refl db)
insert_references-Frame c revision (ref ∷ rest) db db' h =
    let (mid, e, h1) = >>=-eq-ok (insert_reference c revision ref db) _ h in
    Frame-trans (insert_reference-Frame c revision ref db mid e)
      (insert_references-Frame c revision rest mid db' h1)

-- The row that insertRevision adds.
abbrev pub draft_row : Caller → Uuid → ℕ → Option Uuid → RevisionContent → Revision
draft_row c page number base content = record {
  page = page;
  number = number;
  status = draft;
  title = trim_space content.title;
  body_md = content.body_md;
  base = base;
  created_by = c.user;
  approved_at = none;
}

-- What a successful insertRevision did: a new row under a free key, for a page without a draft and
-- with a number that the page did not have.
pub record Inserted (c : Caller) (page : Uuid) (number : ℕ) (base : Option Uuid)
    (content : RevisionContent) (db : Db) (r : Uuid × Db) : Type 0 where
  pub free : lookup r.0 db.revisions ≡ none
  pub fits : revision_conflicts page number db.revisions ≡ false
  pub pages : r.1.pages ≡ db.pages
  pub revisions : r.1.revisions ≡ insert r.0 (draft_row c page number base content) db.revisions
  pub objections : r.1.objections ≡ db.objections
  pub comments : r.1.comments ≡ db.comments
  pub developments : r.1.developments ≡ db.developments
  pub managed : r.1.managed ≡ db.managed
  pub audits : r.1.audits ≡ db.audits

insert_draft-Inserted :
    (c : Caller) (page : Uuid) (number : ℕ) (base : Option Uuid) (content : RevisionContent)
    (db : Db) (r : Uuid × Db)
    → insert_draft c page number base content db ≡ ok r
    → Inserted c page number base content db r
unfolding insert_draft
insert_draft-Inserted c page number base content db r h = ground arith

pub insert_revision-Inserted :
    (c : Caller) (page : Uuid) (number : ℕ) (base : Option Uuid) (content : RevisionContent)
    (db : Db) (r : Uuid × Db)
    → insert_revision c page number base content db ≡ ok r
    → Inserted c page number base content db r
unfolding insert_revision
insert_revision-Inserted c page number base content db r h =
    let (made, e1, h1) = >>=-eq-ok (insert_draft c page number base content db) _ h in
    let (db1, e2, h2) = >>=-eq-ok (insert_steps c made.0 0 [] content.steps made.1) _ h1 in
    let (db2, e3, h3) = >>=-eq-ok (insert_references c made.0 content.references db1) _ h2 in
    let row = insert_draft-Inserted c page number base content db made e1 in
    let f =
      Frame-trans (insert_steps-Frame c made.0 0 [] content.steps made.1 db1 e2)
        (insert_references-Frame c made.0 content.references db1 db2 e3) in
    subst (Inserted c page number base content db) (ok-injective h3) (record {
      free = row.free;
      fits = row.fits;
      pages = f.pages ∙ row.pages;
      revisions = f.revisions ∙ row.revisions;
      objections = f.objections ∙ row.objections;
      comments = f.comments ∙ row.comments;
      developments = f.developments ∙ row.developments;
      managed = f.managed ∙ row.managed;
      audits = f.audits ∙ row.audits;
    })
