-- ===== src/Wiki/Refine/Others.antt =====
-- The remaining operations leave the pages and revisions alone. `Step` is one operation of the wiki
-- that returned, and `Reach` a sequence of them.
use viki.Prelude.{List, ℕ, ◌≡◌, Option, Text, ok, arith}
use mathlib.Core.Path.{subst}
use viki.Model.{Uuid, RevisionContent, DevelopmentStatus}
use viki.Wiki.State.{Db, Caller}
use viki.Wiki.Writes.{audit}
use viki.Wiki.Create.{CreatePageInput, create_page}
use viki.Wiki.Save.{save_revision}
use viki.Wiki.Approve.{approve_revision}
use viki.Wiki.Review.{add_comment, add_objection, resolve_objection}
use viki.Wiki.Queue.{claim_development, finish_development}
use viki.Wiki.Moves.{Moves, still, approves}
use viki.Wiki.Refine.{create_page-Moves}
use viki.Changes.{ChangeSet}
use viki.Wiki.Changes.{apply_change_set}
use viki.Wiki.Refine.Changes.{Drafts-Moves, apply_change_set-Drafts}
use viki.Wiki.Refine.Update.{
  save_revision-Moves, approve_revision-Approved, approve_revision-Approves,
}

-- Neither pages nor revisions changed.
record Still (a b : Db) : Type 0 where
  pages : b.pages ≡ a.pages
  revisions : b.revisions ≡ a.revisions

add_comment-Still :
    (c : Caller) (page revision : Uuid) (parent : Option Uuid) (body : Text) (db : Db)
    (r : Uuid × Db)
    → add_comment c page revision parent body db ≡ ok r
    → Still db r.1
unfolding add_comment audit
add_comment-Still c page revision parent body db r h = ground arith

add_objection-Still :
    (c : Caller) (revision : Uuid) (body : Text) (db : Db) (r : Uuid × Db)
    → add_objection c revision body db ≡ ok r
    → Still db r.1
unfolding add_objection audit
add_objection-Still c revision body db r h = ground arith

resolve_objection-Still :
    (c : Caller) (id : Uuid) (db db' : Db) → resolve_objection c id db ≡ ok db' → Still db db'
unfolding resolve_objection audit
resolve_objection-Still c id db db' h = ground arith

claim_development-Still :
    (now : ℕ) (db : Db) (r : Uuid × Db) → claim_development now db ≡ ok r → Still db r.1
unfolding claim_development
claim_development-Still now db r h = ground arith

finish_development-Still :
    (now : ℕ) (id : Uuid) (status : DevelopmentStatus) (detail : Text) (db db' : Db)
    → finish_development now id status detail db ≡ ok db'
    → Still db db'
unfolding finish_development
finish_development-Still now id status detail db db' h = ground arith

-- One operation that returned, with the tables before and after it.
pub data Step (db : Db) : Db → Type 0 where
  creating :
      (c : Caller) (i : CreatePageInput) (r : Uuid × Db) {db' : Db}
      → create_page c i db ≡ ok r
      → r.1 ≡ db'
      → Step db db'
  saving :
      (c : Caller) (id base : Uuid) (content : RevisionContent) (r : Uuid × Db) {db' : Db}
      → save_revision c id base content db ≡ ok r
      → r.1 ≡ db'
      → Step db db'
  approving :
      (c : Caller) (revision : Uuid) (r : Uuid × Db) {db' : Db}
      → approve_revision c revision db ≡ ok r
      → r.1 ≡ db'
      → Step db db'
  commenting :
      (c : Caller) (page revision : Uuid) (parent : Option Uuid) (body : Text) (r : Uuid × Db)
      {db' : Db}
      → add_comment c page revision parent body db ≡ ok r
      → r.1 ≡ db'
      → Step db db'
  objecting :
      (c : Caller) (revision : Uuid) (body : Text) (r : Uuid × Db) {db' : Db}
      → add_objection c revision body db ≡ ok r
      → r.1 ≡ db'
      → Step db db'
  resolving : (c : Caller) (id : Uuid) {db' : Db} → resolve_objection c id db ≡ ok db' → Step db db'
  claiming :
      (now : ℕ) (r : Uuid × Db) {db' : Db}
      → claim_development now db ≡ ok r
      → r.1 ≡ db'
      → Step db db'
  finishing :
      (now : ℕ) (id : Uuid) (status : DevelopmentStatus) (detail : Text) {db' : Db}
      → finish_development now id status detail db ≡ ok db'
      → Step db db'
  assisting :
      (c : Caller) (conversation : Uuid) (s : ChangeSet) (r : List Uuid × Db) {db' : Db}
      → apply_change_set c conversation s db ≡ ok r
      → r.1 ≡ db'
      → Step db db'

pub data Reach (start : Db) : Db → Type 0 where
  here : Reach start start
  next : {a b : Db} → Reach start a → Step a b → Reach start b

Still-Moves : {a b : Db} → Still a b → Moves a b
Still-Moves s = still s.pages s.revisions

-- Each operation makes the abstract moves.
pub Step-Moves : {a b : Db} → Step a b → Moves a b
Step-Moves {a = a} (creating c i r h e) = subst (Moves a) e (create_page-Moves c i a r h)
Step-Moves {a = a} (saving c id base content r h e) =
    subst (Moves a) e (save_revision-Moves c id base content a r h)
Step-Moves {a = a} (approving c revision r h e) = subst (Moves a) e (
    approves
      (approve_revision-Approves c revision a r (approve_revision-Approved c revision a r h)))
Step-Moves {a = a} (commenting c page revision parent body r h e) =
    subst (Moves a) e (Still-Moves (add_comment-Still c page revision parent body a r h))
Step-Moves {a = a} (objecting c revision body r h e) =
    subst (Moves a) e (Still-Moves (add_objection-Still c revision body a r h))
Step-Moves {a = a} (resolving c id h) = Still-Moves (resolve_objection-Still c id a _ h)
Step-Moves {a = a} (claiming now r h e) =
    subst (Moves a) e (Still-Moves (claim_development-Still now a r h))
Step-Moves {a = a} (finishing now id status detail h) =
    Still-Moves (finish_development-Still now id status detail a _ h)
Step-Moves {a = a} (assisting c conversation s r h e) =
    subst (Moves a) e (Drafts-Moves (apply_change_set-Drafts c conversation s a r h))
