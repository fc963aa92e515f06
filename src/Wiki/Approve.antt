-- ===== src/Wiki/Approve.antt =====
-- ApproveRevision of backend/internal/postgres/review.go.
use viki.Prelude.{
  ℕ, Bool, false, not, ◌&&◌, ◌==◌, Option, none, some, List, [], ◌∷◌, codes, any, is_some,
  if◌then◌else◌, Table, lookup, insert, adjust, opt_eq, Result, ok, err, ◌>>=◌, ◌>>◌, reject_if,
}
use viki.Model.{Uuid, approved, superseded, queued}
use viki.Governance.{ObjectionState, can_approve, parent_feature_not_approved}
use viki.Wiki.State.{
  Db, Page, Revision, StepDefinition, StepRow, Objection, Caller, Error, read_only, not_found,
  conflict, policy, constraint_violated, as_error,
}
use viki.Wiki.Writes.{is_scenario, repository_managed, audit, page_of}

-- The page of a revision in the caller's organization.
abbrev revision_page_from : Caller → Option Revision → Db → Result Error (Uuid × Page)
revision_page_from c none db = err not_found
revision_page_from c (some r) db = elim (page_of c r.page db) [
  | none ↦ err not_found
  | some p ↦ ok (r.page, p)
]

unfoldable pub revision_page : Caller → Uuid → Db → Result Error (Uuid × Page)
revision_page c revision db = revision_page_from c (lookup revision db.revisions) db

-- parent.approved_revision_id of the LEFT JOIN
abbrev pub parent_approved : Page → Db → Option Uuid
parent_approved p db = elim p.parent [
  | none ↦ none
  | some q ↦ elim (lookup q db.pages) [ none ↦ none | some parent ↦ parent.approved ]
]

-- SELECT id FROM objections WHERE page_id = $1 AND resolved_at IS NULL
unfoldable pub open_objections : Uuid → Table Objection → List ObjectionState
open_objections page [] = []
open_objections page ((id, o) ∷ rest) =
    let others = open_objections page rest in
    if o.page == page && not (is_some o.resolved_at)
    then record { id = id; resolved = false } ∷ others
    else others

abbrev pub supersede_approved : Option Uuid → Db → Db
supersede_approved none db = db
supersede_approved (some a) db = record db {
  revisions = adjust a (λ r. record r { status = superseded }) db.revisions;
}

-- The writes that make a revision the approved one of its page.
unfoldable pub mark_approved : Caller → Uuid → Page → Uuid → Db → Db
mark_approved c id p revision db =
    let db1 = supersede_approved p.approved db in
    record db1 {
      revisions =
          adjust revision (λ r. record r { status = approved; approved_at = some c.now })
            db1.revisions;
      pages =
          adjust id
            (λ q. record q { approved = some revision; latest_draft = none; updated_at = c.now })
            db1.pages;
    }

abbrev uses_definition : Uuid → Uuid → List StepRow → Bool
uses_definition revision definition =
    any (λ s. s.revision == revision && s.definition == definition)

abbrev or_now : Option ℕ → ℕ → Option ℕ
or_now none now = some now
or_now (some t) now = some t

-- UPDATE step_definitions SET approved_at = COALESCE(approved_at, now()) WHERE id IN (...)
unfoldable pub approve_definitions :
    Uuid → ℕ → List StepRow → Table StepDefinition → Table StepDefinition
approve_definitions revision now steps [] = []
approve_definitions revision now steps ((id, d) ∷ rest) =
    let others = approve_definitions revision now steps rest in
    (
      id,
      if uses_definition revision id steps
          then record d { approved_at = or_now d.approved_at now }
          else d,
    )
    ∷ others

-- An approved scenario approves its definitions and queues its development.
unfoldable pub queue_rows : Caller → Uuid → Db → Db
unfolding approve_definitions
queue_rows c revision db = record db {
  definitions = approve_definitions revision c.now db.steps db.definitions;
  developments =
      insert revision (record { status = queued; detail = []; updated_at = c.now }) db.developments;
}

unfoldable pub queue_scenario : Caller → Page → Uuid → Db → Result Error Db
unfolding queue_rows
queue_scenario c p revision db =
    if not (is_scenario p.kind)
    then ok db
    else if is_some (lookup revision db.developments)
    then err constraint_violated
    else ok (queue_rows c revision db)

unfoldable pub approve_revision : Caller → Uuid → Db → Result Error (Uuid × Db)
unfolding open_objections
approve_revision c revision db = do
  reject_if (repository_managed db c.organization) read_only
  found ← revision_page c revision db
  reject_if (not (opt_eq found.1.latest_draft (some revision))) conflict
  reject_if (is_scenario found.1.kind && not (is_some (parent_approved found.1 db)))
      (policy parent_feature_not_approved)
  as_error policy (can_approve (open_objections found.0 db.objections))
  db' ← queue_scenario c found.1 revision (mark_approved c found.0 found.1 revision db)
  ok (found.0, audit c (codes "revision.approved") (codes "revision") revision db')
