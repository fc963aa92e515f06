-- ===== src/Wiki/Review.antt =====
-- AddComment, AddObjection and ResolveObjection of backend/internal/postgres/review.go.
use viki.Prelude.{
  Bool, false, not, ◌&&◌, ◌==◌, Option, none, some, Text, codes, trim_space, is_empty, is_some,
  if◌then◌else◌, lookup, insert, adjust, Result, ok, err, ◌>>=◌, ◌>>◌, reject_if,
}
use viki.Model.{Uuid}
use viki.Governance.{validate_objection_reason}
use viki.Wiki.State.{
  Db, Objection, Comment, Caller, Error, not_found, comment_required, foreign_parent_comment,
  constraint_violated, policy, as_error,
}
use viki.Wiki.Writes.{fresh, draw, audit, page_of}
use viki.Wiki.Approve.{revision_page}

-- SELECT EXISTS(... WHERE r.id = $1 AND p.id = $2 AND p.organization_id = $3)
abbrev pub is_revision_of : Caller → Uuid → Uuid → Db → Bool
is_revision_of c page revision db = elim (revision_page c revision db) [
  | ok found ↦ found.0 == page
  | err _ ↦ false
]

abbrev pub same_thread : Uuid → Uuid → Option Comment → Bool
same_thread page revision none = false
same_thread page revision (some k) = k.page == page && k.revision == revision

abbrev pub check_parent_comment : Uuid → Uuid → Option Uuid → Db → Result Error (Unit {0})
check_parent_comment page revision none db = ok tt
check_parent_comment page revision (some k) db =
    reject_if (not (same_thread page revision (lookup k db.comments))) foreign_parent_comment

abbrev insert_comment : Comment → Db → Result Error (Uuid × Db)
insert_comment k db =
    if is_some (lookup (fresh db) db.comments)
    then err constraint_violated
    else ok (fresh db, record (draw db) { comments = insert (fresh db) k db.comments })

unfoldable pub add_comment :
    Caller → Uuid → Uuid → Option Uuid → Text → Db → Result Error (Uuid × Db)
add_comment c page revision parent body db = do
  reject_if (is_empty (trim_space body)) comment_required
  reject_if (not (is_revision_of c page revision db)) not_found
  check_parent_comment page revision parent db
  made ←
      insert_comment
        (record {
          page = page;
          revision = revision;
          parent = parent;
          body = trim_space body;
          author = c.user;
        })
        db
  ok (made.0, audit c (codes "comment.created") (codes "comment") made.0 made.1)

abbrev insert_objection : Objection → Db → Result Error (Uuid × Db)
insert_objection o db =
    if is_some (lookup (fresh db) db.objections)
    then err constraint_violated
    else ok (fresh db, record (draw db) { objections = insert (fresh db) o db.objections })

unfoldable pub add_objection : Caller → Uuid → Text → Db → Result Error (Uuid × Db)
add_objection c revision body db = do
  as_error policy (validate_objection_reason (trim_space body))
  found ← revision_page c revision db
  made ←
      insert_objection
        (record {
          page = found.0;
          revision = revision;
          body = trim_space body;
          author = c.user;
          resolved_at = none;
          resolved_by = none;
        })
        db
  ok (made.0, audit c (codes "objection.created") (codes "objection") made.0 made.1)

-- The row that the UPDATE of ResolveObjection selects.
abbrev pub open_objection : Caller → Uuid → Db → Bool
open_objection c id db = elim (lookup id db.objections) [
  | none ↦ false
  | some o ↦ not (is_some o.resolved_at) && is_some (page_of c o.page db)
]

unfoldable pub resolve_objection : Caller → Uuid → Db → Result Error Db
resolve_objection c id db = do
  reject_if (not (open_objection c id db)) not_found
  let resolve : Objection → Objection =
      λ o. record o { resolved_at = some c.now; resolved_by = some c.user }
  ok (
      audit c (codes "objection.resolved") (codes "objection") id
        (record db { objections = adjust id resolve db.objections }))
