-- ===== src/Wiki/Save.antt =====
-- SaveRevision of backend/internal/postgres/pages_write.go.
use viki.Prelude.{
  ℕ, ◌+◌, max, Bool, not, ◌==◌, Option, none, some, [], ◌∷◌, codes, if◌then◌else◌, Table, adjust,
  opt_eq, Result, ok, err, ◌>>=◌, ◌>>◌, reject_if,
}
use viki.Model.{Uuid, superseded, RevisionContent}
use viki.Pages.{validate_page_input}
use viki.Wiki.State.{
  Db, Page, Revision, Caller, Error, read_only, not_found, conflict, input, as_error,
}
use viki.Wiki.Writes.{
  is_draft, repository_managed, audit, page_of, insert_revision, set_latest_draft,
}

-- The revision that a change has to be based on: the draft, or else the approved revision.
abbrev pub current_revision : Page → Option Uuid
current_revision p = elim p.latest_draft [ some d ↦ some d | none ↦ p.approved ]

-- currentID == nil || *currentID != base
abbrev pub is_current : Option Uuid → Uuid → Bool
is_current cur base = opt_eq cur (some base)

-- SELECT COALESCE(max(number), 0) FROM revisions WHERE page_id = $1
unfoldable pub max_number : Uuid → Table Revision → ℕ
max_number page [] = 0
max_number page ((_, r) ∷ rest) =
    let above = max_number page rest in if r.page == page then max r.number above else above

abbrev pub supersede : Revision → Revision
supersede r = if is_draft r.status then record r { status = superseded } else r

-- UPDATE revisions SET status = 'superseded' WHERE id = $1 AND status = 'draft', where there is a
-- draft.
unfoldable pub supersede_draft : Option Uuid → Db → Db
supersede_draft none db = db
supersede_draft (some d) db = record db { revisions = adjust d supersede db.revisions }

-- The writes of a new draft of a page whose current revision is the given base.
unfoldable pub write_draft :
    Caller → Uuid → Page → Uuid → RevisionContent → Db → Result Error (Uuid × ℕ × Db)
unfolding max_number
write_draft c id p base content db =
    let number = max_number id db.revisions + 1 in
    insert_revision c id number (some base) content (supersede_draft p.latest_draft db) >>= λ r.
    ok (r.0, number, set_latest_draft id r.0 c.now r.1)

abbrev pub or_not_found : Option Page → Result Error Page
or_not_found none = err not_found
or_not_found (some p) = ok p

unfoldable pub save_revision :
    Caller → Uuid → Uuid → RevisionContent → Db → Result Error (Uuid × Db)
save_revision c id base content db = do
  reject_if (repository_managed db c.organization) read_only
  p ← or_not_found (page_of c id db)
  reject_if (not (is_current (current_revision p) base)) conflict
  as_error input (validate_page_input p.kind p.concept_kind p.parent content)
  made ← write_draft c id p base content db
  ok (made.0, audit c (codes "revision.saved") (codes "revision") made.0 made.2)
