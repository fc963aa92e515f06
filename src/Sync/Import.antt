-- ===== src/Sync/Import.antt =====
-- ConfigureRepositoryWorkspace, RecordRepositoryPoll and the transaction of ImportRepositorySnapshot of
-- backend/internal/postgres/repository_sync.go, on a snapshot whose entries Entries returned.
use viki.Prelude.{
  ℕ, Bool, not, ◌&&◌, ◌||◌, Option, none, some, List, [], ◌∷◌, Text, text_eq, is_empty, ltb, ◌==◌,
  is_some, any, if◌then◌else◌, lookup, insert, adjust, Result, ok, err, ◌>>=◌, ◌>>◌, reject_if,
}
use viki.Model.{Uuid}
use viki.Sync.{
  Snapshot, Entry, Workspace, SnapshotRow, SyncDb, SyncError, is_eligible, run_of,
  official_repository, unsupported_repository, authored_pages, not_eligible, no_workspace,
  other_repository, missing_snapshot, stale_snapshot, conflicting_snapshot,
}
use viki.Sync.Rows.{insert_snapshot, archive_pages, upsert_page, resolve_revision, list_entry}

abbrev new_workspace : Text → Workspace
new_workspace repository = record {
  repository = repository;
  current = none;
  last_checked_at = none;
  last_error = [];
  last_error_at = none;
}

-- The INSERT ... SELECT ... WHERE NOT EXISTS ... ON CONFLICT DO UPDATE
abbrev upsert_workspace : Uuid → Text → SyncDb → SyncDb
upsert_workspace org repository db =
    if any (λ o. o == org) db.authored
    then db
    else if is_some (lookup org db.workspaces)
    then record db {
      workspaces = adjust org (λ w. record w { repository = repository }) db.workspaces;
    }
    else record db { workspaces = insert org (new_workspace repository) db.workspaces }

unfoldable pub configure_workspace : Uuid → Text → SyncDb → Result SyncError SyncDb
configure_workspace org repository db = do
  reject_if (not (is_empty repository) && not (text_eq repository official_repository))
      unsupported_repository
  if is_empty repository then ok db else do
    let db' = upsert_workspace org repository db
    reject_if (not (is_some (lookup org db'.workspaces))) authored_pages
    ok db'

unfoldable pub record_poll : Uuid → Text → ℕ → SyncDb → SyncDb
record_poll org code now db = record db {
  workspaces =
      adjust org
        (λ w. record w {
          last_checked_at = some now;
          last_error = code;
          last_error_at = if is_empty code then none else some now;
        })
        db.workspaces;
}

-- The body of the loop over the entries.
unfoldable pub import_entry : Uuid → Uuid → Entry → SyncDb → Result SyncError SyncDb
import_entry org snapshot e db = do
  page ← upsert_page org e db
  revision ← resolve_revision page.0 e page.1
  list_entry snapshot page.0 revision.0 e revision.1

unfoldable pub import_entries : Uuid → Uuid → List Entry → SyncDb → Result SyncError SyncDb
import_entries org snapshot [] db = ok db
import_entries org snapshot (e ∷ rest) db =
    import_entry org snapshot e db >>= import_entries org snapshot rest

abbrev pub checked : Option Uuid → ℕ → Workspace → Workspace
checked current now w = record w {
  current = current;
  last_checked_at = some now;
  last_error = [];
  last_error_at = none;
}

abbrev pub check_workspace : Uuid → Option Uuid → ℕ → SyncDb → SyncDb
check_workspace org current now db = record db {
  workspaces = adjust org (checked current now) db.workspaces;
}

-- The import of a run that is not older than the last one.
unfoldable pub import_new : Uuid → ℕ → Snapshot → List Entry → SyncDb → Result SyncError SyncDb
import_new org now s entries db = do
  made ← insert_snapshot org s db
  done ←
      import_entries org made.0 entries (record made.1 { pages = archive_pages org made.1.pages })
  ok (check_workspace org (some made.0) now done)

abbrev pub is_older : Snapshot → SnapshotRow → Bool
is_older s last =
    ltb (run_of s) last.run || run_of s == last.run && ltb s.publication.run_attempt last.attempt

abbrev pub is_same_run : Snapshot → SnapshotRow → Bool
is_same_run s last = run_of s == last.run && s.publication.run_attempt == last.attempt

-- The comparison with the last run. Its JSON is stored and encoded again, which gives the same text.
abbrev pub import_after :
    Uuid → ℕ → Snapshot → List Entry → SyncDb → Uuid → Option SnapshotRow → Result SyncError SyncDb
import_after org now s entries db last none = err missing_snapshot
import_after org now s entries db last (some row) =
    if is_older s row
    then err stale_snapshot
    else if is_same_run s row
    then (if text_eq row.raw s.raw
        then ok (check_workspace org (some last) now db)
        else err conflicting_snapshot)
    else import_new org now s entries db

abbrev pub import_current :
    Uuid → ℕ → Snapshot → List Entry → SyncDb → Option Uuid → Result SyncError SyncDb
import_current org now s entries db none = import_new org now s entries db
import_current org now s entries db (some last) =
    import_after org now s entries db last (lookup last db.snapshots)

abbrev pub workspace_of : Option Workspace → Result SyncError Workspace
workspace_of none = err no_workspace
workspace_of (some w) = ok w

unfoldable pub import_snapshot : Uuid → ℕ → Snapshot → List Entry → SyncDb → Result SyncError SyncDb
import_snapshot org now s entries db = do
  reject_if (not (is_eligible s)) not_eligible
  w ← workspace_of (lookup org db.workspaces)
  reject_if (not (text_eq w.repository s.source.repository)) other_repository
  import_current org now s entries db w.current
