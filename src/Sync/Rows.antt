-- ===== src/Sync/Rows.antt =====
-- The statements of ImportRepositorySnapshot of backend/internal/postgres/repository_sync.go.
use viki.Prelude.{
  ℕ, ◌+◌, max, Bool, true, false, not, ◌&&◌, ◌||◌, Option, none, some, [], ◌∷◌, Text, codes,
  text_eq, ◌==◌, is_some, any, if◌then◌else◌, Table, lookup, insert, adjust, Result, ok, err,
}
use viki.Model.{Uuid}
use viki.Sync.{
  Snapshot, Entry, SnapshotRow, SourcePage, SourceRevision, SyncDb, SyncError, run_of,
  identity_unavailable, constraint_violated,
}

abbrev pub fresh_id : SyncDb → Uuid
fresh_id db = db.uuid db.drawn

abbrev same_run : Uuid → ℕ → ℕ → Table SnapshotRow → Bool
same_run org run attempt =
    any (λ row. row.1.organization == org && row.1.run == run && row.1.attempt == attempt)

abbrev pub snapshot_row : Uuid → Snapshot → SnapshotRow
snapshot_row org s = record {
  organization = org;
  commit = s.source.commit;
  content_hash = s.source.content_hash;
  run = run_of s;
  attempt = s.publication.run_attempt;
  raw = s.raw;
}

unfoldable pub insert_snapshot : Uuid → Snapshot → SyncDb → Result SyncError (Uuid × SyncDb)
insert_snapshot org s db =
    if is_some (lookup (fresh_id db) db.snapshots)
      || same_run org (run_of s) s.publication.run_attempt db.snapshots
    then err constraint_violated
    else ok (
      fresh_id db,
      record db {
        drawn = db.drawn + 1;
        snapshots = insert (fresh_id db) (snapshot_row org s) db.snapshots;
      },
    )

-- UPDATE repository_pages SET archived=true WHERE organization_id=$1
unfoldable pub archive_pages : Uuid → Table SourcePage → Table SourcePage
archive_pages org [] = []
archive_pages org ((id, p) ∷ rest) =
    let others = archive_pages org rest in
    (id, if p.organization == org then record p { archived = true } else p) ∷ others

unfoldable pub find_page : Uuid → Text → Table SourcePage → Option (Uuid × SourcePage)
find_page org external_id [] = none
find_page org external_id ((id, p) ∷ rest) =
    let others = find_page org external_id rest in
    if p.organization == org && text_eq p.external_id external_id then some (id, p) else others

abbrev is_source_kind : Text → Bool
is_source_kind k =
    text_eq k (codes "concept") || text_eq k (codes "feature") || text_eq k (codes "scenario")

abbrev pub unarchive : SourcePage → SourcePage
unarchive p = record p { archived = false }

abbrev pub source_page : Uuid → Entry → SourcePage
source_page org e = record {
  organization = org;
  external_id = e.external_id;
  kind = e.kind;
  current = none;
  archived = false;
}

abbrev pub upsert_found :
    Uuid → Entry → SyncDb → Option (Uuid × SourcePage) → Result SyncError (Uuid × SyncDb)
upsert_found org e db (some (id, p)) =
    if text_eq p.kind e.kind
    then ok (id, record db { pages = adjust id unarchive db.pages })
    else err identity_unavailable
upsert_found org e db none =
    if not (is_source_kind e.kind) || is_some (lookup (fresh_id db) db.pages)
    then err identity_unavailable
    else ok (
      fresh_id db,
      record db { drawn = db.drawn + 1; pages = insert (fresh_id db) (source_page org e) db.pages },
    )

-- INSERT INTO repository_pages ... ON CONFLICT ... DO UPDATE ... WHERE kind is the same
unfoldable pub upsert_page : Uuid → Entry → SyncDb → Result SyncError (Uuid × SyncDb)
upsert_page org e db = upsert_found org e db (find_page org e.external_id db.pages)

unfoldable pub find_revision : Uuid → Text → Table SourceRevision → Option Uuid
find_revision page hash [] = none
find_revision page hash ((id, r) ∷ rest) =
    let others = find_revision page hash rest in
    if r.page == page && text_eq r.business_hash hash then some id else others

unfoldable pub last_number : Uuid → Table SourceRevision → ℕ
last_number page [] = 0
last_number page ((_, r) ∷ rest) =
    let others = last_number page rest in if r.page == page then max r.number others else others

abbrev pub new_revision : Uuid → Entry → SyncDb → SourceRevision
new_revision page e db = record {
  page = page;
  number = last_number page db.revisions + 1;
  business_hash = e.business_hash;
  entry = e;
}

abbrev pub reuse_revision : Uuid → Entry → SyncDb → Option Uuid → Result SyncError (Uuid × SyncDb)
reuse_revision page e db (some id) = ok (id, db)
reuse_revision page e db none =
    if is_some (lookup (fresh_id db) db.revisions)
    then err constraint_violated
    else ok (
      fresh_id db,
      record db {
        drawn = db.drawn + 1;
        revisions = insert (fresh_id db) (new_revision page e db) db.revisions;
      },
    )

-- The revision with the entry's business hash, or a new one.
unfoldable pub resolve_revision : Uuid → Entry → SyncDb → Result SyncError (Uuid × SyncDb)
resolve_revision page e db =
    reuse_revision page e db (find_revision page e.business_hash db.revisions)

unfoldable pub list_entry : Uuid → Uuid → Uuid → Entry → SyncDb → Result SyncError SyncDb
list_entry snapshot page revision e db =
    if any (λ l. l.snapshot == snapshot && l.page == page) db.listed
    then err constraint_violated
    else ok (record db {
      listed =
          record { snapshot = snapshot; page = page; revision = revision; entry = e } ∷ db.listed;
      pages = adjust page (λ p. record p { current = some revision; archived = false }) db.pages;
    })
