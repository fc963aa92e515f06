-- ===== src/Tests/Sync.antt =====
-- The first import of a snapshot.
use viki.Prelude.{
  Text, codes, List, ◌∷◌, ◌≡◌, refl, true, false, [], ◌∷◌, none, codes, Result, ok, err, lookup,
  insert, adjust,
}
use viki.Sync.{Snapshot, Entry, SyncDb, SyncError, is_eligible, parse_run, official_repository}
use viki.Sync.Rows.{
  insert_snapshot, archive_pages, find_page, upsert_page, find_revision, last_number,
  resolve_revision, list_entry,
}
use viki.Sync.Import.{import_entry, import_entries, import_new, import_snapshot}
use viki.Sync.Tags.{tags, scan_tags, ids, concepts, tags_lem}
use viki.Sync.History.{ImportOutcome, import_snapshot-ImportOutcome}

abbrev sample_snapshot : Snapshot
sample_snapshot = record {
  source = record {
    repository = official_repository;
    commit = codes "abc";
    dirty = false;
    content_hash = codes "sha256:1";
  };
  publication = record {
    kind = codes "main";
    event = codes "push";
    ref = codes "refs/heads/main";
    workflow = codes ".github/workflows/verify.yml";
    run_id = codes "17";
    run_attempt = 1;
    eligible = true;
  };
  messages_hash = codes "sha256:2";
  raw = codes "{}";
}

abbrev sample_entry : Entry
sample_entry = record {
  external_id = codes "VOZ-CON-A";
  kind = codes "concept";
  parent_id = [];
  title = codes "A";
  body = codes "Text";
  steps = [];
  concept_ids = [];
  path = codes "a.md";
  source_content = codes "Text";
  document_hash = codes "sha256:3";
  business_hash = codes "sha256:3";
}

abbrev configured : SyncDb
configured = record {
  uuid = λ k. k;
  drawn = 1;
  authored = [];
  workspaces =
      (
        9,
        record {
          repository = official_repository;
          current = none;
          last_checked_at = none;
          last_error = [];
          last_error_at = none;
        },
      )
      ∷ [];
  snapshots = [];
  pages = [];
  revisions = [];
  listed = [];
}

abbrev imported : Result SyncError SyncDb → SyncDb
imported (ok db) = db
imported (err _) = configured

abbrev sample_imported : SyncDb
sample_imported = imported (import_snapshot 9 50 sample_snapshot (sample_entry ∷ []) configured)

import_works :
    import_snapshot 9 50 sample_snapshot (sample_entry ∷ []) configured ≡ ok sample_imported
unfolding import_snapshot import_new import_entries import_entry list_entry resolve_revision
    last_number find_revision upsert_page find_page archive_pages insert_snapshot is_eligible
    parse_run lookup insert adjust
import_works = refl

import_snapshot-ImportOutcome_example : ImportOutcome 9 sample_snapshot configured sample_imported
import_snapshot-ImportOutcome_example =
    import_snapshot-ImportOutcome 9 50 sample_snapshot (sample_entry ∷ []) configured
      sample_imported import_works

abbrev sample_tags : List Text
sample_tags = codes "@id:VOZ-FEAT-A" ∷ codes "@concept:VOZ-CON-B" ∷ []

tags_work : tags true sample_tags ≡ ok (codes "VOZ-FEAT-A", codes "VOZ-CON-B" ∷ [])
unfolding tags scan_tags
tags_work = refl

tags_lem_example :
    (ids sample_tags ≡ codes "VOZ-FEAT-A" ∷ []) × ((codes "VOZ-CON-B" ∷ []) ≡ concepts sample_tags)
tags_lem_example = tags_lem true sample_tags (codes "VOZ-FEAT-A", codes "VOZ-CON-B" ∷ []) tags_work
