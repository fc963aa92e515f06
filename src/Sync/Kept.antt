-- ===== src/Sync/Kept.antt =====
-- The writes of an import keep every revision and snapshot.
use viki.Prelude.{
  ℕ, ◌≡◌, refl, ap, ◌∙◌, Option, none, some, List, [], ◌∷◌, Table, lookup, lookup-insert,
  lookup-adjust, ok, >>=-eq-ok, ok-injective, arith,
}
use mathlib.Core.Path.{subst}
use viki.Model.{Uuid}
use viki.Sync.{
  Snapshot, Entry, Workspace, SnapshotRow, SourceRevision, SyncDb, SyncError, is_eligible, run_of,
  not_eligible, other_repository,
}
use viki.Sync.Rows.{
  insert_snapshot, upsert_page, upsert_found, find_page, find_revision, resolve_revision,
  reuse_revision, list_entry, fresh_id, new_revision, snapshot_row,
}
use viki.Sync.Import.{import_entry, import_entries, import_new, checked}

-- Every row of a table is in another one.
abbrev pub Keeps {ℓ} : {V : Type ℓ} → Table V → Table V → Type ℓ
Keeps {V = V} t t' = (q : Uuid) (v : V) → lookup q t ≡ some v → lookup q t' ≡ some v

-- An import step keeps the revisions and touches neither snapshots nor workspaces.
pub record Adds (a b : SyncDb) : Type 0 where
  revisions : Keeps a.revisions b.revisions
  snapshots : b.snapshots ≡ a.snapshots
  workspaces : b.workspaces ≡ a.workspaces

Adds-trans : {a b c : SyncDb} → Adds a b → Adds b c → Adds a c
Adds-trans m n = record {
  revisions = λ q v h. n.revisions q v (m.revisions q v h);
  snapshots = n.snapshots ∙ m.snapshots;
  workspaces = n.workspaces ∙ m.workspaces;
}

upsert_page-Adds :
    (org : Uuid) (e : Entry) (a : SyncDb) (r : Uuid × SyncDb)
    → upsert_page org e a ≡ ok r
    → Adds a r.1
unfolding upsert_page
upsert_page-Adds org e a r h = go (find_page org e.external_id a.pages) h
  where
    go : (o : Option (Uuid × viki.Sync.SourcePage)) → upsert_found org e a o ≡ ok r → Adds a r.1
    go none k = record {
      revisions = λ q v s. ground (arith, k, s);
      snapshots = ground (arith, k);
      workspaces = ground (arith, k);
    }
    go (some x) k = record {
      revisions = λ q v s. ground (arith, k, s);
      snapshots = ground (arith, k);
      workspaces = ground (arith, k);
    }

resolve_revision-Adds :
    (page : Uuid) (e : Entry) (a : SyncDb) (r : Uuid × SyncDb)
    → resolve_revision page e a ≡ ok r
    → Adds a r.1
unfolding resolve_revision
resolve_revision-Adds page e a r h = go (find_revision page e.business_hash a.revisions) h
  where
    go : (o : Option Uuid) → reuse_revision page e a o ≡ ok r → Adds a r.1
    go (some id) k = record {
      revisions = λ q v s. ground (arith, k, s);
      snapshots = ground (arith, k);
      workspaces = ground (arith, k);
    }
    go none k = record {
      revisions = λ q v s.
          ground (arith, k, s, lookup-insert (fresh_id a) q (new_revision page e a) a.revisions);
      snapshots = ground (arith, k);
      workspaces = ground (arith, k);
    }

list_entry-Adds :
    (snapshot page revision : Uuid) (e : Entry) (a b : SyncDb)
    → list_entry snapshot page revision e a ≡ ok b
    → Adds a b
unfolding list_entry
list_entry-Adds snapshot page revision e a b h = record {
  revisions = λ q v s. ground (arith, h, s);
  snapshots = ground (arith, h);
  workspaces = ground (arith, h);
}

import_entry-Adds :
    (org snapshot : Uuid) (e : Entry) (a b : SyncDb)
    → import_entry org snapshot e a ≡ ok b
    → Adds a b
unfolding import_entry
import_entry-Adds org snapshot e a b h =
    let (page, p, h1) = >>=-eq-ok (upsert_page org e a) _ h in
    let (revision, r, h2) = >>=-eq-ok (resolve_revision page.0 e page.1) _ h1 in
    Adds-trans (upsert_page-Adds org e a page p) (
      Adds-trans (resolve_revision-Adds page.0 e page.1 revision r)
        (list_entry-Adds snapshot page.0 revision.0 e revision.1 b h2))

import_entries-Adds :
    (org snapshot : Uuid) (entries : List Entry) (a b : SyncDb)
    → import_entries org snapshot entries a ≡ ok b
    → Adds a b
unfolding import_entries
import_entries-Adds org snapshot [] a b h =
    subst (Adds a) (ok-injective h)
      (record { revisions = λ q v s. s; snapshots = refl; workspaces = refl })
import_entries-Adds org snapshot (e ∷ rest) a b h =
    let (mid, one, others) = >>=-eq-ok (import_entry org snapshot e a) _ h in
    Adds-trans (import_entry-Adds org snapshot e a mid one)
      (import_entries-Adds org snapshot rest mid b others)

-- The snapshot that an import of a new run leaves as the workspace's current one.
pub record Imported (org : Uuid) (s : Snapshot) (a b : SyncDb) (w : Workspace) : Type 0 where
  pub snapshot : Uuid
  pub revisions : Keeps a.revisions b.revisions
  pub snapshots : Keeps a.snapshots b.snapshots
  pub row : lookup snapshot b.snapshots ≡ some (snapshot_row org s)
  pub current : (now : ℕ) × (lookup org b.workspaces ≡ some (checked (some snapshot) now w))

record SnapshotAdded (org : Uuid) (s : Snapshot) (a : SyncDb) (r : Uuid × SyncDb) : Type 0 where
  revisions : Keeps a.revisions r.1.revisions
  snapshots : Keeps a.snapshots r.1.snapshots
  row : lookup r.0 r.1.snapshots ≡ some (snapshot_row org s)
  workspaces : r.1.workspaces ≡ a.workspaces

insert_snapshot_lem :
    (org : Uuid) (s : Snapshot) (a : SyncDb) (r : Uuid × SyncDb)
    → insert_snapshot org s a ≡ ok r
    → SnapshotAdded org s a r
unfolding insert_snapshot
insert_snapshot_lem org s a r h = record {
  revisions = λ q v k. ground (arith, h, k);
  snapshots =
      λ q v k. ground (arith, h, k, lookup-insert (fresh_id a) q (snapshot_row org s) a.snapshots);
  row = ground (arith, h, lookup-insert (fresh_id a) (fresh_id a) (snapshot_row org s) a.snapshots);
  workspaces = ground (arith, h);
}

pub import_new-Imported :
    (org : Uuid) (now : ℕ) (s : Snapshot) (entries : List Entry) (a b : SyncDb) (w : Workspace)
    → lookup org a.workspaces ≡ some w
    → import_new org now s entries a ≡ ok b
    → Imported org s a b w
unfolding import_new
import_new-Imported org now s entries a b w known h =
    let (made, i, h1) = >>=-eq-ok (insert_snapshot org s a) _ h in
    let (done, e, h2) = >>=-eq-ok (import_entries org made.0 entries _) _ h1 in
    let adds = import_entries-Adds org made.0 entries _ done e in
    let row = insert_snapshot_lem org s a made i in
    subst (λ d. Imported org s a d w) (ok-injective h2)
      (record {
        snapshot = made.0;
        revisions = λ q v k. adds.revisions q v (row.revisions q v k);
        snapshots = λ q v k. ap (lookup q) adds.snapshots ∙ row.snapshots q v k;
        row = ap (lookup made.0) adds.snapshots ∙ row.row;
        current = (
          now,
          rw lookup-adjust (
              ground
                (arith, ap (lookup org) adds.workspaces, ap (lookup org) row.workspaces, known)),
        );
      })
