-- ===== src/Sync/History.antt =====
-- What an import keeps: the revisions and snapshots are immutable, and the current run never goes back.
use viki.Prelude.{
  ℕ, ◌≡◌, refl, sym, ◌∙◌, inl, inr, Bool, true, false, not, Option, none, some, List, text_eq,
  text_eq_refl, Option-cases, if◌then◌else◌, Table, lookup, lookup-adjust, ok, err, reject_if->>,
  >>=-eq-ok, ok-injective, arith,
}
use mathlib.Core.Path.{subst}
use viki.Model.{Uuid}
use viki.Sync.{
  Snapshot, Entry, Workspace, SnapshotRow, SyncDb, SyncError, is_eligible, run_of, not_eligible,
  other_repository,
}
use viki.Sync.Rows.{snapshot_row}
use viki.Sync.Import.{
  import_new, import_after, import_current, import_snapshot, is_older, is_same_run, check_workspace,
  checked, workspace_of,
}
use viki.Sync.Kept.{Keeps, Imported, import_new-Imported}

-- The effect of an import that succeeds.
pub record ImportOutcome (org : Uuid) (s : Snapshot) (a b : SyncDb) : Type 0 where
  pub eligible : is_eligible s ≡ true
  pub workspace : Workspace
  pub known : lookup org a.workspaces ≡ some workspace
  pub same_repository : text_eq workspace.repository s.source.repository ≡ true
  pub revisions : Keeps a.revisions b.revisions
  pub snapshots : Keeps a.snapshots b.snapshots
  pub current : Uuid
  pub row : SnapshotRow
  pub workspace_after :
      (now : ℕ) × (lookup org b.workspaces ≡ some (checked (some current) now workspace))
  pub current_row : lookup current b.snapshots ≡ some row
  pub same_run :
      (row.run ≡ run_of s)
      × (row.attempt ≡ s.publication.run_attempt)
      × (text_eq row.raw s.raw ≡ true)
  pub not_older :
      (last : Uuid) (old : SnapshotRow)
      → workspace.current ≡ some last
      → lookup last a.snapshots ≡ some old
      → is_older s old ≡ false

-- The part after the checks of the workspace.
record Chosen (org : Uuid) (s : Snapshot) (a b : SyncDb) (w : Workspace) : Type 0 where
  revisions : Keeps a.revisions b.revisions
  snapshots : Keeps a.snapshots b.snapshots
  current : Uuid
  row : SnapshotRow
  after : (now : ℕ) × (lookup org b.workspaces ≡ some (checked (some current) now w))
  current_row : lookup current b.snapshots ≡ some row
  same_run :
      (row.run ≡ run_of s)
      × (row.attempt ≡ s.publication.run_attempt)
      × (text_eq row.raw s.raw ≡ true)

new_Chosen :
    (org : Uuid) (s : Snapshot) (a b : SyncDb) (w : Workspace)
    → Imported org s a b w
    → Chosen org s a b w
new_Chosen org s a b w i = record {
  revisions = i.revisions;
  snapshots = i.snapshots;
  current = i.snapshot;
  row = snapshot_row org s;
  after = i.current;
  current_row = i.row;
  same_run = (refl, refl, text_eq_refl s.raw);
}

repeated_Chosen :
    (org : Uuid) (now : ℕ) (s : Snapshot) (a : SyncDb) (w : Workspace) (last : Uuid)
    (row : SnapshotRow)
    → lookup org a.workspaces ≡ some w
    → lookup last a.snapshots ≡ some row
    → is_same_run s row ≡ true
    → text_eq row.raw s.raw ≡ true
    → Chosen org s a (check_workspace org (some last) now a) w
repeated_Chosen org now s a w last row known found same raw = record {
  revisions = λ q v k. k;
  snapshots = λ q v k. k;
  current = last;
  row = row;
  after = (now, rw lookup-adjust (ground (arith, known)));
  current_row = found;
  same_run = (ground (arith, same), ground (arith, same), raw);
}

import_after-Chosen :
    (org : Uuid) (now : ℕ) (s : Snapshot) (entries : List Entry) (a b : SyncDb) (w : Workspace)
    (last : Uuid) (row : SnapshotRow)
    → lookup org a.workspaces ≡ some w
    → lookup last a.snapshots ≡ some row
    → import_after org now s entries a last (some row) ≡ ok b
    → (is_older s row ≡ false) × Chosen org s a b w
import_after-Chosen org now s entries a b w last row known found h =
    go (is_older s row) (is_same_run s row) (text_eq row.raw s.raw) refl refl refl h
  where
    go :
        (older same raw : Bool)
        → is_older s row ≡ older
        → is_same_run s row ≡ same
        → text_eq row.raw s.raw ≡ raw
        → (if older
            then err SyncError.stale_snapshot
            else if same
            then (if raw
                then ok (check_workspace org (some last) now a)
                else err SyncError.conflicting_snapshot)
            else import_new org now s entries a)
          ≡ ok b
        → (is_older s row ≡ false) × Chosen org s a b w
    go true same raw e f g k = cc
    go false true false e f g k = cc
    go false true true e f g k = (
      e,
      subst (λ d. Chosen org s a d w) (ok-injective k)
          (repeated_Chosen org now s a w last row known found f g),
    )
    go false false raw e f g k =
        (e, new_Chosen org s a b w (import_new-Imported org now s entries a b w known k))

same_old :
    (s : Snapshot) (t : Table SnapshotRow) {o : Option Uuid} {last q : Uuid} {row old : SnapshotRow}
    → o ≡ some last
    → o ≡ some q
    → lookup last t ≡ some row
    → lookup q t ≡ some old
    → is_older s row ≡ false
    → is_older s old ≡ false
same_old s t {last = last} {q = q} {row = row} {old = old} e f found g older =
    let key : last ≡ q = cc in let same : row ≡ old = cc in rw (← same) older

-- An import that succeeds was of an eligible snapshot of the workspace's repository, from a run that
-- is not older than the current one. It keeps every revision and every snapshot, and the workspace's
-- current snapshot afterwards has the run, the attempt and the text of the imported one.
pub import_snapshot-ImportOutcome :
    (org : Uuid) (now : ℕ) (s : Snapshot) (entries : List Entry) (a b : SyncDb)
    → import_snapshot org now s entries a ≡ ok b
    → ImportOutcome org s a b
unfolding import_snapshot
import_snapshot-ImportOutcome org now s entries a b h0 =
    let (eligible, h1) = reject_if->> (not (is_eligible s)) not_eligible _ h0 in
    let (w, k, h2) = >>=-eq-ok (workspace_of (lookup org a.workspaces)) _ h1 in
    let (same, h3) =
      reject_if->> (not (text_eq w.repository s.source.repository)) other_repository _ h2 in
    let known : lookup org a.workspaces ≡ some w = ground (arith, k) in
    let outcome : Chosen org s a b w
        → ((last : Uuid) (old : SnapshotRow)
            → w.current ≡ some last
            → lookup last a.snapshots ≡ some old
            → is_older s old ≡ false)
        → ImportOutcome org s a b =
      λ chosen older. record {
        eligible = ground (arith, eligible);
        workspace = w;
        known = known;
        same_repository = ground (arith, same);
        revisions = chosen.revisions;
        snapshots = chosen.snapshots;
        current = chosen.current;
        row = chosen.row;
        workspace_after = chosen.after;
        current_row = chosen.current_row;
        same_run = chosen.same_run;
        not_older = older;
      } in
    on_current outcome known w.current refl h3
  where
    on_current :
        {w : Workspace}
        → (Chosen org s a b w
            → ((last : Uuid) (old : SnapshotRow)
                → w.current ≡ some last
                → lookup last a.snapshots ≡ some old
                → is_older s old ≡ false)
            → ImportOutcome org s a b)
        → lookup org a.workspaces ≡ some w
        → (o : Option Uuid) → w.current ≡ o
        → import_current org now s entries a o ≡ ok b
        → ImportOutcome org s a b
    on_current {w} outcome known none e h =
        outcome (new_Chosen org s a b w (import_new-Imported org now s entries a b w known h))
          (λ last old f g. cc (sym e ∙ f))
    on_current {w} outcome known (some last) e h = elim (Option-cases (lookup last a.snapshots)) [
      | inl missing ↦ cc (rw missing at h)
      | inr (row, found) ↦
          let (older, chosen) =
            import_after-Chosen org now s entries a b w last row known found (rw found at h) in
          outcome chosen (λ q old f g. same_old s a.snapshots e f found g older)
    ]
