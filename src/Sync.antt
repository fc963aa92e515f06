-- ===== src/Sync.antt =====
-- The import of a repository's snapshots: Snapshot and Eligible of backend/internal/specsync/snapshot.go
-- and the tables of backend/internal/postgres/repository_sync.go.
pub mod Rows
pub mod Import
pub mod Kept
pub mod History
pub mod Tags
use viki.Prelude.{
  ℕ, ◌+◌, ◌*◌, ◌-◌, Bool, true, false, not, ◌&&◌, ◌||◌, Option, none, some, List, [], ◌∷◌, Text,
  codes, text_eq, leb, ltb, ◌==◌, is_some, if◌then◌else◌, Table, Result, ok, err, reject_if,
}
use viki.Model.{Uuid}

pub record Source : Type 0 where
  pub repository : Text
  pub commit : Text
  pub dirty : Bool
  pub content_hash : Text

pub record Publication : Type 0 where
  pub kind : Text
  pub event : Text
  pub ref : Text
  pub workflow : Text
  pub run_id : Text
  pub run_attempt : ℕ
  pub eligible : Bool

-- The fields of a snapshot that the import reads, and its JSON text.
pub record Snapshot : Type 0 where
  pub source : Source
  pub publication : Publication
  pub messages_hash : Text
  pub raw : Text

pub record SourceStep : Type 0 where
  pub keyword : Text
  pub text : Text
  pub line : ℕ

pub record Entry : Type 0 where
  pub external_id : Text
  pub kind : Text
  pub parent_id : Text
  pub title : Text
  pub body : Text
  pub steps : List SourceStep
  pub concept_ids : List Text
  pub path : Text
  pub source_content : Text
  pub document_hash : Text
  pub business_hash : Text

-- workspace_repository_sync
pub record Workspace : Type 0 where
  pub repository : Text
  pub current : Option Uuid
  pub last_checked_at : Option ℕ
  pub last_error : Text
  pub last_error_at : Option ℕ

-- repository_snapshots
pub record SnapshotRow : Type 0 where
  pub organization : Uuid
  pub commit : Text
  pub content_hash : Text
  pub run : ℕ
  pub attempt : ℕ
  pub raw : Text

-- repository_pages
pub record SourcePage : Type 0 where
  pub organization : Uuid
  pub external_id : Text
  pub kind : Text
  pub current : Option Uuid
  pub archived : Bool

-- repository_revisions
pub record SourceRevision : Type 0 where
  pub page : Uuid
  pub number : ℕ
  pub business_hash : Text
  pub entry : Entry

-- repository_snapshot_entries
pub record ListedEntry : Type 0 where
  pub snapshot : Uuid
  pub page : Uuid
  pub revision : Uuid
  pub entry : Entry

-- `authored` lists the organizations that have pages of their own.
pub record SyncDb : Type 0 where
  pub uuid : ℕ → Uuid
  pub drawn : ℕ
  pub authored : List Uuid
  pub workspaces : Table Workspace
  pub snapshots : Table SnapshotRow
  pub pages : Table SourcePage
  pub revisions : Table SourceRevision
  pub listed : List ListedEntry

pub data SyncError : Type 0 where
  unsupported_repository authored_pages not_eligible no_workspace other_repository : SyncError
  missing_snapshot stale_snapshot conflicting_snapshot identity_unavailable constraint_violated :
      SyncError

abbrev pub official_repository : Text
official_repository = codes "https://github.com/matk0/vozokany"

abbrev official_workflow : Text
official_workflow = codes ".github/workflows/verify.yml"

abbrev zero_commit : Text
zero_commit = codes "0000000000000000000000000000000000000000"

abbrev zero_hash : Text
zero_hash = codes "sha256:0000000000000000000000000000000000000000000000000000000000000000"

abbrev decimal : ℕ → Text → Option ℕ
decimal acc [] = some acc
decimal acc (c ∷ s) =
    let rest = decimal (acc * 10 + (c - b'0')) s in if leb b'0' c && leb c b'9' then rest else none

abbrev positive_int64 : Option ℕ → Option ℕ
positive_int64 none = none
positive_int64 (some v) = if ltb 0 v && leb v 9223372036854775807 then some v else none

abbrev unsigned : Text → Option ℕ
unsigned [] = none
unsigned (c ∷ s) = positive_int64 (decimal 0 (c ∷ s))

-- strconv.ParseInt(s, 10, 64), where it returns a positive number.
unfoldable pub parse_run : Text → Option ℕ
parse_run [] = none
parse_run (c ∷ s) = if c == b'+' then unsigned s else unsigned (c ∷ s)

-- Eligible: the run of the main branch's workflow.
unfoldable pub is_eligible : Snapshot → Bool
is_eligible s =
    is_some (parse_run s.publication.run_id)
    && text_eq s.source.repository official_repository
    && not s.source.dirty
    && not (text_eq s.source.commit zero_commit)
    && text_eq s.publication.kind (codes "main")
    && text_eq s.publication.event (codes "push")
    && text_eq s.publication.ref (codes "refs/heads/main")
    && text_eq s.publication.workflow official_workflow
    && leb 1 s.publication.run_attempt
    && s.publication.eligible
    && not (text_eq s.messages_hash zero_hash)

abbrev number_or_zero : Option ℕ → ℕ
number_or_zero none = 0
number_or_zero (some v) = v

abbrev pub run_of : Snapshot → ℕ
run_of s = number_or_zero (parse_run s.publication.run_id)
