-- ===== src/Wiki/State.antt =====
-- The tables of the human-governed wiki (backend/internal/postgres/migrations) and the errors of the
-- operations on them.
use viki.Prelude.{ℕ, Bool, List, Option, Text, Table, Result, err}
use viki.Model.{Uuid, PageKind, ConceptKind, RevisionStatus, Keyword, StepRole, DevelopmentStatus}
use viki.Pages.{InputError}
use viki.Pages.Render.{RenderError}
use viki.Governance.{PolicyError}
use viki.Changes.{ShapeError}

pub record Page : Type 0 where
  pub organization : Uuid
  pub kind : PageKind
  pub concept_kind : Option ConceptKind
  pub parent : Option Uuid
  pub slug : Text
  pub approved : Option Uuid
  pub latest_draft : Option Uuid
  pub created_by : Uuid
  pub updated_at : ℕ

pub record Revision : Type 0 where
  pub page : Uuid
  pub number : ℕ
  pub status : RevisionStatus
  pub title : Text
  pub body_md : Text
  pub base : Option Uuid
  pub created_by : Uuid
  pub approved_at : Option ℕ

pub record StepDefinition : Type 0 where
  pub organization : Uuid
  pub expression : Text
  pub role : StepRole
  pub approved_at : Option ℕ

pub record StepRow : Type 0 where
  pub revision : Uuid
  pub stable_id : Uuid
  pub position : ℕ
  pub keyword : Keyword
  pub definition : Uuid
  pub arguments : List Text
  pub text : Text

pub record ReferenceRow : Type 0 where
  pub revision : Uuid
  pub target : Uuid
  pub relation : Text

pub record Objection : Type 0 where
  pub page : Uuid
  pub revision : Uuid
  pub body : Text
  pub author : Uuid
  pub resolved_at : Option ℕ
  pub resolved_by : Option Uuid

pub record Comment : Type 0 where
  pub page : Uuid
  pub revision : Uuid
  pub parent : Option Uuid
  pub body : Text
  pub author : Uuid

-- A row of scenario_developments, keyed by its revision.
pub record Development : Type 0 where
  pub status : DevelopmentStatus
  pub detail : Text
  pub updated_at : ℕ

pub record AuditEvent : Type 0 where
  pub organization : Uuid
  pub actor : Uuid
  pub action : Text
  pub entity_type : Text
  pub entity : Uuid

-- `uuid` is the server's generator of identifiers and `drawn` counts the calls of it; `prints` is
-- Unicode's table of printing characters.
pub record Db : Type 0 where
  pub uuid : ℕ → Uuid
  pub prints : ℕ → Bool
  pub drawn : ℕ
  pub managed : List Uuid
  pub pages : Table Page
  pub revisions : Table Revision
  pub definitions : Table StepDefinition
  pub steps : List StepRow
  pub references : List ReferenceRow
  pub objections : Table Objection
  pub comments : Table Comment
  pub developments : Table Development
  pub audits : List AuditEvent

pub data Error : Type 0 where
  read_only not_found conflict duplicate_slug invalid_hierarchy invalid_reference : Error
  bad_slug bad_scenario_slug scenario_without_feature : Error
  role_mismatch empty_definition constraint_violated nil_dereference : Error
  comment_required foreign_parent_comment : Error
  empty_change_set unknown_parent_key unknown_reference_key unsupported_operation : Error
  missing_revise_target immutable_metadata invalid_generated_slug : Error
  input : InputError → Error
  render : ℕ → RenderError → Error
  policy : PolicyError → Error
  shape : ShapeError → Error

-- The error of a part as an error of the operation.
abbrev pub as_error {ℓ} : {E : Type 0} {A : Type ℓ} → (E → Error) → Result E A → Result Error A
as_error f (Result.ok a) = Result.ok a
as_error f (Result.err e) = err (f e)

-- The caller of an operation: the organization and user of the session, and the time of the
-- transaction.
pub record Caller : Type 0 where
  pub organization : Uuid
  pub user : Uuid
  pub now : ℕ
