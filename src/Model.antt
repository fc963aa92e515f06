-- ===== src/Model.antt =====
-- The shared data of the wiki (backend/internal/model/model.go): page kinds, revision states, BDD
-- steps, page references and the content of a revision.
-- An identifier is a UUID, read as the 128-bit number that it writes down.
use viki.Prelude.{ℕ, Text, List, Option}

abbrev pub Uuid : Type 0
Uuid = ℕ

pub data PageKind : Type 0 where
  concept feature scenario : PageKind
  other_kind : Text → PageKind

pub data ConceptKind : Type 0 where
  noun verb : ConceptKind
  other_concept : Text → ConceptKind

pub data RevisionStatus : Type 0 where
  draft approved superseded repository_baseline : RevisionStatus

pub data Keyword : Type 0 where
  given when then_ and but : Keyword
  other_keyword : Text → Keyword

pub data StepRole : Type 0 where
  context action outcome : StepRole

pub data DevelopmentStatus : Type 0 where
  queued running developed blocked : DevelopmentStatus

pub record Step : Type 0 where
  pub stable_id : Option Uuid
  pub keyword : Keyword
  pub definition_id : Option Uuid
  pub expression : Text
  pub arguments : List Text
  pub text : Text

-- A reference names its target by page, or in an assistant's change set by the key of an operation.
pub record PageReference : Type 0 where
  pub target_page_id : Option Uuid
  pub target_client_key : Text
  pub target_title : Text
  pub relation : Text

pub record RevisionContent : Type 0 where
  pub title : Text
  pub body_md : Text
  pub steps : List Step
  pub references : List PageReference
