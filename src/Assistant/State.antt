-- ===== src/Assistant/State.antt =====
-- The state of the assistant: assistantRuntime and assistantTurn of
-- backend/internal/app/assistant_runtime.go, AssistantConversation and the types around it of
-- backend/internal/model/model.go, and Session, SessionState, ProfileStatus and Event of
-- backend/internal/hermes.
-- A pointer to a turn is a number into the table of all turns; a nil pointer in a map is a missing
-- key. The calls of `publish` are kept in their order; viki.Stream is about what each of them does.
use viki.Prelude.{ℕ, Bool, Option, none, some, List, [], ◌∷◌, Text, Table, find_key, if◌then◌else◌}
use viki.Tools.{AssistantMode, qa, edit}
use viki.Assistant.Filter.{InternalStreamFilter}

pub data AssistantConversationState : Type 0 where
  idle running awaiting_clarification stopped error unavailable : AssistantConversationState

pub record AssistantClarification : Type 0 where
  pub request_id : Text
  pub mode : AssistantMode
  pub message : Text
  pub choices : List Text

pub record AssistantDraftReceipt : Type 0 where
  pub revision_id : Text
  pub page_id : Text
  pub page_title : Text

-- The map of localized titles is the list of its pairs.
pub record Citation : Type 0 where
  pub localized_titles : List (Text × Text)
  pub revision_id : Text
  pub page_id : Text
  pub page_title : Text
  pub draft : Bool

-- The fields that the runtime reads; times are numbers.
pub record AssistantConversation : Type 0 where
  pub id : Text
  pub organization_id : Text
  pub user_id : Text
  pub qa_session_id : Option Text
  pub edit_session_id : Option Text
  pub last_mode : AssistantMode
  pub qa_handoff_cursor : ℕ
  pub edit_handoff_cursor : ℕ

pub record Session : Type 0 where
  pub runtime_id : Text
  pub stored_id : Text

pub record ProfileStatus : Type 0 where
  pub connected : Bool
  pub configured : Bool

pub record AssistantTurn : Type 0 where
  pub locale : Text
  pub id : Text
  pub conversation_id : Text
  pub organization_id : Text
  pub user_id : Text
  pub mode : AssistantMode
  pub runtime_id : Text
  pub stored_id : Text
  pub had_delta : Bool
  pub citations : List (Text × Citation)
  pub drafts : List (Text × AssistantDraftReceipt)
  pub filter : InternalStreamFilter
  pub finalized : Bool

-- The events that people see, each with its data.
pub data PublicEvent : Type 0 where
  activity : (turn_id : Text) (mode : AssistantMode) (state label : Text) → PublicEvent
  message_delta : (turn_id : Text) (mode : AssistantMode) (delta : Text) → PublicEvent
  citation : (turn_id : Text) (mode : AssistantMode) → Citation → PublicEvent
  draft_created : (turn_id : Text) (mode : AssistantMode) → AssistantDraftReceipt → PublicEvent
  clarification :
      (turn_id : Text) (mode : AssistantMode) (request_id message : Text) (choices : List Text)
      → PublicEvent
  completed : (turn_id : Text) (mode : AssistantMode) → PublicEvent
  turn_stopped : (turn_id : Text) (mode : AssistantMode) → PublicEvent
  failed : (turn_id : Text) (mode : AssistantMode) (code : Text) → PublicEvent

pub record AssistantRuntime : Type 0 where
  pub turns : Table AssistantTurn
  pub next_turn : ℕ
  pub active_by_conversation : List (Text × ℕ)
  pub active_by_runtime : List (Text × ℕ)
  pub active_by_stored : List (Text × ℕ)
  pub recent_by_runtime : List (Text × ℕ)
  pub runtime_sessions : List (Text × Session)
  pub conversation_state : List (Text × AssistantConversationState)
  pub clarifications : List (Text × AssistantClarification)
  pub published : List (Text × PublicEvent)

abbrev pub new_assistant_runtime : AssistantRuntime
new_assistant_runtime = record {
  turns = [];
  next_turn = 0;
  active_by_conversation = [];
  active_by_runtime = [];
  active_by_stored = [];
  recent_by_runtime = [];
  runtime_sessions = [];
  conversation_state = [];
  clarifications = [];
  published = [];
}

-- r.publish; the latest call comes first.
unfoldable pub publish : Text → PublicEvent → AssistantRuntime → AssistantRuntime
publish conversation event r = record r { published = (conversation, event) ∷ r.published }

-- assistantRuntime.state: what is kept, or whether the profile of the last mode can be reached.
unfoldable pub conversation_state_of :
    (AssistantMode → ProfileStatus)
    → AssistantConversation
    → AssistantRuntime
    → AssistantConversationState
conversation_state_of profiles conversation r =
    elim (find_key conversation.id r.conversation_state) [
      | some state ↦ state
      | none ↦
          let profile = profiles conversation.last_mode in
          if profile.configured
          then if profile.connected then idle else unavailable
          else unavailable
    ]

unfoldable pub conversation_session_id : AssistantConversation → AssistantMode → Option Text
conversation_session_id conversation edit = conversation.edit_session_id
conversation_session_id conversation qa = conversation.qa_session_id
