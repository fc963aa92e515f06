-- ===== src/Assistant/Turns/Sessions.antt =====
-- The session of a conversation in a mode and what a turn is told of the other mode: ensureSession
-- and buildHandoff of backend/internal/app/assistant_runtime.go. What the Hermes gateway and the
-- repository answer comes in as arguments; what is written to them leaves no trace in the runtime.
pub mod Leaves
use viki.Assistant.State.{
  AssistantConversation, AssistantClarification, Session, AssistantTurn, AssistantRuntime,
  PublicEvent, activity, turn_stopped, running, stopped, error, publish, conversation_session_id,
}
use viki.Assistant.Turns.{new_turn, begin_turn, attach_session, finish_turn, set_session}
use viki.Prelude.{
  ℕ, Bool, false, not, ◌||◌, Option, none, some, List, [], Text, codes, text_eq, length, drop,
  lookup, find_key, put_key, drop_key, is_empty, trim_space, has_prefix, ltb, if◌then◌else◌, Result,
  ok, err,
}
use viki.Tools.{AssistantMode, qa, edit, mode_name, assistant_session_key}

-- An RPC error with the code 4007, or any other failure.
pub data GatewayError : Type 0 where
  session_missing other_failure : GatewayError

pub data AssistantError : Type 0 where
  command_forbidden turn_active turn_not_active clarification_mismatch : AssistantError
  gateway_unavailable store_failed : AssistantError
  gateway_failed : GatewayError → AssistantError

-- The answers to the calls of one operation: CreateSession, ResumeSession, History, Submit (to a
-- prompt), Interrupt and RespondClarification of the gateway, SetAssistantSession and
-- UpdateAssistantMode of the repository. A message of the history is of any type.
pub record Answers (M : Type 0) : Type 0 where
  pub has_gateway : Bool
  pub created : AssistantMode → Result GatewayError Session
  pub resumed : AssistantMode → Text → Result GatewayError Session
  pub history : AssistantMode → Result GatewayError (List M)
  pub submitted : Text → Result GatewayError (Unit {0})
  pub interrupted : Result GatewayError (Unit {0})
  pub responded : Result GatewayError (Unit {0})
  pub session_saved : AssistantMode → Bool
  pub mode_updated : Bool

abbrev pub from_gateway : {A : Type 0} → Result GatewayError A → Result AssistantError A
from_gateway (ok value) = ok value
from_gateway (err failure) = err (gateway_failed failure)

-- The test of the cached session against the conversation's.
abbrev pub cached_session : Option Session → Option Text → Option Session
cached_session none stored = none
cached_session (some session) none = none
cached_session (some session) (some stored) =
    if text_eq session.stored_id stored then some session else none

-- ResumeSession, or CreateSession when the session is missing.
abbrev resume_or_create :
    {M : Type 0} → Answers M → AssistantMode → Text → Result GatewayError Session
resume_or_create answers mode stored = elim (answers.resumed mode stored) [
  | ok session ↦ ok session
  | err session_missing ↦ answers.created mode
  | err other_failure ↦ err other_failure
]

abbrev open_session :
    {M : Type 0} → Answers M → AssistantMode → Option Text → Result GatewayError Session
open_session answers mode none = answers.created mode
open_session answers mode (some stored) =
    if is_empty stored then answers.created mode else resume_or_create answers mode stored

abbrev stored_as : Option Text → Text → Bool
stored_as none stored = false
stored_as (some old) stored = text_eq old stored

abbrev with_session : AssistantMode → Text → AssistantConversation → AssistantConversation
with_session qa stored conversation = record conversation { qa_session_id = some stored }
with_session edit stored conversation = record conversation { edit_session_id = some stored }

-- SetAssistantSession, when the stored session is another.
abbrev save_session :
    Bool
    → AssistantMode
    → Session
    → AssistantConversation
    → Bool
    → Result AssistantError AssistantConversation
save_session same mode session conversation saved =
    if same
    then ok conversation
    else if saved
    then ok (with_session mode session.stored_id conversation)
    else err store_failed

abbrev remember_session : AssistantMode → Text → Session → AssistantRuntime → AssistantRuntime
remember_session mode conversation session r = record r {
  runtime_sessions = put_key (assistant_session_key mode conversation) session r.runtime_sessions;
}

abbrev pub session_updated :
    AssistantMode
    → Text
    → Session
    → AssistantRuntime
    → Result AssistantError AssistantConversation
    → Result AssistantError (Session × AssistantConversation × AssistantRuntime)
session_updated mode id session r (err failure) = err failure
session_updated mode id session r (ok updated) =
    ok (session, updated, remember_session mode id session r)

abbrev pub session_opened :
    {M : Type 0}
    → Answers M
    → AssistantConversation
    → AssistantMode
    → AssistantRuntime
    → Result GatewayError Session
    → Result AssistantError (Session × AssistantConversation × AssistantRuntime)
session_opened answers conversation mode r (err failure) = err (gateway_failed failure)
session_opened answers conversation mode r (ok session) =
    let same = stored_as (conversation_session_id conversation mode) session.stored_id in
    session_updated mode conversation.id session r
      (save_session same mode session conversation (answers.session_saved mode))

abbrev pub ensure_cached :
    {M : Type 0}
    → Answers M
    → AssistantConversation
    → AssistantMode
    → AssistantRuntime
    → Option Session
    → Result AssistantError (Session × AssistantConversation × AssistantRuntime)
ensure_cached answers conversation mode r (some session) = ok (session, conversation, r)
ensure_cached answers conversation mode r none =
    session_opened answers conversation mode r
      (open_session answers mode (conversation_session_id conversation mode))

-- ensureSession; an error leaves the runtime as it is.
unfoldable pub ensure_session :
    {M : Type 0}
    → Answers M
    → AssistantConversation
    → AssistantMode
    → AssistantRuntime
    → Result AssistantError (Session × AssistantConversation × AssistantRuntime)
ensure_session answers conversation mode r = ensure_cached answers conversation mode r (
    cached_session (find_key (assistant_session_key mode conversation.id) r.runtime_sessions)
      (conversation_session_id conversation mode))

abbrev handoff_cursor : AssistantConversation → AssistantMode → ℕ
handoff_cursor conversation qa = conversation.qa_handoff_cursor
handoff_cursor conversation edit = conversation.edit_handoff_cursor

abbrev from_cursor : {M : Type 0} → ℕ → List M → List M
from_cursor cursor history = if ltb (length history) cursor then history else drop cursor history

abbrev pub same_mode : AssistantMode → AssistantMode → Bool
same_mode a b = text_eq (mode_name a) (mode_name b)

-- buildHandoff with the history; the text of the messages is `format`'s.
abbrev pub history_handoff :
    {M : Type 0}
    → (List M → Text)
    → AssistantConversation
    → AssistantRuntime
    → Result GatewayError (List M)
    → Result AssistantError (Text × AssistantRuntime)
history_handoff format conversation after (err failure) = err (gateway_failed failure)
history_handoff format conversation after (ok history) =
    let cursor = handoff_cursor conversation conversation.last_mode in
    ok (format (from_cursor cursor history), after)

-- buildHandoff in the session of the source's mode
abbrev pub source_handoff :
    {M : Type 0}
    → Answers M
    → (List M → Text)
    → AssistantConversation
    → Result AssistantError (Session × AssistantConversation × AssistantRuntime)
    → Result AssistantError (Text × AssistantRuntime)
source_handoff answers format conversation (err failure) = err failure
source_handoff answers format conversation (ok (session, updated, after)) =
    history_handoff format conversation after (answers.history conversation.last_mode)

abbrev pub has_session : Option Text → Bool
has_session none = false
has_session (some stored) = not (is_empty stored)

-- buildHandoff, less the cursor that it returns for the repository; the cursors of a conversation
-- are not negative.
unfoldable pub build_handoff :
    {M : Type 0}
    → Answers M
    → (List M → Text)
    → AssistantConversation
    → AssistantMode
    → AssistantRuntime
    → Result AssistantError (Text × AssistantRuntime)
build_handoff answers format conversation target r =
    let source = conversation.last_mode in
    let early =
      same_mode source target || not (has_session (conversation_session_id conversation source)) in
    if early
    then ok ([], r)
    else source_handoff answers format conversation (ensure_session answers conversation source r)
