-- ===== src/Assistant/Turns.antt =====
-- The sections of backend/internal/app/assistant_runtime.go that hold the mutex and change which turn
-- is active: of submit, ensureSession, stop, respondClarification, activeGrant, finishTurn,
-- rotateStoredSession and reconcileProfile. Each is one step on the runtime; the handlers in the
-- children call them in the order of the source.
pub mod Sessions
pub mod Submit
pub mod Submitted
pub mod Cases
pub mod Events
pub mod Reconcile
pub mod Active
pub mod Filed
pub mod Kept
pub mod CasesKept
pub mod Handlers
pub mod Closed
pub mod Resumed
pub mod Reconciled
pub mod Reachable
use viki.Assistant.Filter.{new_filter}
use viki.Assistant.State.{
  AssistantConversation, AssistantConversationState, AssistantClarification, running, idle, error,
  Session, AssistantTurn, AssistantRuntime,
}
use viki.Prelude.{
  ℕ, suc, Bool, true, false, Option, none, some, List, [], ◌∷◌, Text, Table, lookup, insert, adjust,
  find_key, put_key, drop_key, is_empty, ◌==◌, if◌then◌else◌,
}
use viki.Tools.{AssistantMode, assistant_session_key}

unfoldable pub runtime_key : AssistantTurn → Text
runtime_key turn = assistant_session_key turn.mode turn.runtime_id

unfoldable pub stored_key : AssistantTurn → Text
stored_key turn = assistant_session_key turn.mode turn.stored_id

-- A pointer from a map is the given one.
abbrev pub points_to : Option ℕ → ℕ → Bool
points_to none t = false
points_to (some s) t = s == t

-- The turn that submit makes; the identifier is uuid.NewString().
abbrev pub new_turn : AssistantConversation → AssistantMode → Text → Text → AssistantTurn
new_turn conversation mode locale id = record {
  locale = locale;
  id = id;
  conversation_id = conversation.id;
  organization_id = conversation.organization_id;
  user_id = conversation.user_id;
  mode = mode;
  runtime_id = [];
  stored_id = [];
  had_delta = false;
  citations = [];
  drafts = [];
  filter = new_filter;
  finalized = false;
}

abbrev pub file_turn : AssistantTurn → AssistantRuntime → AssistantRuntime
file_turn turn r = record r {
  turns = insert r.next_turn turn r.turns;
  next_turn = suc r.next_turn;
  active_by_conversation = put_key turn.conversation_id r.next_turn r.active_by_conversation;
  conversation_state = put_key turn.conversation_id running r.conversation_state;
  clarifications = drop_key turn.conversation_id r.clarifications;
}

abbrev pub begin_unless :
    AssistantTurn → AssistantRuntime → Option ℕ → Option (ℕ × AssistantRuntime)
begin_unless turn r (some active) = none
begin_unless turn r none = some (r.next_turn, file_turn turn r)

-- The first section of submit; none when a turn of the conversation is active.
unfoldable pub begin_turn : AssistantTurn → AssistantRuntime → Option (ℕ × AssistantRuntime)
begin_turn turn r = begin_unless turn r (find_key turn.conversation_id r.active_by_conversation)

abbrev pub set_session : Session → AssistantTurn → AssistantTurn
set_session session turn = record turn {
  runtime_id = session.runtime_id;
  stored_id = session.stored_id;
}

-- The second section of submit: the turn gets its session and is filed under it.
unfoldable pub attach_session : ℕ → AssistantMode → Session → AssistantRuntime → AssistantRuntime
attach_session t mode session r = record r {
  turns = adjust t (set_session session) r.turns;
  active_by_runtime = put_key (assistant_session_key mode session.runtime_id) t r.active_by_runtime;
  active_by_stored = put_key (assistant_session_key mode session.stored_id) t r.active_by_stored;
}

abbrev pub finalize : AssistantTurn → AssistantTurn
finalize turn = record turn { finalized = true }

abbrev pub close_turn :
    ℕ → AssistantTurn → AssistantConversationState → AssistantRuntime → AssistantRuntime
close_turn t turn state r = record r {
  turns = adjust t finalize r.turns;
  active_by_conversation =
      if points_to (find_key turn.conversation_id r.active_by_conversation) t
      then drop_key turn.conversation_id r.active_by_conversation
      else r.active_by_conversation;
  active_by_runtime = drop_key (runtime_key turn) r.active_by_runtime;
  active_by_stored = drop_key (stored_key turn) r.active_by_stored;
  clarifications = drop_key turn.conversation_id r.clarifications;
  conversation_state = put_key turn.conversation_id state r.conversation_state;
  recent_by_runtime =
      if is_empty turn.runtime_id
      then r.recent_by_runtime
      else put_key (runtime_key turn) t r.recent_by_runtime;
}

abbrev pub finish_found :
    ℕ → AssistantConversationState → AssistantRuntime → Option AssistantTurn → AssistantRuntime
finish_found t state r none = r
finish_found t state r (some turn) = if turn.finalized then r else close_turn t turn state r

-- finishTurn; the timer that it starts is forget_recent.
unfoldable pub finish_turn : ℕ → AssistantConversationState → AssistantRuntime → AssistantRuntime
finish_turn t state r = finish_found t state r (lookup t r.turns)

abbrev pub forget_found : AssistantRuntime → Option AssistantTurn → AssistantRuntime
forget_found r none = r
forget_found r (some turn) =
    if is_empty turn.runtime_id
    then r
    else record r { recent_by_runtime = drop_key (runtime_key turn) r.recent_by_runtime }

-- What the timer of finishTurn does when it fires.
unfoldable pub forget_recent : ℕ → AssistantRuntime → AssistantRuntime
forget_recent t r = forget_found r (lookup t r.turns)

abbrev pub set_stored : Text → AssistantTurn → AssistantTurn
set_stored stored turn = record turn { stored_id = stored }

abbrev pub move_stored : ℕ → AssistantTurn → Text → AssistantRuntime → AssistantRuntime
move_stored t turn stored r =
    let dropped = drop_key (stored_key turn) r.active_by_stored in
    record r {
      turns = adjust t (set_stored stored) r.turns;
      active_by_stored =
          if points_to (find_key turn.conversation_id r.active_by_conversation) t
          then put_key (assistant_session_key turn.mode stored) t dropped
          else dropped;
      runtime_sessions =
          put_key (assistant_session_key turn.mode turn.conversation_id)
            (record { runtime_id = turn.runtime_id; stored_id = stored }) r.runtime_sessions;
    }

abbrev pub rotate_found :
    Bool → ℕ → Text → AssistantRuntime → Option AssistantTurn → AssistantRuntime
rotate_found saved t stored r none = r
rotate_found saved t stored r (some turn) = if saved then move_stored t turn stored r else r

-- rotateStoredSession; the repository says whether it saved the session.
unfoldable pub rotate_stored_session : Bool → ℕ → Text → AssistantRuntime → AssistantRuntime
rotate_stored_session saved t stored r = rotate_found saved t stored r (lookup t r.turns)

abbrev pub set_runtime : Text → AssistantTurn → AssistantTurn
set_runtime runtime turn = record turn { runtime_id = runtime }

-- The second section of reconcileProfile, for one turn of the mode whose session was resumed.
unfoldable pub resume_turn :
    AssistantMode → ℕ → AssistantTurn → Session → AssistantRuntime → AssistantRuntime
resume_turn mode t turn session r = record r {
  turns = adjust t (set_runtime session.runtime_id) r.turns;
  active_by_runtime =
      put_key (assistant_session_key mode session.runtime_id) t
        (drop_key (assistant_session_key mode turn.runtime_id) r.active_by_runtime);
  runtime_sessions =
      put_key (assistant_session_key mode turn.conversation_id) session r.runtime_sessions;
}

-- activeGrant: the turn whose tools may act for a stored session.
unfoldable pub active_grant : AssistantMode → Text → AssistantRuntime → Option ℕ
active_grant mode session r = find_key (assistant_session_key mode session) r.active_by_stored

-- assistantRuntime.clarification; the copy that it makes is the value itself.
unfoldable pub clarification_of : Text → AssistantRuntime → Option AssistantClarification
clarification_of conversation r = find_key conversation r.clarifications
