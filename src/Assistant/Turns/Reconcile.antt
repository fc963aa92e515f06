-- ===== src/Assistant/Turns/Reconcile.antt =====
-- What happens when a profile of the gateway is ready again: reconcileProfile of
-- backend/internal/app/assistant_runtime.go. The answers to ResumeSession and SessionStatus and the
-- save of a rotated session are arguments.
use viki.Assistant.State.{
  idle, error, Session, AssistantTurn, AssistantRuntime, completed, failed, publish,
}
use viki.Assistant.Turns.{finish_turn, rotate_stored_session, resume_turn}
use viki.Assistant.Turns.Sessions.{GatewayError, same_mode}
use viki.Prelude.{pairs}
use viki.Prelude.{
  ℕ, Bool, false, ◌||◌, ◌++◌, Option, none, some, List, [], ◌∷◌, Text, codes, text_eq, has_prefix,
  lookup, is_empty, if◌then◌else◌, Result, ok, err,
}
use viki.Tools.{AssistantMode, mode_name}

-- The remembered sessions of the mode are deleted: their keys start with the mode and a zero byte.
unfoldable pub drop_mode : {V : Type 0} → AssistantMode → List (Text × V) → List (Text × V)
drop_mode mode [] = []
drop_mode mode ((k, v) ∷ rest) =
    let others = drop_mode mode rest in
    if has_prefix k (mode_name mode ++ (0 ∷ [])) then others else (k, v) ∷ others

abbrev pub has_mode : AssistantMode → Option AssistantTurn → Bool
has_mode mode none = false
has_mode mode (some turn) = same_mode turn.mode mode

-- The active turns of the mode, each with its conversation; the order is that of the map.
unfoldable pub turns_of : AssistantMode → AssistantRuntime → List (Text × ℕ) → List (Text × ℕ)
turns_of mode r [] = []
turns_of mode r ((k, t) ∷ rest) =
    let others = turns_of mode r rest in
    if has_mode mode (lookup t r.turns) then (k, t) ∷ others else others

-- The answers for one turn; the status says whether the session is running.
pub record Resumption : Type 0 where
  pub resumed : Result GatewayError Session
  pub session_saved : Bool
  pub status : Result GatewayError Bool

abbrev pub lose_turn : AssistantMode → ℕ → AssistantTurn → AssistantRuntime → AssistantRuntime
lose_turn mode t turn r =
    let event = failed turn.id mode (codes "assistant_reconnect_failed") in
    finish_turn t error (publish turn.conversation_id event r)

abbrev pub rotate_resumed : Bool → ℕ → AssistantTurn → Session → AssistantRuntime → AssistantRuntime
rotate_resumed saved t turn session r =
    if is_empty session.stored_id || text_eq session.stored_id turn.stored_id
    then r
    else rotate_stored_session saved t session.stored_id r

abbrev pub check_status :
    AssistantMode
    → ℕ
    → AssistantTurn
    → Result GatewayError Bool
    → AssistantRuntime
    → AssistantRuntime
check_status mode t turn (err failure) r = lose_turn mode t turn r
check_status mode t turn (ok is_running) r =
    if is_running
    then r
    else finish_turn t idle (publish turn.conversation_id (completed turn.id mode) r)

abbrev pub resume_with :
    AssistantMode
    → Resumption
    → ℕ
    → AssistantTurn
    → Result GatewayError Session
    → AssistantRuntime
    → AssistantRuntime
resume_with mode answers t turn (err failure) r = lose_turn mode t turn r
resume_with mode answers t turn (ok session) r =
    check_status mode t turn answers.status
      (rotate_resumed answers.session_saved t turn session (resume_turn mode t turn session r))

-- The body of the loop over the turns
unfoldable pub reconcile_turn :
    AssistantMode → Resumption → ℕ → AssistantTurn → AssistantRuntime → AssistantRuntime
reconcile_turn mode answers t turn r = resume_with mode answers t turn answers.resumed r

abbrev pub reconcile_found :
    AssistantMode → Resumption → ℕ → Option AssistantTurn → AssistantRuntime → AssistantRuntime
reconcile_found mode answers t none r = r
reconcile_found mode answers t (some turn) r = reconcile_turn mode answers t turn r

-- The loop over the snapshot of the turns
unfoldable pub reconcile_turns :
    AssistantMode → (ℕ → Resumption) → List (Text × ℕ) → AssistantRuntime → AssistantRuntime
reconcile_turns mode answers [] r = r
reconcile_turns mode answers ((k, t) ∷ rest) r =
    reconcile_turns mode answers rest (reconcile_found mode (answers t) t (lookup t r.turns) r)

-- The first section: the remembered sessions of the mode are forgotten.
abbrev pub forget_sessions : AssistantMode → AssistantRuntime → AssistantRuntime
forget_sessions mode r = record r { runtime_sessions = drop_mode mode r.runtime_sessions }

unfoldable pub reconcile_profile :
    AssistantMode → (ℕ → Resumption) → AssistantRuntime → AssistantRuntime
reconcile_profile mode answers r =
    reconcile_turns mode answers (turns_of mode r (pairs r.active_by_conversation))
      (forget_sessions mode r)
