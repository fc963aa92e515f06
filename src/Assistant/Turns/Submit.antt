-- ===== src/Assistant/Turns/Submit.antt =====
-- Starting and stopping turns: submit, stop and respondClarification of
-- backend/internal/app/assistant_runtime.go, each run to its end.
use viki.Assistant.State.{
  AssistantConversation, AssistantClarification, Session, AssistantTurn, AssistantRuntime,
  PublicEvent, activity, turn_stopped, running, stopped, error, publish,
}
use viki.Assistant.Turns.{new_turn, begin_turn, attach_session, finish_turn, set_session}
use viki.Prelude.{
  ℕ, Option, none, some, List, Text, codes, text_eq, lookup, find_key, put_key, drop_key,
  trim_space, has_prefix, if◌then◌else◌, Result, ok, err,
}
use viki.Tools.{AssistantMode}
use viki.Assistant.Turns.Sessions.{
  GatewayError, AssistantError, Answers, ensure_session, build_handoff, command_forbidden,
  turn_active, turn_not_active, clarification_mismatch, gateway_unavailable, store_failed,
  gateway_failed,
}

-- The end of an operation, and the runtime after it.
abbrev pub Outcome : Type 0
Outcome = Result AssistantError ℕ × AssistantRuntime

-- submit's `fail`
abbrev pub fail : ℕ → AssistantError → AssistantRuntime → Outcome
fail t failure r = (err failure, finish_turn t error r)

abbrev pub submitted_activity : AssistantTurn → PublicEvent
submitted_activity turn =
    activity turn.id turn.mode (codes "submitted") (codes "viki asistent premýšľa…")

module _ {M : Type 0} (answers : Answers M) (format : List M → Text)
    (wrap : AssistantTurn → Text → Text → Text) where
  -- submit after the prompt is sent
  abbrev pub prompt_sent :
      ℕ → AssistantTurn → AssistantRuntime → Result GatewayError (Unit {0}) → Outcome
  prompt_sent t turn r (err failure) = fail t (gateway_failed failure) r
  prompt_sent t turn r (ok _) =
      if answers.mode_updated
      then (ok t, publish turn.conversation_id (submitted_activity turn) r)
      else fail t store_failed r

  abbrev pub with_handoff :
      ℕ
      → AssistantTurn
      → Text
      → AssistantRuntime
      → Result AssistantError (Text × AssistantRuntime)
      → Outcome
  with_handoff t turn content r (err failure) = fail t failure r
  with_handoff t turn content r (ok (handoff, after)) =
      prompt_sent t turn after (answers.submitted (wrap turn content handoff))

  abbrev pub in_session :
      ℕ
      → AssistantTurn
      → Text
      → AssistantRuntime
      → Result AssistantError (Session × AssistantConversation × AssistantRuntime)
      → Outcome
  in_session t turn content r (err failure) = fail t failure r
  in_session t turn content r (ok (session, conversation, after)) =
      let attached = attach_session t turn.mode session after in
      with_handoff t (set_session session turn) content attached
        (build_handoff answers format conversation turn.mode attached)

  abbrev pub submit_begun :
      AssistantConversation
      → AssistantTurn
      → Text
      → AssistantRuntime
      → Option (ℕ × AssistantRuntime)
      → Outcome
  submit_begun conversation turn content r none = (err turn_active, r)
  submit_begun conversation turn content r (some (t, begun)) =
      if answers.has_gateway
      then in_session t turn content begun (ensure_session answers conversation turn.mode begun)
      else fail t gateway_unavailable begun

  unfoldable pub submit :
      AssistantConversation → AssistantMode → Text → Text → Text → AssistantRuntime → Outcome
  submit conversation mode id content locale r =
      if has_prefix (trim_space content) (codes "/")
      then (err command_forbidden, r)
      else let turn = new_turn conversation mode locale id in
        submit_begun conversation turn content r (begin_turn turn r)

abbrev pub stop_found :
    Result GatewayError (Unit {0}) → Text → AssistantRuntime → ℕ → Option AssistantTurn → Outcome
stop_found interrupted conversation r t none = (err turn_not_active, r)
stop_found (err failure) conversation r t (some turn) = (err (gateway_failed failure), r)
stop_found (ok _) conversation r t (some turn) =
    (ok t, finish_turn t stopped (publish conversation (turn_stopped turn.id turn.mode) r))

abbrev pub stop_active :
    Result GatewayError (Unit {0}) → Text → AssistantRuntime → Option ℕ → Outcome
stop_active interrupted conversation r none = (err turn_not_active, r)
stop_active interrupted conversation r (some t) =
    stop_found interrupted conversation r t (lookup t r.turns)

unfoldable pub stop : Result GatewayError (Unit {0}) → Text → AssistantRuntime → Outcome
stop interrupted conversation r =
    stop_active interrupted conversation r (find_key conversation r.active_by_conversation)

-- respondClarification, once the turn and the clarification are found
abbrev pub answer_clarification :
    Result GatewayError (Unit {0}) → Text → AssistantRuntime → ℕ → AssistantTurn → Outcome
answer_clarification (err failure) conversation r t turn = (err (gateway_failed failure), r)
answer_clarification (ok _) conversation r t turn =
    let answered : AssistantRuntime = record r {
      clarifications = drop_key conversation r.clarifications;
      conversation_state = put_key conversation running r.conversation_state;
    } in
    let label = codes "Pokračujem s odpoveďou…" in
    (
      ok t,
      publish conversation (activity turn.id turn.mode (codes "clarification_answered") label)
          answered,
    )

abbrev pub answer_matching :
    Result GatewayError (Unit {0})
    → (conversation request : Text) → AssistantRuntime
    → ℕ
    → Option AssistantTurn
    → Option AssistantClarification
    → Outcome
answer_matching responded conversation request r t none asked = (err clarification_mismatch, r)
answer_matching responded conversation request r t (some turn) none =
    (err clarification_mismatch, r)
answer_matching responded conversation request r t (some turn) (some asked) =
    if text_eq asked.request_id request
    then answer_clarification responded conversation r t turn
    else (err clarification_mismatch, r)

abbrev pub answer_active :
    Result GatewayError (Unit {0})
    → (conversation request : Text) → AssistantRuntime
    → Option ℕ
    → Outcome
answer_active responded conversation request r none = (err clarification_mismatch, r)
answer_active responded conversation request r (some t) =
    answer_matching responded conversation request r t (lookup t r.turns)
      (find_key conversation r.clarifications)

unfoldable pub respond_clarification :
    Result GatewayError (Unit {0}) → (conversation request : Text) → AssistantRuntime → Outcome
respond_clarification responded conversation request r =
    answer_active responded conversation request r (find_key conversation r.active_by_conversation)
