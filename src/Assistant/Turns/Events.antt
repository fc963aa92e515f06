-- ===== src/Assistant/Turns/Events.antt =====
-- The events of the Hermes gateway: handleGatewayEvent of
-- backend/internal/app/assistant_runtime.go. A `gateway.ready` event starts reconcileProfile, which
-- is an operation of its own.
use viki.Assistant.State.{AssistantTurn, AssistantRuntime}
use viki.Prelude.{
  ℕ, Bool, true, false, ◌||◌, Option, none, some, Text, codes, text_eq, lookup, find_key,
  if◌then◌else◌,
}
use viki.Assistant.Markers.{has_suffix}
use viki.Tools.{AssistantMode, assistant_session_key}
use viki.Assistant.Turns.Cases.{
  Event, Decoders, fail_closed, on_delta, on_complete, on_tool, on_clarify, on_session_info,
  on_error,
}

-- What kind of event it is: the cases of the switch.
pub data EventKind : Type 0 where
  deltas interims completions tools clarifies session_infos errors forbidden others : EventKind

unfoldable pub event_kind : Text → EventKind
event_kind kind =
    if text_eq kind (codes "message.delta")
    then deltas
    else if text_eq kind (codes "message.interim")
    then interims
    else if text_eq kind (codes "message.complete")
    then completions
    else if text_eq kind (codes "tool.start")
        || text_eq kind (codes "tool.progress")
        || text_eq kind (codes "tool.complete")
    then tools
    else if text_eq kind (codes "clarify.request")
    then clarifies
    else if text_eq kind (codes "session.info")
    then session_infos
    else if text_eq kind (codes "error")
    then errors
    else if has_suffix kind (codes ".request")
    then forbidden
    else others

module _ (decode : Decoders) (saved : Bool) where
  -- The switch, for the turn that the event belongs to
  abbrev pub dispatch :
      AssistantMode → Event → ℕ → AssistantTurn → EventKind → AssistantRuntime → AssistantRuntime
  dispatch mode event t turn deltas r = on_delta t turn mode false (decode.delta event.payload) r
  dispatch mode event t turn interims r = on_delta t turn mode true (decode.delta event.payload) r
  dispatch mode event t turn completions r =
      on_complete t turn mode (decode.completion event.payload) r
  dispatch mode event t turn tools r =
      on_tool decode t turn event.kind (decode.tool event.payload) r
  dispatch mode event t turn clarifies r = on_clarify t turn mode (decode.clarify event.payload) r
  dispatch mode event t turn session_infos r =
      on_session_info saved t turn (decode.session_info event.payload) r
  dispatch mode event t turn errors r = on_error t turn mode r
  dispatch mode event t turn forbidden r = fail_closed t turn r
  dispatch mode event t turn others r = r

  abbrev pub dispatch_found :
      AssistantMode → Event → ℕ → Option AssistantTurn → AssistantRuntime → AssistantRuntime
  dispatch_found mode event t none r = r
  dispatch_found mode event t (some turn) r = dispatch mode event t turn (event_kind event.kind) r

  -- A recent turn takes part in session.info only.
  abbrev pub dispatch_recent :
      AssistantMode → Event → Option ℕ → AssistantRuntime → AssistantRuntime
  dispatch_recent mode event none r = r
  dispatch_recent mode event (some t) r =
      if text_eq event.kind (codes "session.info")
      then dispatch_found mode event t (lookup t r.turns) r
      else r

  abbrev pub dispatch_active :
      AssistantMode → Event → Option ℕ → AssistantRuntime → AssistantRuntime
  dispatch_active mode event (some t) r = dispatch_found mode event t (lookup t r.turns) r
  dispatch_active mode event none r =
      dispatch_recent mode event
        (find_key (assistant_session_key mode event.session_id) r.recent_by_runtime) r

  unfoldable pub handle_gateway_event : AssistantMode → Event → AssistantRuntime → AssistantRuntime
  handle_gateway_event mode event r =
      if text_eq event.kind (codes "gateway.ready")
      then r
      else dispatch_active mode event
          (find_key (assistant_session_key mode event.session_id) r.active_by_runtime) r
