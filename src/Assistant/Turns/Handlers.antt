-- ===== src/Assistant/Turns/Handlers.antt =====
-- Each handler of backend/internal/app/assistant_runtime.go keeps the maps of active turns
-- consistent: handleGatewayEvent with all its cases.
use viki.Assistant.State.{AssistantTurn, AssistantRuntime, error, publish}
use viki.Assistant.Turns.Active.{IsConsistent, finish_turn-IsConsistent}
use viki.Assistant.Turns.Cases.{Event, Decoders}
use viki.Assistant.Turns.Events.{
  EventKind, deltas, interims, completions, tools, clarifies, session_infos, errors, forbidden,
  others, event_kind, dispatch, dispatch_found, dispatch_recent, dispatch_active,
  handle_gateway_event,
}
use viki.Prelude.{ℕ, Bool, true, false, Option, none, some, codes, text_eq, lookup}
use viki.Tools.{AssistantMode}
use viki.Assistant.Turns.CasesKept.{
  either, fail_closed-IsConsistent, on_delta-IsConsistent, on_complete-IsConsistent,
  on_tool-IsConsistent, on_clarify-IsConsistent, on_session_info-IsConsistent,
}

module _ (decode : Decoders) (saved : Bool) (mode : AssistantMode) (event : Event) where
  dispatch-IsConsistent :
      (t : ℕ) (turn : AssistantTurn) (kind : EventKind) (r : AssistantRuntime)
      → IsConsistent r
      → IsConsistent (dispatch decode saved mode event t turn kind r)
  unfolding publish
  dispatch-IsConsistent t turn deltas r c =
      on_delta-IsConsistent t turn mode false (decode.delta event.payload) r c
  dispatch-IsConsistent t turn interims r c =
      on_delta-IsConsistent t turn mode true (decode.delta event.payload) r c
  dispatch-IsConsistent t turn completions r c =
      on_complete-IsConsistent t turn mode (decode.completion event.payload) r c
  dispatch-IsConsistent t turn tools r c =
      on_tool-IsConsistent decode t turn event.kind (decode.tool event.payload) r c
  dispatch-IsConsistent t turn clarifies r c =
      on_clarify-IsConsistent t turn mode (decode.clarify event.payload) r c
  dispatch-IsConsistent t turn session_infos r c =
      on_session_info-IsConsistent saved t turn (decode.session_info event.payload) r c
  dispatch-IsConsistent t turn errors r c = finish_turn-IsConsistent t error _ c
  dispatch-IsConsistent t turn forbidden r c = fail_closed-IsConsistent t turn r c
  dispatch-IsConsistent t turn others r c = c

  found :
      (t : ℕ) (o : Option AssistantTurn) (r : AssistantRuntime)
      → IsConsistent r
      → IsConsistent (dispatch_found decode saved mode event t o r)
  found t none r c = c
  found t (some turn) r c = dispatch-IsConsistent t turn (event_kind event.kind) r c

  recent :
      (o : Option ℕ) (r : AssistantRuntime)
      → IsConsistent r
      → IsConsistent (dispatch_recent decode saved mode event o r)
  recent none r c = c
  recent (some t) r c =
      either (text_eq event.kind (codes "session.info")) _ _ (found t (lookup t r.turns) r c) c

  active :
      (o : Option ℕ) (r : AssistantRuntime)
      → IsConsistent r
      → IsConsistent (dispatch_active decode saved mode event o r)
  active none r c = recent _ r c
  active (some t) r c = found t (lookup t r.turns) r c

  pub handle_gateway_event-IsConsistent :
      (r : AssistantRuntime)
      → IsConsistent r
      → IsConsistent (handle_gateway_event decode saved mode event r)
  unfolding handle_gateway_event
  handle_gateway_event-IsConsistent r c =
      either (text_eq event.kind (codes "gateway.ready")) _ _ c (active _ r c)
