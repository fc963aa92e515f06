-- ===== src/Assistant/Turns/Closed.antt =====
-- How the assistant fails closed: failClosed of backend/internal/app/assistant_runtime.go and the
-- events that lead to it.
use mathlib.Core.Path.{subst}
use viki.Assistant.Markers.{has_suffix}
use viki.Assistant.State.{AssistantTurn, AssistantRuntime, error, failed, publish}
use viki.Assistant.Turns.Active.{
  Held, Holds, IsConsistent, finish_turn_open, close_turn-IsConsistent, same_turn,
}
use viki.Assistant.Turns.Cases.{Event, Decoders, fail_closed, tool_event, on_tool}
use viki.Assistant.Turns.Events.{
  tools, forbidden, EventKind, event_kind, dispatch, handle_gateway_event,
}
use viki.Assistant.Turns.{finalize, close_turn, active_grant}
use viki.Prelude.{
  ℕ, ◌≡◌, refl, sym, ap, ◌∙◌, ◌⊎◌, inl, inr, Bool, true, false, Option, none, some, List, adjust,
  Text, codes, text_eq, text_eq→≡, text_eq_refl, lookup, lookup-adjust, find_key, find_key-put_key,
  find_key-drop_key, is_empty, Bool-cases, arith,
}
use viki.Tools.{AssistantMode, tool_allowed, assistant_session_key}

-- Nothing of the turn is active: its conversation has no turn and is in the state `error`, and no
-- session grants the turn's tools.
pub record Closed (conversation : Text) (t : ℕ) (r : AssistantRuntime) : Type 0 where
  pub no_turn : find_key conversation r.active_by_conversation ≡ none
  pub in_error : find_key conversation r.conversation_state ≡ some error
  pub no_grant : (mode : AssistantMode) (session : Text) → active_grant mode session r ≡ some t → ⊥

finalized_not_Held :
    (t : ℕ) (turn u : AssistantTurn) (r : AssistantRuntime) (conversations : List (Text × ℕ))
    → lookup t r.turns ≡ some turn
    → Held (adjust t finalize r.turns) conversations t u
    → ⊥
finalized_not_Held t turn u r conversations at h =
    ground (arith, at, h.stored, h.open_turn, lookup-adjust t t finalize r.turns)

close_turn-Closed :
    (t : ℕ) (turn : AssistantTurn) (r : AssistantRuntime)
    → IsConsistent r
    → Holds r t turn
    → Closed turn.conversation_id t (close_turn t turn error r)
unfolding active_grant
close_turn-Closed t turn r c h =
    let after = close_turn-IsConsistent t turn error r c h.stored in
    record {
      no_turn = ground (
        arith,
        h.held,
        find_key-drop_key turn.conversation_id turn.conversation_id r.active_by_conversation,
        text_eq_refl turn.conversation_id,
      );
      in_error = ground (
        arith,
        find_key-put_key turn.conversation_id turn.conversation_id error r.conversation_state,
        text_eq_refl turn.conversation_id,
      );
      no_grant = λ mode session granted.
          let (u, held, own) = after.by_stored (assistant_session_key mode session) t granted in
          finalized_not_Held t turn u r _ h.stored held;
    }

fail_closed-Closed :
    (t : ℕ) (turn : AssistantTurn) (r : AssistantRuntime)
    → IsConsistent r
    → Holds r t turn
    → Closed turn.conversation_id t (fail_closed t turn r)
unfolding fail_closed publish
fail_closed-Closed t turn r c h =
    let event = failed turn.id turn.mode (codes "assistant_configuration_error") in
    let s = publish turn.conversation_id event r in
    subst (Closed turn.conversation_id t)
      (sym (finish_turn_open t turn error s h.stored h.open_turn)) (close_turn-Closed t turn s c h)

-- A name that does not end so is not the name of a kind that does.
ends_otherwise :
    (kind name suffix : Text)
    → has_suffix kind suffix ≡ true
    → has_suffix name suffix ≡ false
    → text_eq kind name ≡ false
ends_otherwise kind name suffix ends not_so = elim (Bool-cases (text_eq kind name)) [
  | inl same ↦ cc (ends, not_so, text_eq→≡ kind name same)
  | inr other ↦ other
]

abbrev request : Text
request = codes ".request"

abbrev IsNoRequest : Text → Type 0
IsNoRequest name = has_suffix name request ≡ false

no_requests :
    IsNoRequest (codes "message.delta")
    × IsNoRequest (codes "message.interim")
    × IsNoRequest (codes "message.complete")
    × IsNoRequest (codes "tool.start")
    × IsNoRequest (codes "tool.progress")
    × IsNoRequest (codes "tool.complete")
    × IsNoRequest (codes "session.info")
    × IsNoRequest (codes "error")
    × IsNoRequest (codes "gateway.ready")
unfolding has_suffix
no_requests = (refl, refl, refl, refl, refl, refl, refl, refl, refl)

request-event_kind :
    (kind : Text)
    → has_suffix kind request ≡ true
    → text_eq kind (codes "clarify.request") ≡ false
    → event_kind kind ≡ forbidden
unfolding event_kind
request-event_kind kind ends other =
    let no = no_requests in
    rw
      (
        ends_otherwise kind (codes "message.delta") request ends (no.0),
        ends_otherwise kind (codes "message.interim") request ends (no.1),
        ends_otherwise kind (codes "message.complete") request ends (no.2),
        ends_otherwise kind (codes "tool.start") request ends (no.3),
        ends_otherwise kind (codes "tool.progress") request ends (no.4),
        ends_otherwise kind (codes "tool.complete") request ends (no.5),
        other,
        ends_otherwise kind (codes "session.info") request ends (no.6),
        ends_otherwise kind (codes "error") request ends (no.7),
        ends,
      )
      refl

-- What the gateway may not do in a mode: ask for anything but a clarification, or use a tool that the
-- mode does not allow.
abbrev pub Unpermitted : Decoders → AssistantMode → Event → Type 0
Unpermitted decode mode event =
    ((has_suffix event.kind request ≡ true)
      × (text_eq event.kind (codes "clarify.request") ≡ false))
    ⊎ ((name : Text) × (raw : Text) × (decode.tool event.payload ≡ some (name, raw))
        × ((event.kind ≡ codes "tool.start") ⊎ (event.kind ≡ codes "tool.complete"))
        × (text_eq name (codes "clarify") ≡ false)
        × (tool_allowed mode name ≡ false))

tool_event_refused :
    (decode : Decoders) (t : ℕ) (turn : AssistantTurn) (kind name raw : Text) (r : AssistantRuntime)
    → text_eq kind (codes "tool.progress") ≡ false
    → text_eq name (codes "clarify") ≡ false
    → tool_allowed turn.mode name ≡ false
    → tool_event decode t turn kind name raw r ≡ fail_closed t turn r
tool_event_refused decode t turn kind name raw r no_progress no_clarify refused =
    elim (Bool-cases (is_empty name)) [
      | inl unnamed ↦ rw (unnamed, no_progress, no_clarify, refused) refl
      | inr named ↦ rw (named, no_clarify, refused) refl
    ]

-- The kinds of the events of a tool.
tool_kinds :
    (kind : Text)
    → (kind ≡ codes "tool.start") ⊎ (kind ≡ codes "tool.complete")
    → (event_kind kind ≡ tools)
      × (text_eq kind (codes "tool.progress") ≡ false)
      × (text_eq kind (codes "gateway.ready") ≡ false)
unfolding event_kind
tool_kinds kind (inl e) = rw e (refl, refl, refl)
tool_kinds kind (inr e) = rw e (refl, refl, refl)

module _ (decode : Decoders) (saved : Bool) (mode : AssistantMode) (event : Event)
    (r : AssistantRuntime) (t : ℕ) (turn : AssistantTurn)
    (active : find_key (assistant_session_key mode event.session_id) r.active_by_runtime ≡ some t)
    (at : lookup t r.turns ≡ some turn) where
  handle_gateway_event-dispatch :
      text_eq event.kind (codes "gateway.ready") ≡ false
      → handle_gateway_event decode saved mode event r
        ≡ dispatch decode saved mode event t turn (event_kind event.kind) r
  unfolding handle_gateway_event
  handle_gateway_event-dispatch not_ready = rw (not_ready, active, at) refl

  handle_gateway_event-Unpermitted :
      Unpermitted decode turn.mode event
      → handle_gateway_event decode saved mode event r ≡ fail_closed t turn r
  handle_gateway_event-Unpermitted (inl (ends, other)) =
      let ready = ends_otherwise event.kind (codes "gateway.ready") request ends (no_requests.8) in
      handle_gateway_event-dispatch ready
      ∙ ap (λ (k : EventKind). dispatch decode saved mode event t turn k r)
          (request-event_kind event.kind ends other)
  handle_gateway_event-Unpermitted (inr (name, raw, decoded, kind, no_clarify, refused)) =
      let (is_tool, no_progress, ready) = tool_kinds event.kind kind in
      handle_gateway_event-dispatch ready
      ∙ ap (λ (k : EventKind). dispatch decode saved mode event t turn k r) is_tool
      ∙ ap (λ (o : Option (Text × Text)). on_tool decode t turn event.kind o r) decoded
      ∙ tool_event_refused decode t turn event.kind name raw r no_progress no_clarify refused

-- When the session of an active turn does what is not permitted, its conversation is left without
-- an active turn and in the state `error`, and no session grants the turn's tools any more.
pub handle_gateway_event-Closed :
    (decode : Decoders) (saved : Bool) (mode : AssistantMode) (event : Event) (r : AssistantRuntime)
    (t : ℕ) (turn : AssistantTurn)
    → IsConsistent r
    → find_key (assistant_session_key mode event.session_id) r.active_by_runtime ≡ some t
    → lookup t r.turns ≡ some turn
    → Unpermitted decode turn.mode event
    → Closed turn.conversation_id t (handle_gateway_event decode saved mode event r)
handle_gateway_event-Closed decode saved mode event r t turn c active at bad =
    let (u, held, own) = c.by_runtime _ t active in
    let holds : Holds r t turn = subst (Holds r t) (same_turn r t u turn held.stored at) held in
    subst (Closed turn.conversation_id t)
      (sym (handle_gateway_event-Unpermitted decode saved mode event r t turn active at bad))
      (fail_closed-Closed t turn r c holds)
