-- ===== src/Assistant/Turns/Reachable.antt =====
-- The runtimes that the operations of backend/internal/app/assistant_runtime.go reach one after
-- another, and which tools they grant.
use viki.Assistant.State.{
  AssistantConversation, AssistantConversationState, Session, AssistantTurn, AssistantRuntime,
  new_assistant_runtime, publish, stopped, turn_stopped, AssistantClarification,
}
use viki.Assistant.Turns.Active.{
  IsConsistent, new-IsConsistent, finish_turn-IsConsistent, finish_turn_closed,
}
use viki.Assistant.Turns.Cases.{Event, Decoders}
use viki.Assistant.Turns.Events.{handle_gateway_event}
use viki.Assistant.Turns.Handlers.{handle_gateway_event-IsConsistent}
use viki.Assistant.Turns.Reconcile.{Resumption}
use viki.Assistant.Turns.Sessions.{GatewayError, Answers, clarification_mismatch}
use viki.Assistant.Turns.Submit.{
  Outcome, submit, stop, stop_active, stop_found, respond_clarification, answer_clarification,
  answer_matching, answer_active,
}
use viki.Assistant.Turns.Submitted.{Submitted, submit-Submitted, attach_session_grant}
use viki.Assistant.Turns.{
  runtime_key, stored_key, finish_turn, forget_found, forget_recent, set_session, attach_session,
  active_grant,
}
use viki.Assistant.Turns.Reconcile.{reconcile_profile}
use viki.Assistant.Turns.Reconciled.{reconcile_profile-IsConsistent}
use viki.Prelude.{
  ℕ, ◌≡◌, ap, ◌∙◌, Bool, true, false, Option, none, some, List, Text, lookup, lookup-adjust,
  find_key, drop_key, text_eq, is_empty, if◌then◌else◌, Result, ok, err, arith,
}
use viki.Tools.{AssistantMode, assistant_session_key, assistant_session_key-injective}

-- Each operation runs to its end before the next.
pub data Reachable (M : Type 0) : AssistantRuntime → Type 0 where
  started : Reachable M new_assistant_runtime
  submitted :
      {r : AssistantRuntime}
      → Reachable M r
      → (answers : Answers M) (format : List M → Text) (wrap : AssistantTurn → Text → Text → Text)
        (conversation : AssistantConversation) (mode : AssistantMode) (id content locale : Text)
      → Reachable M (submit answers format wrap conversation mode id content locale r).1
  stopping :
      {r : AssistantRuntime}
      → Reachable M r
      → (interrupted : Result GatewayError (Unit {0})) (conversation : Text)
      → Reachable M (stop interrupted conversation r).1
  answered :
      {r : AssistantRuntime}
      → Reachable M r
      → (responded : Result GatewayError (Unit {0})) (conversation request : Text)
      → Reachable M (respond_clarification responded conversation request r).1
  handled :
      {r : AssistantRuntime}
      → Reachable M r
      → (decode : Decoders) (saved : Bool) (mode : AssistantMode) (event : Event)
      → Reachable M (handle_gateway_event decode saved mode event r)
  reconciled :
      {r : AssistantRuntime}
      → Reachable M r
      → (mode : AssistantMode) (answers : ℕ → Resumption)
      → Reachable M (reconcile_profile mode answers r)
  forgotten : {r : AssistantRuntime} → Reachable M r → (t : ℕ) → Reachable M (forget_recent t r)

Submitted-IsConsistent :
    (conversation : AssistantConversation) (mode : AssistantMode) (r : AssistantRuntime)
    (outcome : Outcome)
    → Submitted conversation mode r outcome
    → IsConsistent outcome.1
Submitted-IsConsistent conversation mode r (ok t, s) h = h.0
Submitted-IsConsistent conversation mode r (err failure, s) h = h.0

stop-IsConsistent :
    (interrupted : Result GatewayError (Unit {0})) (conversation : Text) (r : AssistantRuntime)
    → IsConsistent r
    → IsConsistent (stop interrupted conversation r).1
unfolding stop publish
stop-IsConsistent interrupted conversation r c =
    active (find_key conversation r.active_by_conversation)
  where
    found :
        (x : Result GatewayError (Unit {0})) (t : ℕ) (o : Option AssistantTurn)
        → IsConsistent (stop_found x conversation r t o).1
    found x t none = c
    found (err failure) t (some turn) = c
    found (ok done) t (some turn) =
        finish_turn-IsConsistent t stopped (publish conversation (turn_stopped turn.id turn.mode) r)
          c

    active : (o : Option ℕ) → IsConsistent (stop_active interrupted conversation r o).1
    active none = c
    active (some t) = found interrupted t (lookup t r.turns)

respond_clarification-IsConsistent :
    (responded : Result GatewayError (Unit {0})) (conversation request : Text)
    (r : AssistantRuntime)
    → IsConsistent r
    → IsConsistent (respond_clarification responded conversation request r).1
unfolding respond_clarification publish
respond_clarification-IsConsistent responded conversation request r c =
    active (find_key conversation r.active_by_conversation)
  where
    answered :
        (x : Result GatewayError (Unit {0})) (t : ℕ) (turn : AssistantTurn) (same : Bool)
        → IsConsistent
            (if same
              then answer_clarification x conversation r t turn
              else (err clarification_mismatch, r)).1
    answered x t turn false = c
    answered (err failure) t turn true = c
    answered (ok done) t turn true = c

    matching :
        (t : ℕ) (o : Option AssistantTurn) (asked : Option AssistantClarification)
        → IsConsistent (answer_matching responded conversation request r t o asked).1
    matching t none asked = c
    matching t (some turn) none = c
    matching t (some turn) (some asked) =
        answered responded t turn (text_eq asked.request_id request)

    active : (o : Option ℕ) → IsConsistent (answer_active responded conversation request r o).1
    active none = c
    active (some t) = matching t (lookup t r.turns) (find_key conversation r.clarifications)

forget_recent-IsConsistent :
    (t : ℕ) (r : AssistantRuntime) → IsConsistent r → IsConsistent (forget_recent t r)
unfolding forget_recent
forget_recent-IsConsistent t r c = forgotten_turn (lookup t r.turns)
  where
    forgotten_turn : (o : Option AssistantTurn) → IsConsistent (forget_found r o)
    forgotten_turn none = c
    forgotten_turn (some turn) = nameless (is_empty turn.runtime_id)
      where
        nameless :
            (empty : Bool)
            → IsConsistent (
                if empty then r else record r {
                  recent_by_runtime = drop_key (runtime_key turn) r.recent_by_runtime;
                })
        nameless true = c
        nameless false = c

pub Reachable-IsConsistent : {M : Type 0} {r : AssistantRuntime} → Reachable M r → IsConsistent r
Reachable-IsConsistent started = new-IsConsistent
Reachable-IsConsistent
      (submitted {r} before answers format wrap conversation mode id content locale) =
    Submitted-IsConsistent conversation mode r _ (
      submit-Submitted answers format wrap conversation r mode id content locale
        (Reachable-IsConsistent before))
Reachable-IsConsistent (stopping {r} before interrupted conversation) =
    stop-IsConsistent interrupted conversation r (Reachable-IsConsistent before)
Reachable-IsConsistent (answered {r} before responded conversation request) =
    respond_clarification-IsConsistent responded conversation request r
      (Reachable-IsConsistent before)
Reachable-IsConsistent (handled {r} before decode saved mode event) =
    handle_gateway_event-IsConsistent decode saved mode event r (Reachable-IsConsistent before)
Reachable-IsConsistent (reconciled {r} before mode answers) =
    reconcile_profile-IsConsistent mode answers r (Reachable-IsConsistent before)
Reachable-IsConsistent (forgotten {r} before t) =
    forget_recent-IsConsistent t r (Reachable-IsConsistent before)

-- In every runtime that the operations reach one after another, a granted session belongs to one
-- turn: it has that mode and that stored session, it has not been finished, and it is the active turn
-- of its conversation.
pub active_grant_lem :
    {M : Type 0} {r : AssistantRuntime}
    → Reachable M r
    → (mode : AssistantMode) (session : Text) (t : ℕ) → active_grant mode session r ≡ some t
    → (turn : AssistantTurn) × (lookup t r.turns ≡ some turn)
      × (turn.mode ≡ mode)
      × (turn.stored_id ≡ session)
      × (turn.finalized ≡ false)
      × (find_key turn.conversation_id r.active_by_conversation ≡ some t)
unfolding active_grant stored_key
active_grant_lem reachable mode session t granted =
    let c = Reachable-IsConsistent reachable in
    let (turn, h, own) = c.by_stored (assistant_session_key mode session) t granted in
    let (same_mode, same_session) =
      assistant_session_key-injective turn.mode mode turn.stored_id session own in
    (turn, h.stored, same_mode, same_session, h.open_turn, h.held)

-- When a turn is finished before submit has filed it under its session, filing it grants the tools of
-- a finished turn, and finishing the turn again does not take the grant back.
pub attach_session-finished :
    (t : ℕ) (turn : AssistantTurn) (session : Session) (r : AssistantRuntime)
    (state : AssistantConversationState)
    → lookup t r.turns ≡ some turn
    → turn.finalized ≡ true
    → active_grant turn.mode session.stored_id
        (finish_turn t state (attach_session t turn.mode session r))
      ≡ some t
attach_session-finished t turn session r state at finished =
    let attached = attach_session t turn.mode session r in
    let now : lookup t attached.turns ≡ some (set_session session turn) =
      unfold attach_session in
      ground (arith, at, lookup-adjust t t (set_session session) r.turns) in
    ap (active_grant turn.mode session.stored_id)
      (finish_turn_closed t (set_session session turn) state attached now finished)
    ∙ attach_session_grant t turn session r
