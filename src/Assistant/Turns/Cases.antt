-- ===== src/Assistant/Turns/Cases.antt =====
-- What each kind of event of the Hermes gateway does: the cases of handleGatewayEvent,
-- handleToolEvent and failClosed of backend/internal/app/assistant_runtime.go. The decoding of an
-- event's JSON comes in as functions of its text; the answer to Interrupt is not read.
use viki.Assistant.Filter.{InternalStreamFilter, feed, flush, strip_internal_markers}
use viki.Assistant.Receipts.{Json, extract_citations, extract_draft_receipts, unwrap_tool_result}
use viki.Assistant.State.{
  AssistantConversationState, AssistantClarification, AssistantDraftReceipt, Citation, idle,
  stopped, error, awaiting_clarification, AssistantTurn, AssistantRuntime, PublicEvent, activity,
  message_delta, draft_created, clarification, completed, turn_stopped, failed, publish,
}
use viki.Assistant.State
use viki.Assistant.Turns.{finish_turn, rotate_stored_session}
use viki.Prelude.{
  ℕ, Bool, true, not, ◌&&◌, ◌||◌, Option, none, some, List, [], ◌∷◌, Text, codes, text_eq, adjust,
  find_key, put_key, is_some, is_empty, is_blank, if◌then◌else◌,
}
use viki.Tools.{AssistantMode, tool_allowed, tool_activity_state, tool_activity_label}

pub record Event : Type 0 where
  pub kind : Text
  pub session_id : Text
  pub payload : Text

pub record ClarifyPayload : Type 0 where
  pub question : Text
  pub choices : List Text
  pub request_id : Text

-- json.Unmarshal into the structs of the handlers; none for an error.
pub record Decoders : Type 0 where
  pub delta : Text → Option (Text × Bool)
  pub completion : Text → Text × Text
  pub clarify : Text → Option ClarifyPayload
  pub session_info : Text → Option Text
  pub tool : Text → Option (Text × Text)
  pub quoted : Text → Option Text
  pub result_field : Text → Option Text
  pub tree : Text → Option Json
  pub drafts : Text → Option (List AssistantDraftReceipt)

abbrev pub update_turn : ℕ → (AssistantTurn → AssistantTurn) → AssistantRuntime → AssistantRuntime
update_turn t f r = record r { turns = adjust t f r.turns }

-- failClosed; the data of the event is its code.
unfoldable pub fail_closed : ℕ → AssistantTurn → AssistantRuntime → AssistantRuntime
fail_closed t turn r =
    let event = failed turn.id turn.mode (codes "assistant_configuration_error") in
    finish_turn t error (publish turn.conversation_id event r)

-- A delta that is not empty is published, and the turn remembers that there was one.
abbrev pub show_delta :
    ℕ → AssistantTurn → AssistantMode → Text → AssistantRuntime → AssistantRuntime
show_delta t turn mode text r =
    if is_empty text
    then r
    else publish turn.conversation_id (message_delta turn.id mode text)
        (update_turn t (λ u. record u { had_delta = true }) r)

-- message.delta and message.interim, once the payload is decoded. Feed always returns.
abbrev pub feed_turn :
    ℕ
    → AssistantTurn
    → AssistantMode
    → Option (InternalStreamFilter × Text)
    → AssistantRuntime
    → AssistantRuntime
feed_turn t turn mode none r = r
feed_turn t turn mode (some (filter, text)) r =
    show_delta t turn mode text (update_turn t (λ u. record u { filter = filter }) r)

abbrev pub on_delta :
    ℕ
    → AssistantTurn
    → AssistantMode
    → (interim : Bool) → Option (Text × Bool)
    → AssistantRuntime
    → AssistantRuntime
on_delta t turn mode interim none r = r
on_delta t turn mode interim (some (text, already_streamed)) r =
    if interim && already_streamed then r else feed_turn t turn mode (feed turn.filter text) r

-- The switch on the status of message.complete
abbrev pub complete_turn :
    ℕ → AssistantTurn → AssistantMode → (status : Text) → AssistantRuntime → AssistantRuntime
complete_turn t turn mode status r =
    let conversation = turn.conversation_id in
    if text_eq status (codes "interrupted")
    then finish_turn t stopped (publish conversation (turn_stopped turn.id mode) r)
    else if text_eq status (codes "error")
    then finish_turn t error (publish conversation (failed turn.id mode (codes "hermes_error")) r)
    else finish_turn t idle (publish conversation (completed turn.id mode) r)

-- The whole text is published where no delta was; the flag is read after the tail is flushed.
abbrev pub show_whole :
    AssistantTurn → AssistantMode → Bool → Option Text → AssistantRuntime → AssistantRuntime
show_whole turn mode had_delta none r = r
show_whole turn mode had_delta (some text) r =
    if is_empty text || had_delta
    then r
    else publish turn.conversation_id (message_delta turn.id mode text) r

-- message.complete; strip_internal_markers always returns.
abbrev pub on_complete :
    ℕ → AssistantTurn → AssistantMode → Text × Text → AssistantRuntime → AssistantRuntime
on_complete t turn mode (text, status) r =
    let (filter, tail) = flush turn.filter in
    let had_delta = turn.had_delta || not (is_empty tail) in
    let flushed = update_turn t (λ u. record u { filter = filter }) r in
    complete_turn t turn mode status (
      show_whole turn mode had_delta (strip_internal_markers text)
        (show_delta t turn mode tail flushed))

abbrev pub add_drafts :
    ℕ
    → AssistantTurn
    → List (Text × AssistantDraftReceipt)
    → List AssistantDraftReceipt
    → AssistantRuntime
    → AssistantRuntime
add_drafts t turn known [] r = update_turn t (λ u. record u { drafts = known }) r
add_drafts t turn known (draft ∷ rest) r =
    let duplicate = is_some (find_key draft.revision_id known) in
    add_drafts t turn (if duplicate then known else put_key draft.revision_id draft known) rest (
      if duplicate
      then r
      else publish turn.conversation_id (draft_created turn.id turn.mode draft) r)

abbrev pub add_citations :
    ℕ → AssistantTurn → List (Text × Citation) → List Citation → AssistantRuntime → AssistantRuntime
add_citations t turn known [] r = update_turn t (λ u. record u { citations = known }) r
add_citations t turn known (cited ∷ rest) r =
    let duplicate = is_some (find_key cited.revision_id known) in
    add_citations t turn (if duplicate then known else put_key cited.revision_id cited known) rest (
      if duplicate
      then r
      else publish turn.conversation_id (State.citation turn.id turn.mode cited) r)

module _ (decode : Decoders) where
  -- The result of a tool that has completed
  abbrev pub on_result : ℕ → AssistantTurn → (name raw : Text) → AssistantRuntime → AssistantRuntime
  on_result t turn name raw r =
      let result = unwrap_tool_result decode.quoted decode.result_field raw in
      if text_eq name (codes "apply_viki_draft_changeset")
      then add_drafts t turn turn.drafts (extract_draft_receipts (decode.drafts result)) r
      else add_citations t turn turn.citations (extract_citations (decode.tree result)) r

  abbrev pub tool_event :
      ℕ → AssistantTurn → (kind name raw : Text) → AssistantRuntime → AssistantRuntime
  tool_event t turn kind name raw r =
      let event =
        activity turn.id turn.mode (tool_activity_state name kind) (tool_activity_label name) in
      let shown = publish turn.conversation_id event r in
      if is_empty name && text_eq kind (codes "tool.progress")
      then r
      else if text_eq name (codes "clarify")
      then r
      else if not (tool_allowed turn.mode name)
      then fail_closed t turn r
      else if not (text_eq kind (codes "tool.complete")) || is_empty raw
      then shown
      else on_result t turn name raw shown

  abbrev pub on_tool :
      ℕ → AssistantTurn → (kind : Text) → Option (Text × Text) → AssistantRuntime → AssistantRuntime
  on_tool t turn kind none r = r
  on_tool t turn kind (some (name, raw)) r = tool_event t turn kind name raw r

abbrev pub ask :
    AssistantTurn → AssistantMode → ClarifyPayload → AssistantRuntime → AssistantRuntime
ask turn mode payload r =
    let asked : AssistantClarification = record {
      request_id = payload.request_id;
      mode = mode;
      message = payload.question;
      choices = payload.choices;
    } in
    publish turn.conversation_id
      (clarification turn.id mode payload.request_id payload.question payload.choices)
      (record r {
        clarifications = put_key turn.conversation_id asked r.clarifications;
        conversation_state =
            put_key turn.conversation_id awaiting_clarification r.conversation_state;
      })

-- clarify.request
abbrev pub on_clarify :
    ℕ → AssistantTurn → AssistantMode → Option ClarifyPayload → AssistantRuntime → AssistantRuntime
on_clarify t turn mode none r = fail_closed t turn r
on_clarify t turn mode (some payload) r =
    if is_empty payload.request_id || is_blank payload.question
    then fail_closed t turn r
    else ask turn mode payload r

-- session.info; the repository says whether it saved the session.
abbrev pub on_session_info :
    (saved : Bool) → ℕ → AssistantTurn → Option Text → AssistantRuntime → AssistantRuntime
on_session_info saved t turn none r = r
on_session_info saved t turn (some stored) r =
    if is_empty stored || text_eq stored turn.stored_id
    then r
    else rotate_stored_session saved t stored r

abbrev pub on_error : ℕ → AssistantTurn → AssistantMode → AssistantRuntime → AssistantRuntime
on_error t turn mode r =
    finish_turn t error
      (publish turn.conversation_id (failed turn.id mode (codes "hermes_error")) r)
