-- ===== src/Assistant/Replay.antt =====
-- What people see of a conversation that Hermes keeps: visibleHistory of
-- backend/internal/app/assistant_runtime.go. Times are numbers of nanoseconds. The key and the
-- encodings of the envelope and of the receipts of tools come in as functions; none stands for the
-- panic of unwrapPrompt.
pub mod Shown
use Prim.Native.Nat.{◌/◌, ◌%◌}
use viki.Assistant.Filter.{strip_internal_markers}
use viki.Assistant.Handoff.{AssistantMessage}
use viki.Assistant.Prompt.{InternalPromptMetadata, Unwrapped, panics, returns, unwrap_prompt}
use viki.Assistant.Receipts.{assign, values, sorted}
use viki.Assistant.State.{AssistantDraftReceipt, Citation}
use viki.Prelude.Options.{◌>>=◌}
use viki.Prelude.{
  ℕ, zero, suc, ◌+◌, ◌*◌, Bool, true, false, not, ◌&&◌, ◌||◌, Option, none, some, List, [], ◌∷◌,
  ◌++◌, Text, codes, text_eq, is_empty, is_blank, ltb, if◌then◌else◌,
}
use viki.Tools.{AssistantMode, qa, edit, mode_name, tool_allowed}

-- The fields that are read
pub record HistoryMessage : Type 0 where
  pub role : Text
  pub text : Text
  pub name : Text
  pub result : Text

-- strconv.Itoa
abbrev digits : ℕ → ℕ → Text → Text
digits zero n out = out
digits (suc fuel) n out =
    let more = digits fuel (n / 10) ((b'0' + n % 10) ∷ out) in
    if ltb n 10 then (b'0' + n) ∷ out else more

unfoldable pub itoa : ℕ → Text
itoa n = digits (suc n) n []

-- The variables of the loop
pub record Replay : Type 0 where
  pub messages : List AssistantMessage
  pub turn_id : Text
  pub timestamp : ℕ
  pub mode : AssistantMode
  pub assistant_index : ℕ
  pub citations : List (Text × Citation)
  pub drafts : List (Text × AssistantDraftReceipt)

abbrev is_nil : {V : Type 0} → List V → Bool
is_nil [] = true
is_nil (_ ∷ _) = false

abbrev pub no_receipts : Replay → Bool
no_receipts s = is_nil s.citations && is_nil s.drafts

abbrev pub receipts_sentence : Replay → Text
receipts_sentence s =
    if is_nil s.drafts
    then codes "Našiel som podklady vo viki."
    else codes "Vytvoril som drafty vo viki."

abbrev sorted_citations : Replay → List Citation
sorted_citations s = sorted (λ (c : Citation). c.revision_id) (values s.citations)

abbrev sorted_drafts : Replay → List AssistantDraftReceipt
sorted_drafts s = sorted (λ (d : AssistantDraftReceipt). d.revision_id) (values s.drafts)

-- The message that is appended
abbrev pub shown_message : (id role content : Text) → Replay → AssistantMessage
shown_message id role content s = record {
  id = id;
  role = role;
  mode = s.mode;
  content = content;
  citations = sorted_citations s;
  drafts = sorted_drafts s;
  created_at = s.timestamp + s.assistant_index;
}

-- flushReceipts: receipts that no message has taken get a message of their own.
unfoldable pub flush_receipts : Replay → Replay
unfolding sorted
flush_receipts s =
    let t : Replay = record s { assistant_index = s.assistant_index + 1 } in
    let id = s.turn_id ++ codes "-assistant-receipt" in
    let message = shown_message id (codes "assistant") (receipts_sentence s) t in
    if is_empty s.turn_id || no_receipts s
    then s
    else record t { messages = s.messages ++ (message ∷ []); citations = []; drafts = [] }

abbrev keep_citations : List Citation → List (Text × Citation) → List (Text × Citation)
keep_citations [] kept = kept
keep_citations (c ∷ rest) kept =
    keep_citations rest
      (if is_empty c.revision_id || is_empty c.page_id then kept else assign c.revision_id c kept)

abbrev keep_drafts :
    List AssistantDraftReceipt
    → List (Text × AssistantDraftReceipt)
    → List (Text × AssistantDraftReceipt)
keep_drafts [] kept = kept
keep_drafts (d ∷ rest) kept =
    keep_drafts rest
      (if is_empty d.revision_id || is_empty d.page_id then kept else assign d.revision_id d kept)

abbrev pub take_receipts : Replay → Option (List Citation × List AssistantDraftReceipt) → Replay
take_receipts s none = s
take_receipts s (some (citations, drafts)) = record s {
  citations = keep_citations citations s.citations;
  drafts = keep_drafts drafts s.drafts;
}

-- The mode in an envelope that the runtime signed is one of the two.
abbrev mode_of : Text → AssistantMode
mode_of name = if text_eq name (codes "edit") then edit else qa

abbrev pub message_id : Text → Replay → Text
message_id role s =
    let id = s.turn_id ++ (codes "-" ++ role) in
    if text_eq role (codes "assistant") && ltb 1 s.assistant_index
    then id ++ (codes "-" ++ itoa s.assistant_index)
    else id

-- A message of a user or the assistant, with its content less the internal contexts
abbrev pub show_content : (role content : Text) → Replay → Replay
show_content role content s =
    let seen = if is_blank content then receipts_sentence s else content in
    let message = shown_message (message_id role s) role seen s in
    let t : Replay = record s { messages = s.messages ++ (message ∷ []) } in
    if is_blank content && no_receipts s
    then s
    else if text_eq role (codes "assistant")
    then record t { citations = []; drafts = [] }
    else t

module _ (marshal : InternalPromptMetadata → Text)
    (unmarshal : Text → Option InternalPromptMetadata) (sign : Text → Text)
    (receipts : Text → Option (List Citation × List AssistantDraftReceipt)) (mode : AssistantMode)
    (fallback : ℕ) where
  abbrev pub on_tool_message : HistoryMessage → Replay → Replay
  on_tool_message m s =
      if is_empty s.turn_id || is_empty m.result || not (tool_allowed s.mode m.name)
      then s
      else take_receipts s (receipts m.result)

  -- The turn that a message of a user starts, and its visible text
  abbrev pub enter_turn : ℕ → Text → Replay → Unwrapped → Option (Replay × Text)
  enter_turn index text s panics = none
  enter_turn index text s (returns metadata visible valid) =
      if valid
      then some (
        record s {
          turn_id = metadata.turn_id;
          timestamp = metadata.timestamp;
          mode = mode_of metadata.mode;
          assistant_index = 0;
        },
        visible,
      )
      else some (
        record s {
          turn_id = mode_name mode ++ (codes "-legacy-" ++ itoa index);
          timestamp = fallback + index * 1000000;
          mode = mode;
          assistant_index = 0;
        },
        text,
      )

  abbrev pub enter : ℕ → HistoryMessage → Replay → Option (Replay × Text)
  enter index m s =
      if text_eq m.role (codes "user")
      then enter_turn index m.text (flush_receipts s) (unwrap_prompt marshal unmarshal sign m.text)
      else some (record s { assistant_index = s.assistant_index + 1 }, m.text)

  abbrev pub on_text_message : ℕ → HistoryMessage → Replay → Option Replay
  on_text_message index m s = do
    (entered, text) ← enter index m s
    content ← strip_internal_markers text
    some (show_content m.role content entered)

  -- The body of the loop
  unfoldable pub replay_message : ℕ → HistoryMessage → Replay → Option Replay
  replay_message index m s =
      if text_eq m.role (codes "tool")
      then some (on_tool_message m s)
      else if text_eq m.role (codes "user") || text_eq m.role (codes "assistant")
      then on_text_message index m s
      else some s

  unfoldable pub replay_from : ℕ → List HistoryMessage → Replay → Option Replay
  unfolding replay_message
  replay_from index [] s = some s
  replay_from index (m ∷ rest) s = do t ← replay_message index m s; replay_from (suc index) rest t

  abbrev pub replay_start : Replay
  replay_start = record {
    messages = [];
    turn_id = [];
    timestamp = fallback;
    mode = mode;
    assistant_index = 0;
    citations = [];
    drafts = [];
  }

  unfoldable pub visible_history : List HistoryMessage → Option (List AssistantMessage)
  unfolding replay_from flush_receipts
  visible_history history = do
    s ← replay_from 0 history replay_start
    some (flush_receipts s).messages
