-- ===== src/Assistant/Turns/CasesKept.antt =====
-- Each case of handleGatewayEvent of backend/internal/app/assistant_runtime.go keeps the maps of
-- active turns consistent.
use viki.Assistant.Filter.{InternalStreamFilter, feed, flush, strip_internal_markers}
use viki.Assistant.Receipts.{extract_citations, extract_draft_receipts, unwrap_tool_result}
use viki.Assistant.State.{
  AssistantDraftReceipt, Citation, AssistantTurn, AssistantRuntime, PublicEvent, error, publish,
}
use viki.Assistant.Turns.Active.{IsConsistent, finish_turn-IsConsistent}
use viki.Assistant.Turns.Cases.{
  Decoders, ClarifyPayload, update_turn, fail_closed, show_delta, feed_turn, on_delta,
  complete_turn, show_whole, on_complete, add_drafts, add_citations, on_result, on_tool, on_clarify,
  on_session_info,
}
use viki.Assistant.Turns.Kept.{adjust-IsConsistent, rotate_stored_session-IsConsistent}
use viki.Assistant.Turns.{runtime_key, stored_key}
use viki.Prelude.{
  ℕ, Bool, true, false, not, ◌||◌, ◌&&◌, Option, none, some, List, [], ◌∷◌, Text, codes, text_eq,
  find_key, is_some, is_empty, is_blank, if◌then◌else◌, refl,
}
use viki.Tools.{AssistantMode, tool_allowed}

pub either :
    (test : Bool) (r s : AssistantRuntime)
    → IsConsistent r
    → IsConsistent s
    → IsConsistent (if test then r else s)
either true r s c d = c
either false r s c d = d

publish-IsConsistent :
    (conversation : Text) (event : PublicEvent) (r : AssistantRuntime)
    → IsConsistent r
    → IsConsistent (publish conversation event r)
unfolding publish
publish-IsConsistent conversation event r c = c

pub fail_closed-IsConsistent :
    (t : ℕ) (turn : AssistantTurn) (r : AssistantRuntime)
    → IsConsistent r
    → IsConsistent (fail_closed t turn r)
unfolding fail_closed publish
fail_closed-IsConsistent t turn r c = finish_turn-IsConsistent t error _ c

show_delta-IsConsistent :
    (t : ℕ) (turn : AssistantTurn) (mode : AssistantMode) (text : Text) (r : AssistantRuntime)
    → IsConsistent r
    → IsConsistent (show_delta t turn mode text r)
unfolding publish runtime_key stored_key
show_delta-IsConsistent t turn mode text r c = either (is_empty text) _ _ c (
    adjust-IsConsistent t (λ u. record u { had_delta = true }) r (λ u. refl) (λ u. refl) (λ u. refl)
      (λ u. refl) c)

set_filter-IsConsistent :
    (t : ℕ) (filter : InternalStreamFilter) (r : AssistantRuntime)
    → IsConsistent r
    → IsConsistent (update_turn t (λ u. record u { filter = filter }) r)
unfolding runtime_key stored_key
set_filter-IsConsistent t filter r c =
    adjust-IsConsistent t (λ u. record u { filter = filter }) r (λ u. refl) (λ u. refl) (λ u. refl)
      (λ u. refl) c

pub on_delta-IsConsistent :
    (t : ℕ) (turn : AssistantTurn) (mode : AssistantMode) (interim : Bool)
    (payload : Option (Text × Bool)) (r : AssistantRuntime)
    → IsConsistent r
    → IsConsistent (on_delta t turn mode interim payload r)
on_delta-IsConsistent t turn mode interim none r c = c
on_delta-IsConsistent t turn mode interim (some (text, streamed)) r c =
    either (interim && streamed) _ _ c (fed (feed turn.filter text))
  where
    fed : (o : Option (InternalStreamFilter × Text)) → IsConsistent (feed_turn t turn mode o r)
    fed none = c
    fed (some (filter, shown)) =
        show_delta-IsConsistent t turn mode shown _ (set_filter-IsConsistent t filter r c)

complete_turn-IsConsistent :
    (t : ℕ) (turn : AssistantTurn) (mode : AssistantMode) (status : Text) (r : AssistantRuntime)
    → IsConsistent r
    → IsConsistent (complete_turn t turn mode status r)
unfolding publish
complete_turn-IsConsistent t turn mode status r c =
    either (text_eq status (codes "interrupted")) _ _ (finish_turn-IsConsistent t _ _ c) (
      either (text_eq status (codes "error")) _ _ (finish_turn-IsConsistent t _ _ c)
        (finish_turn-IsConsistent t _ _ c))

show_whole-IsConsistent :
    (turn : AssistantTurn) (mode : AssistantMode) (had_delta : Bool) (text : Option Text)
    (r : AssistantRuntime)
    → IsConsistent r
    → IsConsistent (show_whole turn mode had_delta text r)
unfolding publish
show_whole-IsConsistent turn mode had_delta none r c = c
show_whole-IsConsistent turn mode had_delta (some text) r c =
    either (is_empty text || had_delta) _ _ c c

pub on_complete-IsConsistent :
    (t : ℕ) (turn : AssistantTurn) (mode : AssistantMode) (payload : Text × Text)
    (r : AssistantRuntime)
    → IsConsistent r
    → IsConsistent (on_complete t turn mode payload r)
on_complete-IsConsistent t turn mode (text, status) r c =
    let (filter, tail) = flush turn.filter in
    complete_turn-IsConsistent t turn mode status _ (
      show_whole-IsConsistent turn mode _ (strip_internal_markers text) _
        (show_delta-IsConsistent t turn mode tail _ (set_filter-IsConsistent t filter r c)))

add_drafts-IsConsistent :
    (t : ℕ) (turn : AssistantTurn) (new : List AssistantDraftReceipt)
    (known : List (Text × AssistantDraftReceipt)) (r : AssistantRuntime)
    → IsConsistent r
    → IsConsistent (add_drafts t turn known new r)
unfolding publish runtime_key stored_key
add_drafts-IsConsistent t turn [] known r c =
    adjust-IsConsistent t (λ u. record u { drafts = known }) r (λ u. refl) (λ u. refl) (λ u. refl)
      (λ u. refl) c
add_drafts-IsConsistent t turn (draft ∷ rest) known r c =
    add_drafts-IsConsistent t turn rest _ _
      (either (is_some (find_key draft.revision_id known)) _ _ c c)

add_citations-IsConsistent :
    (t : ℕ) (turn : AssistantTurn) (new : List Citation) (known : List (Text × Citation))
    (r : AssistantRuntime)
    → IsConsistent r
    → IsConsistent (add_citations t turn known new r)
unfolding publish runtime_key stored_key
add_citations-IsConsistent t turn [] known r c =
    adjust-IsConsistent t (λ u. record u { citations = known }) r (λ u. refl) (λ u. refl)
      (λ u. refl) (λ u. refl) c
add_citations-IsConsistent t turn (cited ∷ rest) known r c =
    add_citations-IsConsistent t turn rest _ _
      (either (is_some (find_key cited.revision_id known)) _ _ c c)

module _ (decode : Decoders) where
  on_result-IsConsistent :
      (t : ℕ) (turn : AssistantTurn) (name raw : Text) (r : AssistantRuntime)
      → IsConsistent r
      → IsConsistent (on_result decode t turn name raw r)
  on_result-IsConsistent t turn name raw r c =
      let result = unwrap_tool_result decode.quoted decode.result_field raw in
      let new_drafts = extract_draft_receipts (decode.drafts result) in
      let new_citations = extract_citations (decode.tree result) in
      either (text_eq name (codes "apply_viki_draft_changeset"))
        (add_drafts t turn turn.drafts new_drafts r)
        (add_citations t turn turn.citations new_citations r)
        (add_drafts-IsConsistent t turn new_drafts turn.drafts r c)
        (add_citations-IsConsistent t turn new_citations turn.citations r c)

  pub on_tool-IsConsistent :
      (t : ℕ) (turn : AssistantTurn) (kind : Text) (payload : Option (Text × Text))
      (r : AssistantRuntime)
      → IsConsistent r
      → IsConsistent (on_tool decode t turn kind payload r)
  unfolding publish
  on_tool-IsConsistent t turn kind none r c = c
  on_tool-IsConsistent t turn kind (some (name, raw)) r c =
      either (is_empty name && text_eq kind (codes "tool.progress")) _ _ c (
        either (text_eq name (codes "clarify")) _ _ c (
          either (not (tool_allowed turn.mode name)) _ _ (fail_closed-IsConsistent t turn r c) (
            either (not (text_eq kind (codes "tool.complete")) || is_empty raw) _ _ c
              (on_result-IsConsistent t turn name raw _ c))))

pub on_clarify-IsConsistent :
    (t : ℕ) (turn : AssistantTurn) (mode : AssistantMode) (payload : Option ClarifyPayload)
    (r : AssistantRuntime)
    → IsConsistent r
    → IsConsistent (on_clarify t turn mode payload r)
unfolding publish
on_clarify-IsConsistent t turn mode none r c = fail_closed-IsConsistent t turn r c
on_clarify-IsConsistent t turn mode (some payload) r c =
    either (is_empty payload.request_id || is_blank payload.question) _ _
      (fail_closed-IsConsistent t turn r c) c

pub on_session_info-IsConsistent :
    (saved : Bool) (t : ℕ) (turn : AssistantTurn) (payload : Option Text) (r : AssistantRuntime)
    → IsConsistent r
    → IsConsistent (on_session_info saved t turn payload r)
on_session_info-IsConsistent saved t turn none r c = c
on_session_info-IsConsistent saved t turn (some stored) r c =
    either (is_empty stored || text_eq stored turn.stored_id) _ _ c
      (rotate_stored_session-IsConsistent saved t stored r c)
