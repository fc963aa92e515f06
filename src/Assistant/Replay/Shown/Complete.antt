-- ===== src/Assistant/Replay/Shown/Complete.antt =====
-- visibleHistory of backend/internal/app/assistant_runtime.go shows what was said.
use viki.Assistant.Filter.{strip_internal_markers}
use viki.Assistant.Filter.Strip.{strip_internal_markers-Cut}
use viki.Assistant.Handoff.{AssistantMessage}
use viki.Assistant.Prompt.{InternalPromptMetadata, Unwrapped, panics, returns, unwrap_prompt}
use viki.Assistant.Prompt.Accepts.{unwrap_prompt_panics}
use viki.Assistant.Replay.{
  HistoryMessage, Replay, flush_receipts, show_content, on_tool_message, enter_turn, enter,
  on_text_message, replay_message, replay_from, replay_start, visible_history,
}
use viki.Assistant.Replay.Shown.{IsShown, Embeds, IsSafe, seen, opened, said, spoken}
use viki.Assistant.Replay.Shown.Adds.{
  Adds, Adds-none, Adds-then, if-Adds, flush_receipts-Adds, show_content-Adds, take_receipts-Adds,
}
use viki.Assistant.State.{AssistantDraftReceipt, Citation}
use mathlib.Core.List.{append-nil}
use mathlib.Core.Path.{subst}
use viki.Prelude.{
  ℕ, suc, ◌≡◌, refl, sym, ◌⊎◌, inl, inr, Bool, true, false, not, ◌||◌, Option, none, some, List, [],
  ◌∷◌, All, Text, codes, text_eq, text_eq→≡, is_empty, trim_space, Bool-cases, if◌then◌else◌,
}
use viki.Tools.{AssistantMode, tool_allowed}

-- The step gives a state, and adds what was said.
abbrev Gives : Replay → Option Replay → List (Text × Text) → Type 0
Gives s o what = (t : Replay) × (o ≡ some t) × Adds s t what

if-Gives :
    (test : Bool) (s : Replay) (o p : Option Replay) (what : List (Text × Text))
    → Gives s o what
    → Gives s p what
    → Gives s (if test then o else p) what
if-Gives true s o p what h g = h
if-Gives false s o p what h g = g

unseen :
    (role : Text) (o : Option Text)
    → text_eq role (codes "user") ≡ false
    → text_eq role (codes "assistant") ≡ false
    → seen role o ≡ []
unseen role none user assistant = refl
unseen role (some content) user assistant = rw (user, assistant) refl

module _ (marshal : InternalPromptMetadata → Text)
    (unmarshal : Text → Option InternalPromptMetadata) (sign : Text → Text)
    (receipts : Text → Option (List Citation × List AssistantDraftReceipt)) (mode : AssistantMode)
    (fallback : ℕ) where
  entered :
      (index : ℕ) (text : Text) (s : Replay) (u : Unwrapped)
      → (u ≡ panics → ⊥)
      → (t : Replay) × (enter_turn marshal unmarshal sign receipts mode fallback index text s u
          ≡ some (t, opened text u))
        × (t.messages ≡ s.messages)
  entered index text s panics sound = absurd (sound refl)
  entered index text s (returns metadata visible true) sound = (_, refl, refl)
  entered index text s (returns metadata visible false) sound = (_, refl, refl)

  enter-Adds :
      (index : ℕ) (m : HistoryMessage) (s : Replay)
      → IsSafe m
      → (t : Replay) × (enter marshal unmarshal sign receipts mode fallback index m s
          ≡ some (t, said marshal unmarshal sign m))
        × Adds s t []
  enter-Adds index m s safe = elim (Bool-cases (text_eq m.role (codes "user"))) [
    | inr other ↦ rw other (_, refl, Adds-none s _ refl)
    | inl user ↦
        let sound : unwrap_prompt marshal unmarshal sign m.text ≡ panics → ⊥ =
          λ panicked. cc (safe, (unwrap_prompt_panics marshal unmarshal sign m.text).0 panicked) in
        let (t, e, same) = entered index m.text (flush_receipts s) _ sound in
        rw user (
          t,
          e,
          Adds-then s (flush_receipts s) t [] [] (flush_receipts-Adds s) (Adds-none _ t same),
        )
  ]

  on_text_message-Gives :
      (index : ℕ) (m : HistoryMessage) (s : Replay)
      → IsSafe m
      → (m.role ≡ codes "user") ⊎ (m.role ≡ codes "assistant")
      → Gives s
          (on_text_message marshal unmarshal sign receipts mode fallback index m s)
          (seen m.role (strip_internal_markers (said marshal unmarshal sign m)))
  on_text_message-Gives index m s safe named =
      let (t, e, adds) = enter-Adds index m s safe in
      let (kept, stripped, _, clean) = strip_internal_markers-Cut (said marshal unmarshal sign m) in
      (
        show_content m.role (trim_space kept) t,
        rw (e, stripped) refl,
        rw stripped (
            Adds-then s t _ [] _ adds
              (show_content-Adds m.role (trim_space kept) t named (kept, refl, clean))),
      )

  replay_message-Gives :
      (index : ℕ) (m : HistoryMessage) (s : Replay)
      → IsSafe m
      → Gives s
          (replay_message marshal unmarshal sign receipts mode fallback index m s)
          (seen m.role (strip_internal_markers (said marshal unmarshal sign m)))
  unfolding replay_message
  replay_message-Gives index m s safe = elim (Bool-cases (text_eq m.role (codes "tool"))) [
    | inl tool ↦
        let role = text_eq→≡ m.role (codes "tool") tool in
        let silent : seen m.role (strip_internal_markers (said marshal unmarshal sign m)) ≡ [] =
          unseen m.role _ (rw role refl) (rw role refl) in
        rw (silent, tool)
          (
            on_tool_message marshal unmarshal sign receipts mode fallback m s,
            refl,
            if-Adds (is_empty s.turn_id || is_empty m.result || not (tool_allowed s.mode m.name)) s
                s _ [] (Adds-none s s refl) (take_receipts-Adds s (receipts m.result)),
          )
    | inr other ↦
        rw other
          (spoken_to (text_eq m.role (codes "user")) (text_eq m.role (codes "assistant")) refl refl)
  ]
    where
      spoken_to :
          (user assistant : Bool)
          → text_eq m.role (codes "user") ≡ user
          → text_eq m.role (codes "assistant") ≡ assistant
          → Gives s
              (if user || assistant
                then on_text_message marshal unmarshal sign receipts mode fallback index m s
                else some s)
              (seen m.role (strip_internal_markers (said marshal unmarshal sign m)))
      spoken_to true assistant e f =
          on_text_message-Gives index m s safe (inl (text_eq→≡ m.role (codes "user") e))
      spoken_to false true e f =
          on_text_message-Gives index m s safe (inr (text_eq→≡ m.role (codes "assistant") f))
      spoken_to false false e f = (
        s,
        refl,
        rw (unseen m.role (strip_internal_markers (said marshal unmarshal sign m)) e f)
            (Adds-none s s refl),
      )

  replay_from-Gives :
      (index : ℕ) (history : List HistoryMessage) (s : Replay)
      → All IsSafe history
      → Gives s
          (replay_from marshal unmarshal sign receipts mode fallback index history s)
          (spoken marshal unmarshal sign history)
  unfolding replay_from
  replay_from-Gives index [] s safe = (s, refl, Adds-none s s refl)
  replay_from-Gives index (m ∷ rest) s safe =
      let (t, e, first) = replay_message-Gives index m s safe.0 in
      let (u, f, others) = replay_from-Gives (suc index) rest t safe.1 in
      (u, rw (e, f) refl, Adds-then s t u _ _ first others)

  -- The history of a session is shown unless a text starts with a start marker whose line the end
  -- marker's line follows at once. Every message that is shown is one of the user or of the
  -- assistant, is not blank and has no internal context left to cut. What the user and the
  -- assistant said is shown, in its order: each text of theirs, for a user's in a signed envelope
  -- the text inside it, less the internal contexts, unless that is blank.
  pub visible_history-IsShown :
      (history : List HistoryMessage)
      → All IsSafe history
      → (messages : List AssistantMessage) × (visible_history marshal unmarshal sign receipts mode
            fallback history
          ≡ some messages)
        × All IsShown messages
        × Embeds (spoken marshal unmarshal sign history) messages
  unfolding visible_history
  visible_history-IsShown history safe =
      let start = replay_start marshal unmarshal sign receipts mode fallback in
      let (s, e, replayed) = replay_from-Gives 0 history start safe in
      let all : Adds start (flush_receipts s) (spoken marshal unmarshal sign history) =
        subst (Adds start (flush_receipts s)) (append-nil _)
          (Adds-then start s (flush_receipts s) _ [] replayed (flush_receipts-Adds s)) in
      (
        (flush_receipts s).messages,
        rw e refl,
        subst (All IsShown) (sym all.grown) all.shown,
        subst (Embeds (spoken marshal unmarshal sign history)) (sym all.grown) all.embeds,
      )
