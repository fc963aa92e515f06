-- ===== src/Assistant/Replay/Shown.antt =====
-- What visibleHistory of backend/internal/app/assistant_runtime.go may show, and what it has to show.
pub mod Adds
pub mod Complete
use viki.Assistant.Filter.{internal_prompt_start, internal_prompt_end, strip_internal_markers}
use viki.Assistant.Filter.Strip.{Stripped}
use viki.Assistant.Handoff.{AssistantMessage}
use viki.Assistant.Prompt.{
  InternalPromptMetadata, Unwrapped, panics, returns, closing, unwrap_prompt,
}
use viki.Assistant.Replay.{HistoryMessage}
use viki.Prelude.{
  ◌≡◌, ◌⊎◌, inl, inr, Bool, true, false, not, ◌&&◌, ◌||◌, Option, none, some, List, [], ◌∷◌, ◌++◌,
  Text, codes, text_eq, has_prefix, trim_space, is_blank, if◌then◌else◌,
}

-- A text less its internal contexts: what is left when nothing more can be cut, without the white
-- space around it.
abbrev pub Cleaned : Text → Type 0
Cleaned content =
    (t : Text) × (content ≡ trim_space t) × Stripped internal_prompt_start internal_prompt_end t

-- A message of the user or the assistant that is not blank and shows no internal context
abbrev pub IsShown : AssistantMessage → Type 0
IsShown m =
    ((m.role ≡ codes "user") ⊎ (m.role ≡ codes "assistant"))
    × (is_blank m.content ≡ false)
    × Cleaned m.content

-- The messages have these roles and contents, in this order, with other messages between them.
abbrev pub Embeds : List (Text × Text) → List AssistantMessage → Type 0
Embeds [] ms = Unit
Embeds (x ∷ xs) [] = ⊥
Embeds (x ∷ xs) (m ∷ ms) = ((m.role ≡ x.0) × (m.content ≡ x.1) × Embeds xs ms) ⊎ Embeds (x ∷ xs) ms

Embeds-cons :
    (xs : List (Text × Text)) (m : AssistantMessage) (ms : List AssistantMessage)
    → Embeds xs ms
    → Embeds xs (m ∷ ms)
Embeds-cons [] m ms h = tt
Embeds-cons (x ∷ xs) m ms h = inr h

pub Embeds-append :
    (xs ys : List (Text × Text)) (ms ns : List AssistantMessage)
    → Embeds xs ms
    → Embeds ys ns
    → Embeds (xs ++ ys) (ms ++ ns)
Embeds-append [] ys [] ns h g = g
Embeds-append [] ys (m ∷ ms) ns h g = Embeds-cons ys m (ms ++ ns) (Embeds-append [] ys ms ns tt g)
Embeds-append (x ∷ xs) ys [] ns h g = absurd h
Embeds-append (x ∷ xs) ys (m ∷ ms) ns (inl (r, c, h)) g = inl (r, c, Embeds-append xs ys ms ns h g)
Embeds-append (x ∷ xs) ys (m ∷ ms) ns (inr h) g = inr (Embeds-append (x ∷ xs) ys ms ns h g)

-- The envelope of the text is not one at which unwrapPrompt panics.
abbrev pub IsSafe : HistoryMessage → Type 0
IsSafe m = has_prefix m.text (internal_prompt_start ++ closing) ≡ false

-- What people see of a message with this role, given its text less the internal contexts
abbrev pub seen : Text → Option Text → List (Text × Text)
seen role none = []
seen role (some content) =
    if (text_eq role (codes "user") || text_eq role (codes "assistant")) && not (is_blank content)
    then (role, content) ∷ []
    else []

-- The text in an envelope that the runtime signed
abbrev pub opened : Text → Unwrapped → Text
opened text panics = text
opened text (returns metadata visible true) = visible
opened text (returns metadata visible false) = text

module _ (marshal : InternalPromptMetadata → Text)
    (unmarshal : Text → Option InternalPromptMetadata) (sign : Text → Text) where
  abbrev pub said : HistoryMessage → Text
  said m =
      if text_eq m.role (codes "user")
      then opened m.text (unwrap_prompt marshal unmarshal sign m.text)
      else m.text

  -- What the user and the assistant said in this history
  abbrev pub spoken : List HistoryMessage → List (Text × Text)
  spoken [] = []
  spoken (m ∷ rest) = seen m.role (strip_internal_markers (said m)) ++ spoken rest
