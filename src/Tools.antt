-- ===== src/Tools.antt =====
-- The tools that the assistant may call and what people see of a call: toolAllowed, toolActivityLabel,
-- toolActivityState and assistantSessionKey of backend/internal/app/assistant_runtime.go.
use viki.Prelude.{
  ℕ, ◌≡◌, refl, sym, ap, Bool, true, false, ◌||◌, ◌++◌, [], ◌∷◌, Text, codes, text_eq,
  if◌then◌else◌, arith,
}

pub data AssistantMode : Type 0 where
  qa edit : AssistantMode

abbrev is_edit : AssistantMode → Bool
is_edit qa = false
is_edit edit = true

-- What a tool does, or nothing known.
pub data ToolKind : Type 0 where
  searching reading drafting other_tool : ToolKind

-- The switch on the tool's name.
unfoldable pub tool_kind : Text → ToolKind
tool_kind name =
    if text_eq name (codes "search_viki")
    then searching
    else if text_eq name (codes "get_viki_page") || text_eq name (codes "get_viki_revision")
    then reading
    else if text_eq name (codes "apply_viki_draft_changeset")
    then drafting
    else other_tool

abbrev kind_allowed : AssistantMode → ToolKind → Bool
kind_allowed mode searching = true
kind_allowed mode reading = true
kind_allowed mode drafting = is_edit mode
kind_allowed mode other_tool = false

unfoldable pub tool_allowed : AssistantMode → Text → Bool
tool_allowed mode name = kind_allowed mode (tool_kind name)

abbrev kind_label : ToolKind → Text
kind_label searching = codes "Hľadám vo viki…"
kind_label reading = codes "Čítam podklady vo viki…"
kind_label drafting = codes "Vytváram drafty vo viki…"
kind_label other_tool = codes "Pracujem s viki…"

unfoldable pub tool_activity_label : Text → Text
tool_activity_label name = kind_label (tool_kind name)

abbrev kind_state : ToolKind → Bool → Text
kind_state searching true = codes "searched"
kind_state searching false = codes "searching"
kind_state reading true = codes "read"
kind_state reading false = codes "reading"
kind_state drafting true = codes "drafted"
kind_state drafting false = codes "drafting"
kind_state other_tool completed = codes "working"

unfoldable pub tool_activity_state : Text → Text → Text
tool_activity_state name event_type =
    kind_state (tool_kind name) (text_eq event_type (codes "tool.complete"))

abbrev pub mode_name : AssistantMode → Text
mode_name qa = codes "qa"
mode_name edit = codes "edit"

unfoldable pub assistant_session_key : AssistantMode → Text → Text
assistant_session_key mode id = mode_name mode ++ (0 ∷ id)

abbrev first : Text → ℕ
first [] = 0
first (c ∷ _) = c

first_differs : ◌≡◌ {A = ℕ} 113 101 → ⊥
first_differs h = omega arith

-- Two sessions with the same key have the same mode and the same identifier.
pub assistant_session_key-injective :
    (m n : AssistantMode) (a b : Text)
    → assistant_session_key m a ≡ assistant_session_key n b
    → (m ≡ n) × (a ≡ b)
unfolding assistant_session_key
assistant_session_key-injective qa qa a b h = (refl, cc)
assistant_session_key-injective edit edit a b h = (refl, cc)
assistant_session_key-injective qa edit a b h = absurd (first_differs (ap first h))
assistant_session_key-injective edit qa a b h = absurd (first_differs (sym (ap first h)))
