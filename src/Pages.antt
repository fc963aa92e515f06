-- ===== src/Pages.antt =====
-- The rules of a page's content: validatePageInput, validateBDDSteps and stepRole of
-- backend/internal/postgres/pages_write.go. The errors are the source's
-- values and messages, one constructor each; the number in a message is the step's position.
pub mod Phases
pub mod Shape
pub mod Slug
pub mod Render
use viki.Prelude.{
  ℕ, suc, ◌+◌, Bool, true, false, not, ◌&&◌, ◌||◌, Option, none, some, List, [], ◌∷◌, Result, ok,
  err, ◌>>=◌, ◌>>◌, reject_if, is_some, is_blank, length, ltb, leb, ◌==◌, if◌then◌else◌,
}
use viki.Model.{
  Uuid, PageKind, concept, feature, scenario, other_kind, ConceptKind, noun, verb, other_concept,
  Keyword, given, when, then_, and, but, other_keyword, StepRole, context, action, outcome, Step,
  RevisionContent,
}

pub data InputError : Type 0 where
  title_required invalid_hierarchy concept_has_steps invalid_kind : InputError
  steps_required given_order when_order then_order conjunction_first invalid_keyword : InputError
  empty_step : ℕ → InputError

-- The variables of the loop of validateBDDSteps.
pub record Scan : Type 0 where
  pub phase : ℕ
  pub has_given : Bool
  pub has_when : Bool
  pub has_then : Bool

abbrev pub scan_start : Scan
scan_start = record { phase = 0; has_given = false; has_when = false; has_then = false }

unfoldable pub is_empty_step : Step → Bool
is_empty_step s = not (is_some s.definition_id) && is_blank s.expression && is_blank s.text

-- The `switch step.Keyword` of the loop's body.
unfoldable pub scan_keyword : Keyword → Scan → Result InputError Scan
scan_keyword given v =
    if ltb 1 v.phase then err given_order else ok (record v { phase = 1; has_given = true })
scan_keyword when v =
    if not v.has_given || ltb 2 v.phase
    then err when_order
    else ok (record v { phase = 2; has_when = true })
scan_keyword then_ v =
    if not v.has_when then err then_order else ok (record v { phase = 3; has_then = true })
scan_keyword and v = if v.phase == 0 then err conjunction_first else ok v
scan_keyword but v = if v.phase == 0 then err conjunction_first else ok v
scan_keyword (other_keyword _) v = err invalid_keyword

unfoldable pub scan_step : ℕ → Step → Scan → Result InputError Scan
scan_step index s v =
    if is_empty_step s then err (empty_step (index + 1)) else scan_keyword s.keyword v

unfoldable pub scan_steps : ℕ → List Step → Scan → Result InputError Scan
scan_steps index [] v = ok v
scan_steps index (s ∷ rest) v = scan_step index s v >>= scan_steps (index + 1) rest

unfoldable pub require_phases : Scan → Result InputError (Unit {0})
require_phases v = reject_if (not v.has_given || not v.has_when || not v.has_then) steps_required

unfoldable pub validate_bdd_steps : List Step → Result InputError (Unit {0})
validate_bdd_steps steps =
    if ltb (length steps) 3
    then err steps_required
    else (scan_steps 0 steps scan_start >>= require_phases)

abbrev known_concept : Option ConceptKind → Bool
known_concept (some noun) = true
known_concept (some verb) = true
known_concept (some (other_concept _)) = false
known_concept none = false

abbrev has_steps : List Step → Bool
has_steps [] = false
has_steps (_ ∷ _) = true

-- The `switch kind`.
unfoldable pub validate_kind :
    PageKind → Option ConceptKind → Option Uuid → List Step → Result InputError (Unit {0})
validate_kind concept concept_kind parent steps = do
  reject_if (not (known_concept concept_kind) || is_some parent) invalid_hierarchy
  reject_if (has_steps steps) concept_has_steps
validate_kind feature concept_kind parent steps =
    reject_if (is_some concept_kind || is_some parent || has_steps steps) invalid_hierarchy
validate_kind scenario concept_kind parent steps = do
  reject_if (is_some concept_kind || not (is_some parent)) invalid_hierarchy
  validate_bdd_steps steps
validate_kind (other_kind _) concept_kind parent steps = err invalid_kind

unfoldable pub validate_page_input :
    PageKind → Option ConceptKind → Option Uuid → RevisionContent → Result InputError (Unit {0})
validate_page_input kind concept_kind parent content = do
  reject_if (is_blank content.title) title_required
  validate_kind kind concept_kind parent content.steps

-- stepRole walks back from the position to the nearest primary keyword. Here the keywords of the
-- steps at the position and before it come nearest first.
unfoldable pub role_of : List Keyword → StepRole
role_of [] = context
role_of (given ∷ _) = context
role_of (when ∷ _) = action
role_of (then_ ∷ _) = outcome
role_of (and ∷ before) = role_of before
role_of (but ∷ before) = role_of before
role_of (other_keyword _ ∷ before) = role_of before

-- The roles of all steps in order, `before` holding the keywords already passed.
unfoldable pub step_roles : List Keyword → List Step → List StepRole
step_roles before [] = []
step_roles before (s ∷ rest) = role_of (s.keyword ∷ before) ∷ step_roles (s.keyword ∷ before) rest
