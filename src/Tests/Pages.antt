-- ===== src/Tests/Pages.antt =====
-- The rules of backend/internal/postgres/pages_write.go and backend/internal/governance/policy.go on
-- concrete inputs.
use viki.Prelude.{
  ℕ, Bool, trim_space, trim_left, trim_right, is_space, ◌≡◌, refl, ◌↔◌, true, false, List, [], ◌∷◌,
  ◌++◌, none, some, Text, codes, All, is_blank, ok,
}
use viki.Model.{
  Keyword, given, when, then_, and, Step, context, action, outcome, scenario, RevisionContent,
}
use viki.Pages.{validate_bdd_steps, step_roles, validate_page_input}
use viki.Pages.Phases.{keywords, IsScenario, IsFilled}
use viki.Pages.Phases.Complete.{accepted_iff}
use viki.Pages.Phases.Roles.{fill, roles-IsScenario}
use viki.Pages.Shape.{HasShape, validate_page_input_iff}
use viki.Pages.Render.{
  render_step_expression, render_pieces, pieces, holes, has_brace, fill as fill_parameter,
  is_integer,
}
use viki.Pages.Render.Filled.{Filled, NoBrace, render_step_expression_iff}
use viki.Pages.Slug.{is_slug, is_slug_iff, join_words, AreWords}
use viki.Governance.{ObjectionState}

abbrev pub step : Keyword → Text → Step
step keyword text = record {
  stable_id = none;
  keyword = keyword;
  definition_id = none;
  expression = text;
  arguments = [];
  text = text;
}

abbrev pub sample_steps : List Step
sample_steps =
    step given (codes "a page")
    ∷ step when (codes "I edit")
    ∷ step and (codes "save")
    ∷ step then_ (codes "it is saved")
    ∷ []

abbrev pub sample_content : List Step → RevisionContent
sample_content steps = record {
  title = codes "Edit";
  body_md = codes "Text";
  steps = steps;
  references = [];
}

accepted_iff_example :
    (validate_bdd_steps sample_steps ≡ ok tt)
    ↔ (All IsFilled sample_steps × IsScenario (keywords sample_steps))
accepted_iff_example = accepted_iff sample_steps

abbrev sample_blocks : IsScenario (keywords sample_steps)
sample_blocks = record {
  givens = given ∷ [];
  whens = when ∷ and ∷ [];
  thens = then_ ∷ [];
  split = refl;
  givens_block = (refl, tt);
  whens_block = (refl, (refl, tt));
  thens_block = (refl, tt);
}

roles-IsScenario_example :
    step_roles [] sample_steps
    ≡ fill context (given ∷ []) ++ (fill action (when ∷ and ∷ []) ++ fill outcome (then_ ∷ []))
roles-IsScenario_example = roles-IsScenario sample_steps sample_blocks

validate_page_input_iff_example :
    (validate_page_input scenario none (some 0) (sample_content sample_steps) ≡ ok tt)
    ↔ ((is_blank (codes "Edit") ≡ false) × HasShape scenario none (some 0) sample_steps)
validate_page_input_iff_example =
    validate_page_input_iff scenario none (some 0) (sample_content sample_steps)

is_slug_iff_example :
    (is_slug (codes "edit-page") ≡ true)
    ↔ ((ws : List Text) × (codes "edit-page" ≡ join_words ws) × AreWords ws)
is_slug_iff_example = is_slug_iff (codes "edit-page")

abbrev sample_objections : List ObjectionState
sample_objections = record { id = 4; resolved = true } ∷ record { id = 5; resolved = false } ∷ []

abbrev no_prints : ℕ → Bool
no_prints _ = false

two_users :
    render_step_expression no_prints (codes "{int} users") (codes "2" ∷ []) ≡ ok (codes "2 users")
unfolding render_step_expression render_pieces pieces holes has_brace fill_parameter is_integer
    trim_space trim_left trim_right is_space
two_users = refl

render_step_expression_iff_example :
    (render_step_expression no_prints (codes "{int} users") (codes "2" ∷ []) ≡ ok (codes "2 users"))
    ↔ ((out : Text) × Filled no_prints (codes "{int} users") (codes "2" ∷ []) out
        × NoBrace out
        × (codes "2 users" ≡ trim_space out))
render_step_expression_iff_example =
    render_step_expression_iff no_prints (codes "{int} users") (codes "2" ∷ []) (codes "2 users")
