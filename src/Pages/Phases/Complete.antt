-- ===== src/Pages/Phases/Complete.antt =====
-- The other direction: filled steps whose keywords make a scenario are accepted.
use viki.Prelude.{
  ℕ, ◌+◌, ◌≤◌, ◌≡◌, refl, ap, ◌∙◌, ◌↔◌, true, false, List, [], ◌∷◌, ◌++◌, All, ok, ◌>>=◌, length,
  length-append, ltb, arith,
}
use viki.Model.{
  Keyword, given, when, then_, and, but, other_keyword, context, action, outcome, Step, StepRole,
}
use viki.Pages.{scan_start, scan_keyword, scan_steps, require_phases, validate_bdd_steps}
use viki.Pages.Phases.{
  keywords, opens, continues, Continues, IsBlock, IsScenario, IsFilled, run, run_step, in_given,
  in_when, in_then, accepted-IsScenario,
}

module _ (index : ℕ) (rest : List Step) where
  keep_then :
      (k : Keyword)
      → continues outcome k ≡ true
      → (scan_keyword k in_then >>= run index rest) ≡ run index rest in_then
  unfolding scan_keyword
  keep_then given h = cc
  keep_then when h = cc
  keep_then then_ h = refl
  keep_then and h = refl
  keep_then but h = refl
  keep_then (other_keyword x) h = cc

  keep_when :
      (k : Keyword)
      → continues action k ≡ true
      → (scan_keyword k in_when >>= run index rest) ≡ run index rest in_when
  unfolding scan_keyword
  keep_when given h = cc
  keep_when when h = refl
  keep_when then_ h = cc
  keep_when and h = refl
  keep_when but h = refl
  keep_when (other_keyword x) h = cc

  keep_given :
      (k : Keyword)
      → continues context k ≡ true
      → (scan_keyword k in_given >>= run index rest) ≡ run index rest in_given
  unfolding scan_keyword
  keep_given given h = refl
  keep_given when h = cc
  keep_given then_ h = cc
  keep_given and h = refl
  keep_given but h = refl
  keep_given (other_keyword x) h = cc

  open_then :
      (k : Keyword)
      → opens outcome k ≡ true
      → (scan_keyword k in_when >>= run index rest) ≡ run index rest in_then
  unfolding scan_keyword
  open_then then_ h = refl
  open_then given h = cc
  open_then when h = cc
  open_then and h = cc
  open_then but h = cc
  open_then (other_keyword x) h = cc

  open_when :
      (k : Keyword)
      → opens action k ≡ true
      → (scan_keyword k in_given >>= run index rest) ≡ run index rest in_when
  unfolding scan_keyword
  open_when when h = refl
  open_when given h = cc
  open_when then_ h = cc
  open_when and h = cc
  open_when but h = cc
  open_when (other_keyword x) h = cc

  open_given :
      (k : Keyword)
      → opens context k ≡ true
      → (scan_keyword k scan_start >>= run index rest) ≡ run index rest in_given
  unfolding scan_keyword
  open_given given h = refl
  open_given when h = cc
  open_given then_ h = cc
  open_given and h = cc
  open_given but h = cc
  open_given (other_keyword x) h = cc

rest_then :
    (index : ℕ) (steps : List Step)
    → All IsFilled steps
    → Continues outcome (keywords steps)
    → run index steps in_then ≡ ok tt
unfolding run scan_steps require_phases
rest_then index [] f c = refl
rest_then index (s ∷ rest) f c =
    run_step index s rest in_then f.0
    ∙ keep_then (index + 1) rest s.keyword c.0
    ∙ rest_then (index + 1) rest f.1 c.1

rest_when :
    (index : ℕ) (steps : List Step) (w t : List Keyword)
    → All IsFilled steps
    → keywords steps ≡ w ++ t
    → Continues action w
    → IsBlock outcome t
    → run index steps in_when ≡ ok tt
rest_when index [] [] [] f e c b = elim b [ ]
rest_when index [] [] (k ∷ t) f e c b = cc
rest_when index [] (k ∷ w) t f e c b = cc
rest_when index (s ∷ rest) [] [] f e c b = elim b [ ]
rest_when index (s ∷ rest) [] (k ∷ t) f e c b =
    let same : s.keyword ≡ k = cc in
    let tail : keywords rest ≡ t = cc in
    run_step index s rest in_when f.0
    ∙ open_then (index + 1) rest s.keyword (rw same b.0)
    ∙ rest_then (index + 1) rest f.1 (rw tail b.1)
rest_when index (s ∷ rest) (k ∷ w) t f e c b =
    let same : s.keyword ≡ k = cc in
    let tail : keywords rest ≡ w ++ t = cc in
    run_step index s rest in_when f.0
    ∙ keep_when (index + 1) rest s.keyword (rw same c.0)
    ∙ rest_when (index + 1) rest w t f.1 tail c.1 b

rest_given :
    (index : ℕ) (steps : List Step) (g w t : List Keyword)
    → All IsFilled steps
    → keywords steps ≡ g ++ (w ++ t)
    → Continues context g
    → IsBlock action w
    → IsBlock outcome t
    → run index steps in_given ≡ ok tt
rest_given index [] [] [] t f e c b d = elim b [ ]
rest_given index [] [] (k ∷ w) t f e c b d = cc
rest_given index [] (k ∷ g) w t f e c b d = cc
rest_given index (s ∷ rest) [] [] t f e c b d = elim b [ ]
rest_given index (s ∷ rest) [] (k ∷ w) t f e c b d =
    let same : s.keyword ≡ k = cc in
    let tail : keywords rest ≡ w ++ t = cc in
    run_step index s rest in_given f.0
    ∙ open_when (index + 1) rest s.keyword (rw same b.0)
    ∙ rest_when (index + 1) rest w t f.1 tail b.1 d
rest_given index (s ∷ rest) (k ∷ g) w t f e c b d =
    let same : s.keyword ≡ k = cc in
    let tail : keywords rest ≡ g ++ (w ++ t) = cc in
    run_step index s rest in_given f.0
    ∙ keep_given (index + 1) rest s.keyword (rw same c.0)
    ∙ rest_given (index + 1) rest g w t f.1 tail c.1 b d

rest_start :
    (steps : List Step) (g w t : List Keyword)
    → All IsFilled steps
    → keywords steps ≡ g ++ (w ++ t)
    → IsBlock context g
    → IsBlock action w
    → IsBlock outcome t
    → run 0 steps scan_start ≡ ok tt
rest_start steps [] w t f e b c d = elim b [ ]
rest_start [] (k ∷ g) w t f e b c d = cc
rest_start (s ∷ rest) (k ∷ g) w t f e b c d =
    let same : s.keyword ≡ k = cc in
    let tail : keywords rest ≡ g ++ (w ++ t) = cc in
    run_step 0 s rest scan_start f.0
    ∙ open_given 1 rest s.keyword (rw same b.0)
    ∙ rest_given 1 rest g w t f.1 tail b.1 c d

length-keywords : (steps : List Step) → length (keywords steps) ≡ length steps
length-keywords [] = refl
length-keywords (s ∷ rest) = omega (arith, length-keywords rest)

block_nonempty : (r : StepRole) (ks : List Keyword) → IsBlock r ks → 1 ≤ length ks
block_nonempty r [] b = elim b [ ]
block_nonempty r (k ∷ ks) b = omega arith

scenario_length : (steps : List Step) → IsScenario (keywords steps) → ltb (length steps) 3 ≡ false
scenario_length steps s = ground (
  arith,
  length-keywords steps,
  ap length s.split,
  length-append s.givens (s.whens ++ s.thens),
  length-append s.whens s.thens,
  block_nonempty context s.givens s.givens_block,
  block_nonempty action s.whens s.whens_block,
  block_nonempty outcome s.thens s.thens_block,
)

complete :
    (steps : List Step)
    → All IsFilled steps
    → IsScenario (keywords steps)
    → validate_bdd_steps steps ≡ ok tt
unfolding validate_bdd_steps run
complete steps f s =
    rw (scenario_length steps s) (
      rest_start steps s.givens s.whens s.thens f s.split s.givens_block s.whens_block
        s.thens_block)

-- validateBDDSteps accepts the steps exactly when no step is empty and the keywords are a block of
-- context, a block of actions and a block of outcomes in this order, none of them empty.
pub accepted_iff :
    (steps : List Step)
    → (validate_bdd_steps steps ≡ ok tt) ↔ (All IsFilled steps × IsScenario (keywords steps))
accepted_iff steps = (accepted-IsScenario steps, λ h. complete steps h.0 h.1)
