-- ===== src/Pages/Phases/Roles.antt =====
-- The role that stepRole gives to each step of an accepted scenario: that of its block.
use viki.Prelude.{◌≡◌, refl, sym, ap, ◌∙◌, true, List, [], ◌∷◌, ◌++◌}
use mathlib.Core.List.{append-nil}
use viki.Model.{
  Keyword, given, when, then_, and, but, other_keyword, StepRole, context, action, outcome, Step,
}
use viki.Pages.{role_of, step_roles}
use viki.Pages.Phases.{keywords, opens, continues, Continues, IsBlock, IsScenario}

-- One role for each keyword of a block.
abbrev pub fill : StepRole → List Keyword → List StepRole
fill r [] = []
fill r (_ ∷ ks) = r ∷ fill r ks

role_opens :
    (r : StepRole) (k : Keyword) (before : List Keyword)
    → opens r k ≡ true
    → role_of (k ∷ before) ≡ r
unfolding role_of
role_opens context given before h = refl
role_opens action when before h = refl
role_opens outcome then_ before h = refl
role_opens _ _ before h = cc

role_continues :
    (r : StepRole) (k : Keyword) (before : List Keyword)
    → continues r k ≡ true
    → role_of before ≡ r
    → role_of (k ∷ before) ≡ r
unfolding role_of
role_continues r and before h e = e
role_continues r but before h e = e
role_continues r given before h e = role_opens r given before h
role_continues r when before h e = role_opens r when before h
role_continues r then_ before h e = role_opens r then_ before h
role_continues r (other_keyword x) before h e = role_opens r (other_keyword x) before h

-- The roles of the steps from inside a block on, `more` being the roles of the blocks after it.
within :
    (r : StepRole) (before : List Keyword) (steps : List Step) (ks rest : List Keyword)
    (more : List StepRole)
    → role_of before ≡ r
    → keywords steps ≡ ks ++ rest
    → Continues r ks
    → ((before' : List Keyword) (steps' : List Step)
        → role_of before' ≡ r
        → keywords steps' ≡ rest
        → step_roles before' steps' ≡ more)
    → step_roles before steps ≡ fill r ks ++ more
unfolding step_roles
within r before steps [] rest more e split c next = next before steps e split
within r before [] (k ∷ ks) rest more e split c next = cc
within r before (s ∷ steps) (k ∷ ks) rest more e split c next =
    let same : s.keyword ≡ k = cc in
    let tail : keywords steps ≡ ks ++ rest = cc in
    let role : role_of (s.keyword ∷ before) ≡ r =
      role_continues r s.keyword before (rw same c.0) e in
    rw role
      (ap (λ rs. r ∷ rs) (within r (s.keyword ∷ before) steps ks rest more role tail c.1 next))

block :
    (r : StepRole) (before : List Keyword) (steps : List Step) (ks rest : List Keyword)
    (more : List StepRole)
    → keywords steps ≡ ks ++ rest
    → IsBlock r ks
    → ((before' : List Keyword) (steps' : List Step)
        → role_of before' ≡ r
        → keywords steps' ≡ rest
        → step_roles before' steps' ≡ more)
    → step_roles before steps ≡ fill r ks ++ more
unfolding step_roles
block r before steps [] rest more split b next = elim b [ ]
block r before [] (k ∷ ks) rest more split b next = cc
block r before (s ∷ steps) (k ∷ ks) rest more split b next =
    let same : s.keyword ≡ k = cc in
    let tail : keywords steps ≡ ks ++ rest = cc in
    let role : role_of (s.keyword ∷ before) ≡ r = role_opens r s.keyword before (rw same b.0) in
    rw role
      (ap (λ rs. r ∷ rs) (within r (s.keyword ∷ before) steps ks rest more role tail b.1 next))

no_steps :
    (before : List Keyword) (steps : List Step) → keywords steps ≡ [] → step_roles before steps ≡ []
unfolding step_roles
no_steps before [] e = refl
no_steps before (s ∷ steps) e = cc

-- The roles that stepRole gives to the steps of a scenario: context for each step of the block of
-- context, action for each of the block of actions, outcome for each of the block of outcomes.
pub roles-IsScenario :
    (steps : List Step) (s : IsScenario (keywords steps))
    → step_roles [] steps ≡ fill context s.givens ++ (fill action s.whens ++ fill outcome s.thens)
roles-IsScenario steps s =
    block context [] steps s.givens (s.whens ++ s.thens) _ s.split s.givens_block λ b1 steps1 e1 k1.
      block action b1 steps1 s.whens s.thens _ k1 s.whens_block λ b2 steps2 e2 k2.
        block outcome b2 steps2 s.thens [] [] (k2 ∙ sym (append-nil s.thens)) s.thens_block
          (λ b3 steps3 e3 k3. no_steps b3 steps3 k3)
        ∙ append-nil (fill outcome s.thens)
