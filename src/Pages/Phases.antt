-- ===== src/Pages/Phases.antt =====
-- validateBDDSteps against the grammar that it means: a block of context, a block of actions and a
-- block of outcomes, each opened by its own keyword and continued by that keyword, And or But.
pub mod Complete
pub mod Roles
use viki.Prelude.{
  ℕ, ◌+◌, ◌≡◌, refl, sym, ap, ◌∙◌, ◌⊎◌, inl, inr, Bool, true, false, List, [], ◌∷◌, ◌++◌, All,
  Result, ok, err, ◌>>=◌, Bool-cases, length, ltb,
}
use viki.Model.{
  Keyword, given, when, then_, and, but, other_keyword, StepRole, context, action, outcome, Step,
}
use viki.Pages.{
  InputError, Scan, scan_start, is_empty_step, scan_keyword, scan_step, scan_steps, require_phases,
  validate_bdd_steps,
}

abbrev pub keywords : List Step → List Keyword
keywords [] = []
keywords (s ∷ rest) = s.keyword ∷ keywords rest

-- The keyword that opens a block of a role.
abbrev pub opens : StepRole → Keyword → Bool
opens context given = true
opens action when = true
opens outcome then_ = true
opens _ _ = false

abbrev pub continues : StepRole → Keyword → Bool
continues r and = true
continues r but = true
continues r k = opens r k

abbrev pub Continues : StepRole → List Keyword → Type 0
Continues r = All (λ k. continues r k ≡ true)

abbrev pub IsBlock : StepRole → List Keyword → Type 0
IsBlock r [] = ⊥
IsBlock r (k ∷ ks) = (opens r k ≡ true) × Continues r ks

pub record IsScenario (ks : List Keyword) : Type 0 where
  pub givens : List Keyword
  pub whens : List Keyword
  pub thens : List Keyword
  pub split : ks ≡ givens ++ (whens ++ thens)
  pub givens_block : IsBlock context givens
  pub whens_block : IsBlock action whens
  pub thens_block : IsBlock outcome thens

abbrev pub IsFilled : Step → Type 0
IsFilled s = is_empty_step s ≡ false

-- The loop with its final test.
run : ℕ → List Step → Scan → Result InputError (Unit {0})
run index steps v = scan_steps index steps v >>= require_phases

run_step :
    (index : ℕ) (s : Step) (rest : List Step) (v : Scan)
    → IsFilled s
    → run index (s ∷ rest) v ≡ (scan_keyword s.keyword v >>= run (index + 1) rest)
unfolding run scan_steps scan_step
run_step index s rest v h = rw h (go (scan_keyword s.keyword v))
  where
    go :
        (m : Result InputError Scan)
        → ((m >>= scan_steps (index + 1) rest) >>= require_phases)
          ≡ (m >>= λ u. scan_steps (index + 1) rest u >>= require_phases)
    go (ok u) = refl
    go (err e) = refl

run-IsFilled :
    (index : ℕ) (s : Step) (rest : List Step) (v : Scan)
    → run index (s ∷ rest) v ≡ ok tt
    → IsFilled s
unfolding run scan_steps scan_step
run-IsFilled index s rest v h = elim (Bool-cases (is_empty_step s)) [
  | inl e ↦ cc (rw e at h)
  | inr e ↦ e
]

abbrev in_given : Scan
in_given = record { phase = 1; has_given = true; has_when = false; has_then = false }

abbrev in_when : Scan
in_when = record { phase = 2; has_given = true; has_when = true; has_then = false }

abbrev in_then : Scan
in_then = record { phase = 3; has_given = true; has_when = true; has_then = true }

-- One step of a run that is accepted: the step is filled, and its keyword is accepted.
step_accepted :
    (index : ℕ) (s : Step) (rest : List Step) (v : Scan)
    → run index (s ∷ rest) v ≡ ok tt
    → IsFilled s × ((scan_keyword s.keyword v >>= run (index + 1) rest) ≡ ok tt)
step_accepted index s rest v h =
    let filled = run-IsFilled index s rest v h in (filled, sym (run_step index s rest v filled) ∙ h)

module _ (index : ℕ) (rest : List Step) where
  then_keyword :
      (k : Keyword)
      → (scan_keyword k in_then >>= run index rest) ≡ ok tt
      → (continues outcome k ≡ true) × (run index rest in_then ≡ ok tt)
  unfolding scan_keyword
  then_keyword given h = cc
  then_keyword when h = cc
  then_keyword then_ h = (refl, h)
  then_keyword and h = (refl, h)
  then_keyword but h = (refl, h)
  then_keyword (other_keyword x) h = cc

  when_keyword :
      (k : Keyword)
      → (scan_keyword k in_when >>= run index rest) ≡ ok tt
      → (continues action k ≡ true) × (run index rest in_when ≡ ok tt)
        ⊎ (opens outcome k ≡ true) × (run index rest in_then ≡ ok tt)
  unfolding scan_keyword
  when_keyword given h = cc
  when_keyword when h = inl (refl, h)
  when_keyword then_ h = inr (refl, h)
  when_keyword and h = inl (refl, h)
  when_keyword but h = inl (refl, h)
  when_keyword (other_keyword x) h = cc

  given_keyword :
      (k : Keyword)
      → (scan_keyword k in_given >>= run index rest) ≡ ok tt
      → (continues context k ≡ true) × (run index rest in_given ≡ ok tt)
        ⊎ (opens action k ≡ true) × (run index rest in_when ≡ ok tt)
  unfolding scan_keyword
  given_keyword given h = inl (refl, h)
  given_keyword when h = inr (refl, h)
  given_keyword then_ h = cc
  given_keyword and h = inl (refl, h)
  given_keyword but h = inl (refl, h)
  given_keyword (other_keyword x) h = cc

  start_keyword :
      (k : Keyword)
      → (scan_keyword k scan_start >>= run index rest) ≡ ok tt
      → (opens context k ≡ true) × (run index rest in_given ≡ ok tt)
  unfolding scan_keyword
  start_keyword given h = (refl, h)
  start_keyword when h = cc
  start_keyword then_ h = cc
  start_keyword and h = cc
  start_keyword but h = cc
  start_keyword (other_keyword x) h = cc

-- The steps from inside a block of outcomes on, then of actions, then of context.
from_then :
    (index : ℕ) (steps : List Step)
    → run index steps in_then ≡ ok tt
    → All IsFilled steps × Continues outcome (keywords steps)
from_then index [] h = (tt, tt)
from_then index (s ∷ rest) h =
    let (filled, h1) = step_accepted index s rest in_then h in
    let (k, h2) = then_keyword (index + 1) rest s.keyword h1 in
    let (fs, ks) = from_then (index + 1) rest h2 in ((filled, fs), (k, ks))

record AfterGiven (steps : List Step) : Type 0 where
  filled : All IsFilled steps
  givens : List Keyword
  whens : List Keyword
  thens : List Keyword
  split : keywords steps ≡ givens ++ (whens ++ thens)
  givens_rest : Continues context givens
  whens_block : IsBlock action whens
  thens_block : IsBlock outcome thens

record AfterWhen (steps : List Step) : Type 0 where
  filled : All IsFilled steps
  whens : List Keyword
  thens : List Keyword
  split : keywords steps ≡ whens ++ thens
  whens_rest : Continues action whens
  thens_block : IsBlock outcome thens

from_when : (index : ℕ) (steps : List Step) → run index steps in_when ≡ ok tt → AfterWhen steps
unfolding run scan_steps require_phases
from_when index [] h = cc
from_when index (s ∷ rest) h =
    let (filled, h1) = step_accepted index s rest in_when h in
    elim (when_keyword (index + 1) rest s.keyword h1) [
      | inl (k, h2) ↦
          let r = from_when (index + 1) rest h2 in
          record {
            filled = (filled, r.filled);
            whens = s.keyword ∷ r.whens;
            thens = r.thens;
            split = ap (λ ks. s.keyword ∷ ks) r.split;
            whens_rest = (k, r.whens_rest);
            thens_block = r.thens_block;
          }
      | inr (k, h2) ↦
          let (fs, ks) = from_then (index + 1) rest h2 in
          record {
            filled = (filled, fs);
            whens = [];
            thens = s.keyword ∷ keywords rest;
            split = refl;
            whens_rest = tt;
            thens_block = (k, ks);
          }
    ]

from_given : (index : ℕ) (steps : List Step) → run index steps in_given ≡ ok tt → AfterGiven steps
unfolding run scan_steps require_phases
from_given index [] h = cc
from_given index (s ∷ rest) h =
    let (filled, h1) = step_accepted index s rest in_given h in
    elim (given_keyword (index + 1) rest s.keyword h1) [
      | inl (k, h2) ↦
          let r = from_given (index + 1) rest h2 in
          record {
            filled = (filled, r.filled);
            givens = s.keyword ∷ r.givens;
            whens = r.whens;
            thens = r.thens;
            split = ap (λ ks. s.keyword ∷ ks) r.split;
            givens_rest = (k, r.givens_rest);
            whens_block = r.whens_block;
            thens_block = r.thens_block;
          }
      | inr (k, h2) ↦
          let r = from_when (index + 1) rest h2 in
          record {
            filled = (filled, r.filled);
            givens = [];
            whens = s.keyword ∷ r.whens;
            thens = r.thens;
            split = ap (λ ks. s.keyword ∷ ks) r.split;
            givens_rest = tt;
            whens_block = (k, r.whens_rest);
            thens_block = r.thens_block;
          }
    ]

accepted_scan :
    (steps : List Step) → validate_bdd_steps steps ≡ ok tt → run 0 steps scan_start ≡ ok tt
unfolding validate_bdd_steps run
accepted_scan steps h = elim (Bool-cases (ltb (length steps) 3)) [
  | inl e ↦ cc (rw e at h)
  | inr e ↦ rw e at h
]

-- Steps that validateBDDSteps accepts are filled, and their keywords make a scenario.
pub accepted-IsScenario :
    (steps : List Step)
    → validate_bdd_steps steps ≡ ok tt
    → All IsFilled steps × IsScenario (keywords steps)
unfolding run scan_steps require_phases
accepted-IsScenario [] h = cc (accepted_scan [] h)
accepted-IsScenario (s ∷ rest) h =
    let (filled, h1) = step_accepted 0 s rest scan_start (accepted_scan (s ∷ rest) h) in
    let (k, h2) = start_keyword 1 rest s.keyword h1 in
    let r = from_given 1 rest h2 in
    (
      (filled, r.filled),
      record {
        givens = s.keyword ∷ r.givens;
        whens = r.whens;
        thens = r.thens;
        split = ap (λ ks. s.keyword ∷ ks) r.split;
        givens_block = (k, r.givens_rest);
        whens_block = r.whens_block;
        thens_block = r.thens_block;
      },
    )
