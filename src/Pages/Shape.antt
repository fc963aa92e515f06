-- ===== src/Pages/Shape.antt =====
-- validatePageInput against the hierarchy that the schema states (pages_hierarchy_check).
use viki.Prelude.{
  ◌≡◌, refl, ◌↔◌, false, Option, none, some, List, [], ◌∷◌, All, ok, ◌>>◌, is_blank, Bool, true,
  reject_if,
}
use viki.Model.{
  Uuid, PageKind, concept, feature, scenario, other_kind, ConceptKind, noun, verb, other_concept,
  Step, RevisionContent,
}
use viki.Pages.{InputError, validate_page_input, validate_kind}
use viki.Pages.Phases.{keywords, IsScenario, IsFilled}
use viki.Pages.Phases.Complete.{accepted_iff}

-- A concept is a noun or a verb at the top; a feature is plain and at the top; a scenario has a
-- parent, and its steps are filled and make a scenario. Only a scenario has steps.
abbrev pub HasShape : PageKind → Option ConceptKind → Option Uuid → List Step → Type 0
HasShape concept (some noun) none [] = Unit
HasShape concept (some verb) none [] = Unit
HasShape feature none none [] = Unit
HasShape scenario none (some p) steps = All IsFilled steps × IsScenario (keywords steps)
HasShape _ _ _ _ = ⊥

kind_accepted :
    (k : PageKind) (c : Option ConceptKind) (p : Option Uuid) (steps : List Step)
    → validate_kind k c p steps ≡ ok tt
    → HasShape k c p steps
unfolding validate_kind
kind_accepted concept none p steps h = cc
kind_accepted concept (some (other_concept x)) p steps h = cc
kind_accepted concept (some noun) (some p) steps h = cc
kind_accepted concept (some verb) (some p) steps h = cc
kind_accepted concept (some noun) none [] h = tt
kind_accepted concept (some verb) none [] h = tt
kind_accepted concept (some noun) none (s ∷ steps) h = cc
kind_accepted concept (some verb) none (s ∷ steps) h = cc
kind_accepted feature (some c) p steps h = cc
kind_accepted feature none (some p) steps h = cc
kind_accepted feature none none (s ∷ steps) h = cc
kind_accepted feature none none [] h = tt
kind_accepted scenario (some c) p steps h = cc
kind_accepted scenario none none steps h = cc
kind_accepted scenario none (some p) steps h = (accepted_iff steps).0 h
kind_accepted (other_kind x) c p steps h = cc

shape_accepted :
    (k : PageKind) (c : Option ConceptKind) (p : Option Uuid) (steps : List Step)
    → HasShape k c p steps
    → validate_kind k c p steps ≡ ok tt
unfolding validate_kind
shape_accepted concept none p steps h = elim h [ ]
shape_accepted concept (some (other_concept x)) p steps h = elim h [ ]
shape_accepted concept (some noun) (some p) steps h = elim h [ ]
shape_accepted concept (some verb) (some p) steps h = elim h [ ]
shape_accepted concept (some noun) none [] h = refl
shape_accepted concept (some verb) none [] h = refl
shape_accepted concept (some noun) none (s ∷ steps) h = elim h [ ]
shape_accepted concept (some verb) none (s ∷ steps) h = elim h [ ]
shape_accepted feature (some c) p steps h = elim h [ ]
shape_accepted feature none (some p) steps h = elim h [ ]
shape_accepted feature none none (s ∷ steps) h = elim h [ ]
shape_accepted feature none none [] h = refl
shape_accepted scenario (some c) p steps h = elim h [ ]
shape_accepted scenario none none steps h = elim h [ ]
shape_accepted scenario none (some p) steps h = (accepted_iff steps).1 h
shape_accepted (other_kind x) c p steps h = elim h [ ]

-- validatePageInput accepts exactly the inputs whose title is not blank and whose kind, concept
-- kind, parent and steps have the shape of the schema.
pub validate_page_input_iff :
    (k : PageKind) (c : Option ConceptKind) (p : Option Uuid) (content : RevisionContent)
    → (validate_page_input k c p content ≡ ok tt)
      ↔ ((is_blank content.title ≡ false) × HasShape k c p content.steps)
unfolding validate_page_input
validate_page_input_iff k c p content =
    (λ h. go (is_blank content.title) h, λ h. rw h.0 (shape_accepted k c p content.steps h.1))
  where
    go :
        (b : Bool)
        → (reject_if b InputError.title_required >> validate_kind k c p content.steps) ≡ ok tt
        → (b ≡ false) × HasShape k c p content.steps
    go true h = cc
    go false h = (refl, kind_accepted k c p content.steps h)
