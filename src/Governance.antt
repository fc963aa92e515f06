-- ===== src/Governance.antt =====
-- backend/internal/governance/policy.go: when a revision may be approved.
use viki.Prelude.{
  ◌≡◌, refl, ◌↔◌, Bool, true, false, List, [], ◌∷◌, All, Text, is_blank, Result, ok, err,
  if◌then◌else◌,
}
use viki.Model.{Uuid}

pub data PolicyError : Type 0 where
  objection_reason_required unresolved_objection parent_feature_not_approved : PolicyError

pub record ObjectionState : Type 0 where
  pub id : Uuid
  pub resolved : Bool

unfoldable pub validate_objection_reason : Text → Result PolicyError (Unit {0})
validate_objection_reason reason = if is_blank reason then err objection_reason_required else ok tt

unfoldable pub can_approve : List ObjectionState → Result PolicyError (Unit {0})
can_approve [] = ok tt
can_approve (o ∷ rest) =
    let after = can_approve rest in if o.resolved then after else err unresolved_objection

-- Approval is possible exactly when every objection is resolved.
pub can_approve_iff :
    (objections : List ObjectionState)
    → (can_approve objections ≡ ok tt) ↔ All (λ o. o.resolved ≡ true) objections
unfolding can_approve
can_approve_iff [] = (λ _. tt, λ _. refl)
can_approve_iff (o ∷ rest) =
    (λ h. go o.resolved (can_approve_iff rest).0 h, λ h. rw h.0 ((can_approve_iff rest).1 h.1))
  where
    go :
        (b : Bool)
        → (can_approve rest ≡ ok tt → All (λ p. p.resolved ≡ true) rest)
        → (if b then can_approve rest else err unresolved_objection) ≡ ok tt
        → (b ≡ true) × All (λ p. p.resolved ≡ true) rest
    go true ih h = (refl, ih h)
    go false ih h = cc
