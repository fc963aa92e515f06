-- ===== src/Assistant/Turns/Reconciled.antt =====
-- reconcileProfile of backend/internal/app/assistant_runtime.go keeps the maps of active turns
-- consistent: each turn of its snapshot is still active when its time comes.
use viki.Assistant.State.{AssistantTurn, AssistantRuntime}
use viki.Assistant.Turns.Active.{Holds, IsConsistent}
use viki.Assistant.Turns.Reconcile.{Resumption, reconcile_turn, forget_sessions}
use viki.Prelude.{ℕ, ◌≡◌, true, false, some, List, Text, lookup, find_key, text_eq}
use viki.Tools.{AssistantMode}
use viki.Assistant.Turns.Active.{same_turn}
use viki.Assistant.Turns.Reconcile.{
  has_mode, turns_of, reconcile_found, reconcile_turns, reconcile_profile,
}
use viki.Assistant.Turns.Sessions.{same_mode}
use mathlib.Core.Path.{subst}
use viki.Prelude.{
  [], sym, refl, inl, inr, ◌∷◌, All, pairs, DistinctKeys, pairs-DistinctKeys, pairs-find_key,
  Bool-cases, text_eq_refl,
}
use viki.Tools.{qa, edit}
use viki.Assistant.Turns.Resumed.{reconcile_turn-IsConsistent, reconcile_turn_other}

-- The turns that are still to be reconciled are active, for their conversations and in the mode.
abbrev Pending : AssistantMode → AssistantRuntime → Text × ℕ → Type 0
Pending mode r p =
    (turn : AssistantTurn) × Holds r p.1 turn × (turn.conversation_id ≡ p.0) × (turn.mode ≡ mode)

others_Pending :
    (mode : AssistantMode) (answers : Resumption) (k : Text) (t : ℕ) (turn : AssistantTurn)
    (r : AssistantRuntime) (rest : List (Text × ℕ))
    → IsConsistent r
    → Holds r t turn
    → turn.conversation_id ≡ k
    → All (λ (p : Text × ℕ). text_eq k p.0 ≡ false) rest
    → All (Pending mode r) rest
    → All (Pending mode (reconcile_turn turn.mode answers t turn r)) rest
others_Pending mode answers k t turn r [] c h own apart pending = tt
others_Pending mode answers k t turn r ((j, s) ∷ rest) c h own apart pending =
    let (u, held, key, in_mode) = pending.0 in
    let other : s ≡ t → ⊥ = λ same.
      let one = same_turn r t u turn (rw same at held.stored) h.stored in
      cc (own, key, one, apart.0, text_eq_refl k) in
    (
      (u, reconcile_turn_other s u t other answers turn r c h held, key, in_mode),
      others_Pending mode answers k t turn r rest c h own apart.1 pending.1,
    )

reconcile_turns-IsConsistent :
    (mode : AssistantMode) (answers : ℕ → Resumption) (ps : List (Text × ℕ)) (r : AssistantRuntime)
    → DistinctKeys ps
    → All (Pending mode r) ps
    → IsConsistent r
    → IsConsistent (reconcile_turns mode answers ps r)
unfolding reconcile_turns
reconcile_turns-IsConsistent mode answers [] r distinct pending c = c
reconcile_turns-IsConsistent mode answers ((k, t) ∷ rest) r distinct pending c =
    let (turn, h, own, in_mode) = pending.0 in
    let next = reconcile_turn turn.mode (answers t) t turn r in
    let step : reconcile_found mode (answers t) t (lookup t r.turns) r ≡ next =
      rw (h.stored, in_mode) refl in
    subst (λ (x : AssistantRuntime). IsConsistent (reconcile_turns mode answers rest x)) (sym step)
      (reconcile_turns-IsConsistent mode answers rest next distinct.1
        (others_Pending mode (answers t) k t turn r rest c h own distinct.0 pending.1)
        (reconcile_turn-IsConsistent (answers t) t turn r h c))

same_mode→≡ : (a b : AssistantMode) → same_mode a b ≡ true → a ≡ b
same_mode→≡ qa qa h = refl
same_mode→≡ edit edit h = refl
same_mode→≡ qa edit h = cc
same_mode→≡ edit qa h = cc

turns_of-Pending :
    (mode : AssistantMode) (r : AssistantRuntime) (ps : List (Text × ℕ))
    → IsConsistent r
    → All (λ (p : Text × ℕ). find_key p.0 r.active_by_conversation ≡ some p.1) ps
    → All (Pending mode r) (turns_of mode r ps)
unfolding turns_of
turns_of-Pending mode r [] c found = tt
turns_of-Pending mode r ((k, t) ∷ rest) c found =
    let (turn, h, own) = c.by_conversation k t found.0 in
    elim (Bool-cases (same_mode turn.mode mode)) [
      | inl in_mode ↦
          rw (h.stored, in_mode)
            (
              (turn, h, own, same_mode→≡ turn.mode mode in_mode),
              turns_of-Pending mode r rest c found.1,
            )
      | inr other ↦ rw (h.stored, other) (turns_of-Pending mode r rest c found.1)
    ]

turns_of-apart :
    (mode : AssistantMode) (r : AssistantRuntime) (k : Text) (ps : List (Text × ℕ))
    → All (λ (p : Text × ℕ). text_eq k p.0 ≡ false) ps
    → All (λ (p : Text × ℕ). text_eq k p.0 ≡ false) (turns_of mode r ps)
unfolding turns_of
turns_of-apart mode r k [] h = tt
turns_of-apart mode r k ((j, t) ∷ rest) h = elim (Bool-cases (has_mode mode (lookup t r.turns))) [
  | inl chosen ↦ rw chosen (h.0, turns_of-apart mode r k rest h.1)
  | inr left ↦ rw left (turns_of-apart mode r k rest h.1)
]

turns_of-DistinctKeys :
    (mode : AssistantMode) (r : AssistantRuntime) (ps : List (Text × ℕ))
    → DistinctKeys ps
    → DistinctKeys (turns_of mode r ps)
unfolding turns_of
turns_of-DistinctKeys mode r [] h = tt
turns_of-DistinctKeys mode r ((k, t) ∷ rest) h =
    elim (Bool-cases (has_mode mode (lookup t r.turns))) [
      | inl chosen ↦
          rw chosen (turns_of-apart mode r k rest h.0, turns_of-DistinctKeys mode r rest h.1)
      | inr left ↦ rw left (turns_of-DistinctKeys mode r rest h.1)
    ]

pub reconcile_profile-IsConsistent :
    (mode : AssistantMode) (answers : ℕ → Resumption) (r : AssistantRuntime)
    → IsConsistent r
    → IsConsistent (reconcile_profile mode answers r)
unfolding reconcile_profile
reconcile_profile-IsConsistent mode answers r c =
    let conversations = r.active_by_conversation in
    let snapshot = turns_of mode r (pairs conversations) in
    reconcile_turns-IsConsistent mode answers snapshot (forget_sessions mode r)
      (turns_of-DistinctKeys mode r (pairs conversations) (pairs-DistinctKeys conversations))
      (turns_of-Pending mode r (pairs conversations) c (pairs-find_key conversations)) c
