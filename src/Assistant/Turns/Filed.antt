-- ===== src/Assistant/Turns/Filed.antt =====
-- How a pointer is filed under the key of its turn when turns change or pointers are added, in the
-- maps of assistantRuntime in backend/internal/app/assistant_runtime.go.
use mathlib.Core.Path.{subst}
use viki.Assistant.State.{AssistantTurn}
use viki.Assistant.Turns.Active.{Held, Filed, differs}
use viki.Prelude.{
  ℕ, ◌≡◌, ap, ◌∙◌, false, some, List, Text, Table, adjust, lookup-adjust, find_key, put_key,
  find_key-put_key, text_eq, text_eq→≡, Bool-cases, inl, inr, ◌==◌, arith,
}

module _ (t : ℕ) (f : AssistantTurn → AssistantTurn) (turns : Table AssistantTurn)
    (conversations : List (Text × ℕ))
    (same_finalized : (turn : AssistantTurn) → (f turn).finalized ≡ turn.finalized)
    (same_conversation : (turn : AssistantTurn)
      → (f turn).conversation_id ≡ turn.conversation_id) where
  pub Held-adjust_other :
      (s : ℕ) (turn : AssistantTurn)
      → (t == s) ≡ false
      → Held turns conversations s turn
      → Held (adjust t f turns) conversations s turn
  Held-adjust_other s turn other h = record {
    stored = ground (arith, lookup-adjust t s f turns, h.stored, other);
    open_turn = h.open_turn;
    held = h.held;
  }

  pub Held-adjust :
      (turn : AssistantTurn)
      → Held turns conversations t turn
      → Held (adjust t f turns) conversations t (f turn)
  Held-adjust turn h = record {
    stored = ground (arith, lookup-adjust t t f turns, h.stored);
    open_turn = same_finalized turn ∙ h.open_turn;
    held = ap (λ (c : Text). find_key c conversations) (same_conversation turn) ∙ h.held;
  }

  -- A map whose keys the change does not touch.
  pub Filed-adjust :
      (key : AssistantTurn → Text) (map : List (Text × ℕ))
      → ((turn : AssistantTurn) → key (f turn) ≡ key turn)
      → Filed turns conversations key map
      → Filed (adjust t f turns) conversations key map
  Filed-adjust key map same_key filed k s h =
      let (turn, held, own) = filed k s h in
      elim (Bool-cases (t == s)) [
        | inl here ↦
            let same : t ≡ s = ground (arith, here) in
            (
              f turn,
              subst (λ (n : ℕ). Held (adjust t f turns) conversations n (f turn)) same
                  (Held-adjust turn (rw (← same) at held)),
              same_key turn ∙ own,
            )
        | inr other ↦ (turn, Held-adjust_other s turn other held, own)
      ]

  -- A map, or a part of it, in which the changed turn is not filed.
  pub Filed-adjust_unfiled :
      (key : AssistantTurn → Text) (map part : List (Text × ℕ))
      → ((k : Text) (s : ℕ) → find_key k part ≡ some s → (find_key k map ≡ some s) × (s ≡ t → ⊥))
      → Filed turns conversations key map
      → Filed (adjust t f turns) conversations key part
  Filed-adjust_unfiled key map part unfiled filed k s h =
      let (before, other) = unfiled k s h in
      let (turn, held, own) = filed k s before in
      (turn, Held-adjust_other s turn (differs s t other) held, own)

-- A pointer is added under the key of its turn.
pub Filed-put_key :
    (turns : Table AssistantTurn) (conversations : List (Text × ℕ)) (key : AssistantTurn → Text)
    (map : List (Text × ℕ)) (t : ℕ) (turn : AssistantTurn)
    → Filed turns conversations key map
    → Held turns conversations t turn
    → Filed turns conversations key (put_key (key turn) t map)
Filed-put_key turns conversations key map t turn filed held k s h =
    elim (Bool-cases (text_eq (key turn) k)) [
      | inl here ↦
          let same : t ≡ s = ground (arith, h, here, find_key-put_key k (key turn) t map) in
          (
            turn,
            subst (λ (n : ℕ). Held turns conversations n turn) same held,
            text_eq→≡ (key turn) k here,
          )
      | inr other ↦ filed k s (ground (arith, h, other, find_key-put_key k (key turn) t map))
    ]
