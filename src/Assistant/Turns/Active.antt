-- ===== src/Assistant/Turns/Active.antt =====
-- Which turns are active: the invariant of the maps of assistantRuntime in
-- backend/internal/app/assistant_runtime.go, and that its sections keep it.
use mathlib.Core.Path.{subst}
use viki.Assistant.State.{
  AssistantConversationState, AssistantTurn, AssistantRuntime, new_assistant_runtime,
}
use viki.Assistant.Turns.{runtime_key, stored_key, points_to, finalize, close_turn, finish_turn}
use viki.Prelude.{
  ℕ, ◌≤◌, ◌≡◌, drop_key, Bool-cases, Option-cases, inl, inr, refl, sym, true, false, none, some,
  List, Text, Table, lookup, lookup-adjust, find_key, find_key-drop_key, text_eq, text_eq→≡,
  text_eq_refl, ◌==◌, arith,
}

-- A turn that has not been finished and that its conversation holds.
pub record Held (turns : Table AssistantTurn) (conversations : List (Text × ℕ)) (t : ℕ)
    (turn : AssistantTurn) : Type 0 where
  pub stored : lookup t turns ≡ some turn
  pub open_turn : turn.finalized ≡ false
  pub held : find_key turn.conversation_id conversations ≡ some t

abbrev pub Holds : AssistantRuntime → ℕ → AssistantTurn → Type 0
Holds r t turn = Held r.turns r.active_by_conversation t turn

-- Each pointer of a map is to such a turn, filed under its own key.
abbrev pub Filed :
    Table AssistantTurn → List (Text × ℕ) → (AssistantTurn → Text) → List (Text × ℕ) → Type 0
Filed turns conversations key map =
    (k : Text) (t : ℕ)
    → find_key k map ≡ some t
    → (turn : AssistantTurn) × Held turns conversations t turn × (key turn ≡ k)

abbrev pub conversation_key : AssistantTurn → Text
conversation_key turn = turn.conversation_id

-- The three maps of active turns are so, and the next pointer is new.
pub record Consistent (turns : Table AssistantTurn) (next : ℕ)
    (conversations runtimes sessions : List (Text × ℕ)) : Type 0 where
  pub by_conversation : Filed turns conversations conversation_key conversations
  pub by_runtime : Filed turns conversations runtime_key runtimes
  pub by_stored : Filed turns conversations stored_key sessions
  pub fresh : (t : ℕ) → next ≤ t → lookup t turns ≡ none

abbrev pub IsConsistent : AssistantRuntime → Type 0
IsConsistent r =
    Consistent r.turns r.next_turn r.active_by_conversation r.active_by_runtime r.active_by_stored

pub new-IsConsistent : IsConsistent new_assistant_runtime
unfolding find_key lookup
new-IsConsistent = record {
  by_conversation = λ key t h. cc;
  by_runtime = λ key t h. cc;
  by_stored = λ key t h. cc;
  fresh = λ t h. refl;
}

-- A key that deleting another key leaves.
pub kept_key :
    (j k : Text) (m : List (Text × ℕ)) {s : ℕ}
    → find_key j (drop_key k m) ≡ some s
    → (text_eq k j ≡ false) × (find_key j m ≡ some s)
kept_key j k m h =
    (ground (arith, find_key-drop_key j k m), ground (arith, find_key-drop_key j k m))

-- One pointer has one turn.
pub same_turn :
    (r : AssistantRuntime) (t : ℕ) (a b : AssistantTurn)
    → lookup t r.turns ≡ some a
    → lookup t r.turns ≡ some b
    → a ≡ b
same_turn r t a b h g = cc

pub differs : (s t : ℕ) → (s ≡ t → ⊥) → (t == s) ≡ false
differs s t h = elim (Bool-cases (t == s)) [
  | inl same ↦ absurd (h (ground (arith, same)))
  | inr other ↦ other
]

module _ (t : ℕ) (gone : AssistantTurn) (state : AssistantConversationState) (r : AssistantRuntime)
    (c : IsConsistent r) (at : lookup t r.turns ≡ some gone) where
  -- Another turn stays active.
  pub close_turn-Holds :
      (s : ℕ) (turn : AssistantTurn)
      → (s ≡ t → ⊥)
      → Holds r s turn
      → Holds (close_turn t gone state r) s turn
  close_turn-Holds s turn other h = record {
    stored = ground (arith, lookup-adjust t s finalize r.turns, differs s t other, h.stored);
    open_turn = h.open_turn;
    held = ground (
      arith,
      h.held,
      differs s t other,
      find_key-drop_key turn.conversation_id gone.conversation_id r.active_by_conversation,
      text_eq→≡ gone.conversation_id turn.conversation_id,
    );
  }

  -- A key that is left does not belong to the closed turn.
  close_turn_other :
      (key : AssistantTurn → Text) (s : ℕ) (turn : AssistantTurn)
      → text_eq (key gone) (key turn) ≡ false
      → Holds r s turn
      → (s ≡ t → ⊥)
  close_turn_other key s turn apart h same =
      let one : gone ≡ turn = same_turn r t gone turn at (rw same at h.stored) in
      cc (text_eq_refl (key turn), rw one at apart)

  conversation_kept :
      (key : Text) (s : ℕ)
      → find_key key (close_turn t gone state r).active_by_conversation ≡ some s
      → (find_key key r.active_by_conversation ≡ some s) × (s ≡ t → ⊥)
  conversation_kept key s h =
      elim (Bool-cases (points_to (find_key gone.conversation_id r.active_by_conversation) t)) [
        | inl held ↦
            let (apart, before) =
              kept_key key gone.conversation_id r.active_by_conversation (rw held at h) in
            let (turn, holds, own) = c.by_conversation key s before in
            (before, close_turn_other (λ x. x.conversation_id) s turn (rw (← own) at apart) holds)
        | inr free ↦
            let before : find_key key r.active_by_conversation ≡ some s = rw free at h in
            let (turn, holds, own) = c.by_conversation key s before in
            (
              before,
              λ same.
                  let one : gone ≡ turn = same_turn r t gone turn at (rw same at holds.stored) in
                  ground (arith, rw (← one) at holds.held, same, free),
            )
      ]

  pub close_turn-IsConsistent : IsConsistent (close_turn t gone state r)
  close_turn-IsConsistent = record {
    by_conversation = λ key s h.
        let (before, other) = conversation_kept key s h in
        let (turn, holds, own) = c.by_conversation key s before in
        (turn, close_turn-Holds s turn other holds, own);
    by_runtime = λ key s h.
        let (apart, before) = kept_key key (runtime_key gone) r.active_by_runtime h in
        let (turn, holds, own) = c.by_runtime key s before in
        (
          turn,
          close_turn-Holds s turn (close_turn_other runtime_key s turn (rw (← own) at apart) holds)
              holds,
          own,
        );
    by_stored = λ key s h.
        let (apart, before) = kept_key key (stored_key gone) r.active_by_stored h in
        let (turn, holds, own) = c.by_stored key s before in
        (
          turn,
          close_turn-Holds s turn (close_turn_other stored_key s turn (rw (← own) at apart) holds)
              holds,
          own,
        );
    fresh = λ s above. ground (arith, lookup-adjust t s finalize r.turns, c.fresh s above);
  }

-- What finishing an open turn and a closed one do.
pub finish_turn_open :
    (t : ℕ) (turn : AssistantTurn) (state : AssistantConversationState) (r : AssistantRuntime)
    → lookup t r.turns ≡ some turn
    → turn.finalized ≡ false
    → finish_turn t state r ≡ close_turn t turn state r
unfolding finish_turn runtime_key stored_key
finish_turn_open t turn state r at still = rw (at, still) refl

pub finish_turn_closed :
    (t : ℕ) (turn : AssistantTurn) (state : AssistantConversationState) (r : AssistantRuntime)
    → lookup t r.turns ≡ some turn
    → turn.finalized ≡ true
    → finish_turn t state r ≡ r
unfolding finish_turn
finish_turn_closed t turn state r at closed = ground (arith, at, closed)

pub finish_turn-IsConsistent :
    (t : ℕ) (state : AssistantConversationState) (r : AssistantRuntime)
    → IsConsistent r
    → IsConsistent (finish_turn t state r)
finish_turn-IsConsistent t state r c = elim (Option-cases (lookup t r.turns)) [
  | inl absent ↦
      let same : finish_turn t state r ≡ r = unfold finish_turn in rw absent refl in
      subst IsConsistent (sym same) c
  | inr (turn, at) ↦ elim (Bool-cases turn.finalized) [
    | inl closed ↦ subst IsConsistent (sym (finish_turn_closed t turn state r at closed)) c
    | inr still ↦
        subst IsConsistent (sym (finish_turn_open t turn state r at still))
          (close_turn-IsConsistent t turn state r c at)
  ]
]
