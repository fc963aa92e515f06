-- ===== src/Assistant/Turns/Kept.antt =====
-- The sections of backend/internal/app/assistant_runtime.go that make a turn or move it to another
-- session keep the maps of active turns consistent: of submit, rotateStoredSession and
-- reconcileProfile.
use mathlib.Core.Path.{subst}
use viki.Assistant.State.{Session, AssistantTurn, AssistantRuntime}
use viki.Assistant.Turns.{
  runtime_key, stored_key, points_to, file_turn, set_session, attach_session, set_stored,
  move_stored, rotate_found, rotate_stored_session, set_runtime, resume_turn,
}
use viki.Assistant.Turns.Active.{
  Held, Holds, Filed, conversation_key, IsConsistent, kept_key, same_turn,
}
use viki.Prelude.{
  ℕ, ◌≡◌, refl, Bool, true, false, Option, none, some, List, Text, lookup, adjust, lookup-insert,
  lookup-adjust, find_key, drop_key, find_key-put_key, text_eq→≡, text_eq_refl, Bool-cases, inl,
  inr, arith,
}
use viki.Assistant.Turns.Filed.{Held-adjust, Filed-adjust, Filed-adjust_unfiled, Filed-put_key}

-- A new turn of a conversation that has none.
module _ (turn : AssistantTurn) (r : AssistantRuntime) (c : IsConsistent r)
    (still_open : turn.finalized ≡ false)
    (free : find_key turn.conversation_id r.active_by_conversation ≡ none) where
  Filed-file_turn :
      (key : AssistantTurn → Text) (map : List (Text × ℕ))
      → Filed r.turns r.active_by_conversation key map
      → Filed (file_turn turn r).turns (file_turn turn r).active_by_conversation key map
  Filed-file_turn key map filed k s h =
      let (u, held, own) = filed k s h in
      (
        u,
        record {
          stored = ground (
            arith,
            lookup-insert r.next_turn s turn r.turns,
            held.stored,
            c.fresh r.next_turn (omega arith),
          );
          open_turn = held.open_turn;
          held = ground (
            arith,
            find_key-put_key u.conversation_id turn.conversation_id r.next_turn
                r.active_by_conversation,
            held.held,
            free,
            text_eq→≡ turn.conversation_id u.conversation_id,
          );
        },
        own,
      )

  pub file_turn-Holds : Holds (file_turn turn r) r.next_turn turn
  file_turn-Holds = record {
    stored = ground (arith, lookup-insert r.next_turn r.next_turn turn r.turns);
    open_turn = still_open;
    held = ground (
      arith,
      find_key-put_key turn.conversation_id turn.conversation_id r.next_turn
          r.active_by_conversation,
      text_eq_refl turn.conversation_id,
    );
  }

  pub file_turn-IsConsistent : IsConsistent (file_turn turn r)
  file_turn-IsConsistent = record {
    by_conversation =
        Filed-put_key (file_turn turn r).turns (file_turn turn r).active_by_conversation
          conversation_key r.active_by_conversation r.next_turn turn
          (Filed-file_turn conversation_key r.active_by_conversation c.by_conversation)
          file_turn-Holds;
    by_runtime = Filed-file_turn runtime_key r.active_by_runtime c.by_runtime;
    by_stored = Filed-file_turn stored_key r.active_by_stored c.by_stored;
    fresh = λ s above. ground (arith, lookup-insert r.next_turn s turn r.turns, c.fresh s, above);
  }

-- A pointer that a map does not have under any key.
abbrev pub Unfiled : ℕ → List (Text × ℕ) → Type 0
Unfiled t map = (k : Text) (s : ℕ) → find_key k map ≡ some s → s ≡ t → ⊥

module _ (t : ℕ) (turn : AssistantTurn) (r : AssistantRuntime) (c : IsConsistent r)
    (h : Holds r t turn) where
  pub attach_session-IsConsistent :
      (session : Session)
      → Unfiled t r.active_by_runtime
      → Unfiled t r.active_by_stored
      → IsConsistent (attach_session t turn.mode session r)
  unfolding attach_session runtime_key stored_key
  attach_session-IsConsistent session no_runtime no_stored =
      let f = set_session session in
      let turns = adjust t f r.turns in
      let held : Held turns r.active_by_conversation t (f turn) =
        Held-adjust t f r.turns r.active_by_conversation (λ u. refl) (λ u. refl) turn h in
      record {
        by_conversation =
            Filed-adjust t f r.turns r.active_by_conversation (λ u. refl) (λ u. refl)
              conversation_key r.active_by_conversation (λ u. refl) c.by_conversation;
        by_runtime =
            Filed-put_key turns r.active_by_conversation runtime_key r.active_by_runtime t (f turn)
              (Filed-adjust_unfiled t f r.turns r.active_by_conversation (λ u. refl) (λ u. refl)
                runtime_key r.active_by_runtime r.active_by_runtime
                (λ k s found. (found, no_runtime k s found)) c.by_runtime)
              held;
        by_stored =
            Filed-put_key turns r.active_by_conversation stored_key r.active_by_stored t (f turn)
              (Filed-adjust_unfiled t f r.turns r.active_by_conversation (λ u. refl) (λ u. refl)
                stored_key r.active_by_stored r.active_by_stored
                (λ k s found. (found, no_stored k s found)) c.by_stored)
              held;
        fresh = λ s above. ground (arith, lookup-adjust t s f r.turns, c.fresh s above);
      }

-- After its own key is dropped a turn is not filed.
dropped_key :
    (t : ℕ) (turn : AssistantTurn) (r : AssistantRuntime) (key : AssistantTurn → Text)
    (map : List (Text × ℕ))
    → lookup t r.turns ≡ some turn
    → Filed r.turns r.active_by_conversation key map
    → (k : Text) (s : ℕ) → find_key k (drop_key (key turn) map) ≡ some s
    → (find_key k map ≡ some s) × (s ≡ t → ⊥)
dropped_key t turn r key map at filed k s h =
    let (apart, before) = kept_key k (key turn) map h in
    let (u, held, own) = filed k s before in
    (
      before,
      λ same.
          let one : turn ≡ u = same_turn r t turn u at (rw same at held.stored) in
          cc (rw (← own, one) at apart, text_eq_refl (key u)),
    )

pointing : (o : Option ℕ) (t : ℕ) → points_to o t ≡ true → o ≡ some t
pointing none t h = cc
pointing (some s) t h = ground (arith, h)

module _ (t : ℕ) (turn : AssistantTurn) (r : AssistantRuntime) (c : IsConsistent r)
    (at : lookup t r.turns ≡ some turn) where
  pub resume_turn-IsConsistent :
      (session : Session) → Holds r t turn → IsConsistent (resume_turn turn.mode t turn session r)
  unfolding resume_turn runtime_key stored_key
  resume_turn-IsConsistent session h =
      let f = set_runtime session.runtime_id in
      record {
        by_conversation =
            Filed-adjust t f r.turns r.active_by_conversation (λ u. refl) (λ u. refl)
              conversation_key r.active_by_conversation (λ u. refl) c.by_conversation;
        by_runtime =
            Filed-put_key (adjust t f r.turns) r.active_by_conversation runtime_key
              (drop_key (runtime_key turn) r.active_by_runtime) t (f turn)
              (Filed-adjust_unfiled t f r.turns r.active_by_conversation (λ u. refl) (λ u. refl)
                runtime_key r.active_by_runtime (drop_key (runtime_key turn) r.active_by_runtime)
                (dropped_key t turn r runtime_key r.active_by_runtime at c.by_runtime) c.by_runtime)
              (Held-adjust t f r.turns r.active_by_conversation (λ u. refl) (λ u. refl) turn h);
        by_stored =
            Filed-adjust t f r.turns r.active_by_conversation (λ u. refl) (λ u. refl) stored_key
              r.active_by_stored (λ u. refl) c.by_stored;
        fresh = λ s above. ground (arith, lookup-adjust t s f r.turns, c.fresh s above);
      }

  -- A pointer that the conversation holds is to an open turn.
  pub holding-Holds :
      find_key turn.conversation_id r.active_by_conversation ≡ some t → Holds r t turn
  holding-Holds found =
      let (u, held, own) = c.by_conversation turn.conversation_id t found in
      subst (Holds r t) (same_turn r t u turn held.stored at) held

  moved_stored :
      (stored : Text)
      → Filed
          (adjust t (set_stored stored) r.turns)
          r.active_by_conversation
          stored_key
          (move_stored t turn stored r).active_by_stored
  unfolding stored_key
  moved_stored stored =
      let f = set_stored stored in
      let left =
        Filed-adjust_unfiled t f r.turns r.active_by_conversation (λ u. refl) (λ u. refl) stored_key
          r.active_by_stored (drop_key (stored_key turn) r.active_by_stored)
          (dropped_key t turn r stored_key r.active_by_stored at c.by_stored) c.by_stored in
      elim (Bool-cases (points_to (find_key turn.conversation_id r.active_by_conversation) t)) [
        | inr free ↦ rw free left
        | inl holding ↦ rw holding (
            Filed-put_key (adjust t f r.turns) r.active_by_conversation stored_key
              (drop_key (stored_key turn) r.active_by_stored) t (f turn) left
              (Held-adjust t f r.turns r.active_by_conversation (λ u. refl) (λ u. refl) turn
                (holding-Holds (pointing _ t holding))))
      ]

  move_stored-IsConsistent : (stored : Text) → IsConsistent (move_stored t turn stored r)
  unfolding runtime_key
  move_stored-IsConsistent stored =
      let f = set_stored stored in
      record {
        by_conversation =
            Filed-adjust t f r.turns r.active_by_conversation (λ u. refl) (λ u. refl)
              conversation_key r.active_by_conversation (λ u. refl) c.by_conversation;
        by_runtime =
            Filed-adjust t f r.turns r.active_by_conversation (λ u. refl) (λ u. refl) runtime_key
              r.active_by_runtime (λ u. refl) c.by_runtime;
        by_stored = moved_stored stored;
        fresh = λ s above. ground (arith, lookup-adjust t s f r.turns, c.fresh s above);
      }

pub rotate_stored_session-IsConsistent :
    (saved : Bool) (t : ℕ) (stored : Text) (r : AssistantRuntime)
    → IsConsistent r
    → IsConsistent (rotate_stored_session saved t stored r)
unfolding rotate_stored_session
rotate_stored_session-IsConsistent saved t stored r c = rotated saved (lookup t r.turns) refl
  where
    rotated :
        (saved : Bool) (o : Option AssistantTurn)
        → lookup t r.turns ≡ o
        → IsConsistent (rotate_found saved t stored r o)
    rotated saved none at = c
    rotated true (some turn) at = move_stored-IsConsistent t turn r c at stored
    rotated false (some turn) at = c

-- A change of a turn that moves it nowhere.
pub adjust-IsConsistent :
    (t : ℕ) (f : AssistantTurn → AssistantTurn) (r : AssistantRuntime)
    → ((turn : AssistantTurn) → (f turn).finalized ≡ turn.finalized)
    → ((turn : AssistantTurn) → (f turn).conversation_id ≡ turn.conversation_id)
    → ((turn : AssistantTurn) → runtime_key (f turn) ≡ runtime_key turn)
    → ((turn : AssistantTurn) → stored_key (f turn) ≡ stored_key turn)
    → IsConsistent r
    → IsConsistent (record r { turns = adjust t f r.turns })
adjust-IsConsistent t f r finalized conversation runtime stored c =
    let kept = Filed-adjust t f r.turns r.active_by_conversation finalized conversation in
    record {
      by_conversation =
          kept conversation_key r.active_by_conversation conversation c.by_conversation;
      by_runtime = kept runtime_key r.active_by_runtime runtime c.by_runtime;
      by_stored = kept stored_key r.active_by_stored stored c.by_stored;
      fresh = λ s above. ground (arith, lookup-adjust t s f r.turns, c.fresh s above);
    }
