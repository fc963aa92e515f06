-- ===== src/Assistant/Turns/Resumed.antt =====
-- One round of the loop of reconcileProfile of backend/internal/app/assistant_runtime.go keeps the
-- maps of active turns consistent and the other turns active.
use viki.Assistant.State.{
  AssistantConversationState, Session, AssistantTurn, AssistantRuntime, publish, error, idle,
  completed, failed,
}
use viki.Assistant.Turns.Active.{Holds, IsConsistent, finish_turn-IsConsistent, finish_turn_closed}
use viki.Assistant.Turns.Kept.{resume_turn-IsConsistent, rotate_stored_session-IsConsistent}
use viki.Assistant.Turns.Reconcile.{
  Resumption, lose_turn, rotate_resumed, check_status, resume_with, reconcile_turn,
}
use viki.Assistant.Turns.Sessions.{GatewayError}
use viki.Assistant.Turns.{finish_turn, rotate_stored_session, resume_turn}
use viki.Prelude.{
  ℕ, ◌≡◌, Bool, true, false, Option, none, some, Text, lookup, codes, ◌||◌, text_eq, is_empty,
  if◌then◌else◌, Result, ok, err,
}
use viki.Tools.{AssistantMode}
use viki.Assistant.Turns.Active.{close_turn-Holds, finish_turn_open, differs}
use viki.Assistant.Turns.Filed.{Held-adjust_other}
use viki.Assistant.Turns.{rotate_found, set_stored, set_runtime}
use mathlib.Core.Path.{subst}
use viki.Prelude.{sym, refl, inl, inr, Option-cases, Bool-cases}

lose_turn-IsConsistent :
    (mode : AssistantMode) (t : ℕ) (turn : AssistantTurn) (r : AssistantRuntime)
    → IsConsistent r
    → IsConsistent (lose_turn mode t turn r)
unfolding publish
lose_turn-IsConsistent mode t turn r c =
    finish_turn-IsConsistent t error
      (publish turn.conversation_id (failed turn.id mode (codes "assistant_reconnect_failed")) r) c

check_status-IsConsistent :
    (mode : AssistantMode) (t : ℕ) (turn : AssistantTurn) (status : Result GatewayError Bool)
    (r : AssistantRuntime)
    → IsConsistent r
    → IsConsistent (check_status mode t turn status r)
unfolding publish
check_status-IsConsistent mode t turn (err failure) r c = lose_turn-IsConsistent mode t turn r c
check_status-IsConsistent mode t turn (ok true) r c = c
check_status-IsConsistent mode t turn (ok false) r c =
    finish_turn-IsConsistent t idle (publish turn.conversation_id (completed turn.id mode) r) c

rotate_resumed-IsConsistent :
    (saved : Bool) (t : ℕ) (turn : AssistantTurn) (session : Session) (r : AssistantRuntime)
    → IsConsistent r
    → IsConsistent (rotate_resumed saved t turn session r)
rotate_resumed-IsConsistent saved t turn session r c =
    same (is_empty session.stored_id || text_eq session.stored_id turn.stored_id)
  where
    same :
        (same_session : Bool)
        → IsConsistent
            (if same_session then r else rotate_stored_session saved t session.stored_id r)
    same true = c
    same false = rotate_stored_session-IsConsistent saved t session.stored_id r c

pub reconcile_turn-IsConsistent :
    (answers : Resumption) (t : ℕ) (turn : AssistantTurn) (r : AssistantRuntime)
    → Holds r t turn
    → IsConsistent r
    → IsConsistent (reconcile_turn turn.mode answers t turn r)
unfolding reconcile_turn
reconcile_turn-IsConsistent answers t turn r h c = resumed answers.resumed
  where
    resumed :
        (x : Result GatewayError Session) → IsConsistent (resume_with turn.mode answers t turn x r)
    resumed (err failure) = lose_turn-IsConsistent turn.mode t turn r c
    resumed (ok session) = check_status-IsConsistent turn.mode t turn answers.status _ (
        rotate_resumed-IsConsistent answers.session_saved t turn session
          (resume_turn turn.mode t turn session r)
          (resume_turn-IsConsistent t turn r c h.stored session h))

-- Another turn that is active stays so.
module _ (s : ℕ) (u : AssistantTurn) (t : ℕ) (other : s ≡ t → ⊥) where
  finish_turn_other :
      (state : AssistantConversationState) (r : AssistantRuntime)
      → IsConsistent r
      → Holds r s u
      → Holds (finish_turn t state r) s u
  finish_turn_other state r c h = elim (Option-cases (lookup t r.turns)) [
    | inl absent ↦
        let same : finish_turn t state r ≡ r = unfold finish_turn in rw absent refl in
        subst (λ (x : AssistantRuntime). Holds x s u) (sym same) h
    | inr (turn, at) ↦ elim (Bool-cases turn.finalized) [
      | inl closed ↦
          subst (λ (x : AssistantRuntime). Holds x s u)
            (sym (finish_turn_closed t turn state r at closed)) h
      | inr still ↦
          subst (λ (x : AssistantRuntime). Holds x s u)
            (sym (finish_turn_open t turn state r at still))
            (close_turn-Holds t turn state r c at s u other h)
    ]
  ]

  rotate_stored_session_other :
      (saved : Bool) (stored : Text) (r : AssistantRuntime)
      → Holds r s u
      → Holds (rotate_stored_session saved t stored r) s u
  unfolding rotate_stored_session
  rotate_stored_session_other saved stored r h = rotated saved (lookup t r.turns)
    where
      rotated :
          (saved : Bool) (o : Option AssistantTurn) → Holds (rotate_found saved t stored r o) s u
      rotated saved none = h
      rotated false (some turn) = h
      rotated true (some turn) =
          Held-adjust_other t (set_stored stored) r.turns r.active_by_conversation (λ x. refl)
            (λ x. refl) s u (differs s t other) h

  lose_turn_other :
      (mode : AssistantMode) (turn : AssistantTurn) (r : AssistantRuntime)
      → IsConsistent r
      → Holds r s u
      → Holds (lose_turn mode t turn r) s u
  unfolding publish
  lose_turn_other mode turn r c h =
      let event = failed turn.id turn.mode (codes "assistant_reconnect_failed") in
      finish_turn_other error
        (publish turn.conversation_id (failed turn.id mode (codes "assistant_reconnect_failed")) r)
        c h

  check_status_other :
      (mode : AssistantMode) (turn : AssistantTurn) (status : Result GatewayError Bool)
      (r : AssistantRuntime)
      → IsConsistent r
      → Holds r s u
      → Holds (check_status mode t turn status r) s u
  unfolding publish
  check_status_other mode turn (err failure) r c h = lose_turn_other mode turn r c h
  check_status_other mode turn (ok true) r c h = h
  check_status_other mode turn (ok false) r c h =
      finish_turn_other idle (publish turn.conversation_id (completed turn.id mode) r) c h

  rotate_resumed_other :
      (saved : Bool) (turn : AssistantTurn) (session : Session) (r : AssistantRuntime)
      → Holds r s u
      → Holds (rotate_resumed saved t turn session r) s u
  rotate_resumed_other saved turn session r h =
      same (is_empty session.stored_id || text_eq session.stored_id turn.stored_id)
    where
      same :
          (same_session : Bool)
          → Holds
              (if same_session then r else rotate_stored_session saved t session.stored_id r)
              s
              u
      same true = h
      same false = rotate_stored_session_other saved session.stored_id r h

  pub reconcile_turn_other :
      (answers : Resumption) (turn : AssistantTurn) (r : AssistantRuntime)
      → IsConsistent r
      → Holds r t turn
      → Holds r s u
      → Holds (reconcile_turn turn.mode answers t turn r) s u
  unfolding reconcile_turn
  reconcile_turn_other answers turn r c active h = resumed answers.resumed
    where
      resumed :
          (x : Result GatewayError Session) → Holds (resume_with turn.mode answers t turn x r) s u
      resumed (err failure) = lose_turn_other turn.mode turn r c h
      resumed (ok session) =
          let r2 = resume_turn turn.mode t turn session r in
          let c2 = resume_turn-IsConsistent t turn r c active.stored session active in
          let h2 : Holds r2 s u =
            unfold resume_turn in
            Held-adjust_other t (set_runtime session.runtime_id) r.turns r.active_by_conversation
              (λ x. refl) (λ x. refl) s u (differs s t other) h in
          check_status_other turn.mode turn answers.status
            (rotate_resumed answers.session_saved t turn session r2)
            (rotate_resumed-IsConsistent answers.session_saved t turn session r2 c2)
            (rotate_resumed_other answers.session_saved turn session r2 h2)
