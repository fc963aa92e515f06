-- ===== src/Assistant/Turns/Submitted.antt =====
-- What submit of backend/internal/app/assistant_runtime.go leaves behind on each of its ends.
use mathlib.Core.Path.{subst}
use viki.Assistant.State.{
  AssistantConversation, error, Session, AssistantTurn, AssistantRuntime, publish,
}
use viki.Assistant.Turns.Active.{Holds, IsConsistent, finish_turn_open, finish_turn-IsConsistent}
use viki.Assistant.Turns.Filed.{Held-adjust}
use viki.Assistant.Turns.Kept.{
  Unfiled, file_turn-Holds, file_turn-IsConsistent, attach_session-IsConsistent,
}
use viki.Assistant.Turns.Sessions.{
  Answers, AssistantError, GatewayError, gateway_failed, store_failed, gateway_unavailable,
  ensure_session,
}
use viki.Assistant.Turns.Submit.{
  Outcome, fail, submitted_activity, prompt_sent, with_handoff, in_session, submit_begun, submit,
}
use viki.Assistant.Turns.{
  runtime_key, new_turn, file_turn, begin_turn, set_session, attach_session, active_grant,
}
use viki.Prelude.{
  ℕ, ◌≡◌, refl, sym, ◌⊎◌, inl, inr, Bool, true, false, none, some, List, Text, codes, lookup,
  find_key, find_key-put_key, find_key-drop_key, text_eq_refl, has_prefix, trim_space, Bool-cases,
  Option-cases, if◌then◌else◌, Result, ok, err, arith,
}
use viki.Tools.{AssistantMode, assistant_session_key}
use viki.Assistant.Turns.Sessions.Leaves.{
  Leaves, after_session, after_handoff, ensure_session-Leaves, build_handoff-Leaves,
}

module _ (t : ℕ) (turn : AssistantTurn) (session : Session) (r : AssistantRuntime) where
  attach_session-Holds :
      Holds r t turn → Holds (attach_session t turn.mode session r) t (set_session session turn)
  unfolding attach_session
  attach_session-Holds h =
      Held-adjust t (set_session session) r.turns r.active_by_conversation (λ u. refl) (λ u. refl)
        turn h

  pub attach_session_grant :
      active_grant turn.mode session.stored_id (attach_session t turn.mode session r) ≡ some t
  unfolding active_grant attach_session
  attach_session_grant =
      let key = assistant_session_key turn.mode session.stored_id in
      ground (arith, find_key-put_key key key t r.active_by_stored, text_eq_refl key)

  attach_session_runtime :
      find_key
        (runtime_key (set_session session turn))
        (attach_session t turn.mode session r).active_by_runtime
      ≡ some t
  unfolding runtime_key attach_session
  attach_session_runtime =
      let key = assistant_session_key turn.mode session.runtime_id in
      ground (arith, find_key-put_key key key t r.active_by_runtime, text_eq_refl key)

-- How submit may end: with an active turn of the conversation that is filed under its session; as if
-- nothing had been asked; or with no turn of the conversation and the state `error`.
abbrev pub Submitted : AssistantConversation → AssistantMode → AssistantRuntime → Outcome → Type 0
Submitted conversation mode r (ok t, s) =
    IsConsistent s
    × ((turn : AssistantTurn) × Holds s t turn
        × (turn.conversation_id ≡ conversation.id)
        × (turn.mode ≡ mode)
        × (active_grant mode turn.stored_id s ≡ some t)
        × (find_key (runtime_key turn) s.active_by_runtime ≡ some t))
Submitted conversation mode r (err failure, s) =
    IsConsistent s
    × ((s ≡ r)
        ⊎ ((find_key conversation.id s.active_by_conversation ≡ none)
            × (find_key conversation.id s.conversation_state ≡ some error)))

module _ {M : Type 0} (answers : Answers M) (format : List M → Text)
    (wrap : AssistantTurn → Text → Text → Text) (conversation : AssistantConversation)
    (r : AssistantRuntime) where
  fail-Submitted :
      (t : ℕ) (turn : AssistantTurn) (failure : AssistantError) (s : AssistantRuntime)
      → IsConsistent s
      → Holds s t turn
      → turn.conversation_id ≡ conversation.id
      → Submitted conversation turn.mode r (fail t failure s)
  fail-Submitted t turn failure s c h own = (
    finish_turn-IsConsistent t error s c,
    inr (
        rw (finish_turn_open t turn error s h.stored h.open_turn) (
          ground (
            arith,
            h.held,
            own,
            find_key-drop_key conversation.id turn.conversation_id s.active_by_conversation,
            text_eq_refl conversation.id,
          ),
          ground (
            arith,
            own,
            find_key-put_key conversation.id turn.conversation_id error s.conversation_state,
            text_eq_refl conversation.id,
          ),
        )),
  )

  prompt_sent-Submitted :
      (t : ℕ) (turn : AssistantTurn) (s : AssistantRuntime)
      (result : Result GatewayError (Unit {0}))
      → IsConsistent s
      → Holds s t turn
      → turn.conversation_id ≡ conversation.id
      → active_grant turn.mode turn.stored_id s ≡ some t
      → find_key (runtime_key turn) s.active_by_runtime ≡ some t
      → Submitted conversation turn.mode r (prompt_sent answers format wrap t turn s result)
  unfolding publish active_grant
  prompt_sent-Submitted t turn s (err failure) c h own grant filed =
      fail-Submitted t turn (gateway_failed failure) s c h own
  prompt_sent-Submitted t turn s (ok _) c h own grant filed = updated answers.mode_updated
    where
      updated :
          (saved : Bool)
          → Submitted conversation turn.mode r (
              if saved
              then (ok t, publish turn.conversation_id (submitted_activity turn) s)
              else fail t store_failed s)
      updated true = (c, (turn, h, own, refl, grant, filed))
      updated false = fail-Submitted t turn store_failed s c h own

  with_handoff-Submitted :
      (t : ℕ) (turn : AssistantTurn) (content : Text) (s : AssistantRuntime)
      (handoff : Result AssistantError (Text × AssistantRuntime))
      → IsConsistent s
      → Holds s t turn
      → turn.conversation_id ≡ conversation.id
      → active_grant turn.mode turn.stored_id s ≡ some t
      → find_key (runtime_key turn) s.active_by_runtime ≡ some t
      → Leaves s after_handoff handoff
      → Submitted conversation turn.mode r
          (with_handoff answers format wrap t turn content s handoff)
  unfolding active_grant
  with_handoff-Submitted t turn content s (err failure) c h own grant filed same =
      fail-Submitted t turn failure s c h own
  with_handoff-Submitted t turn content s (ok (handoff, after)) c h own grant filed same =
      subst
        (λ (x : AssistantRuntime).
          Submitted conversation turn.mode r
            (with_handoff answers format wrap t turn content s (ok (handoff, x))))
        (sym same.1)
        (prompt_sent-Submitted t turn (record s { runtime_sessions = same.0 })
          (answers.submitted (wrap turn content handoff)) c h own grant filed)

  in_session-Submitted :
      (t : ℕ) (turn : AssistantTurn) (content : Text) (s : AssistantRuntime)
      (session : Result AssistantError (Session × AssistantConversation × AssistantRuntime))
      → IsConsistent s
      → Holds s t turn
      → turn.conversation_id ≡ conversation.id
      → Unfiled t s.active_by_runtime
      → Unfiled t s.active_by_stored
      → Leaves s after_session session
      → Submitted conversation turn.mode r (in_session answers format wrap t turn content s session)
  in_session-Submitted t turn content s (err failure) c h own no_runtime no_stored same =
      fail-Submitted t turn failure s c h own
  in_session-Submitted t turn content s (ok (session, updated, after)) c h own no_runtime no_stored
        same =
      subst
        (λ (x : AssistantRuntime).
          Submitted conversation turn.mode r
            (in_session answers format wrap t turn content s (ok (session, updated, x))))
        (sym same.1) (attached (record s { runtime_sessions = same.0 }) c h no_runtime no_stored)
    where
      attached :
          (x : AssistantRuntime)
          → IsConsistent x
          → Holds x t turn
          → Unfiled t x.active_by_runtime
          → Unfiled t x.active_by_stored
          → Submitted conversation turn.mode r
              (in_session answers format wrap t turn content s (ok (session, updated, x)))
      attached x c h no_runtime no_stored =
          with_handoff-Submitted t (set_session session turn) content
            (attach_session t turn.mode session x) _
            (attach_session-IsConsistent t turn x c h session no_runtime no_stored)
            (attach_session-Holds t turn session x h) own (attach_session_grant t turn session x)
            (attach_session_runtime t turn session x)
            (build_handoff-Leaves answers format updated turn.mode
              (attach_session t turn.mode session x))

  submit_begun-Submitted :
      (turn : AssistantTurn) (content : Text)
      → IsConsistent r
      → turn.finalized ≡ false
      → turn.conversation_id ≡ conversation.id
      → Submitted conversation turn.mode r
          (submit_begun answers format wrap conversation turn content r (begin_turn turn r))
  unfolding begin_turn
  submit_begun-Submitted turn content c open_turn own =
      elim (Option-cases (find_key turn.conversation_id r.active_by_conversation)) [
        | inr (active, taken) ↦ rw taken (c, inl refl)
        | inl free ↦ rw free (
            begun answers.has_gateway (file_turn-IsConsistent turn r c open_turn free)
              (file_turn-Holds turn r c open_turn free))
      ]
    where
      fresh_pointer : (u : AssistantTurn) (s : ℕ) → lookup s r.turns ≡ some u → s ≡ r.next_turn → ⊥
      fresh_pointer u s found same = cc (rw same at found, c.fresh r.next_turn (omega arith))

      begun :
          (has_gateway : Bool)
          → IsConsistent (file_turn turn r)
          → Holds (file_turn turn r) r.next_turn turn
          → Submitted conversation turn.mode r (
              if has_gateway
              then in_session answers format wrap r.next_turn turn content
                  (file_turn turn r)
                  (ensure_session answers conversation turn.mode (file_turn turn r))
              else fail r.next_turn gateway_unavailable (file_turn turn r))
      begun false c2 h =
          fail-Submitted r.next_turn turn gateway_unavailable (file_turn turn r) c2 h own
      begun true c2 h =
          in_session-Submitted r.next_turn turn content (file_turn turn r) _ c2 h own
            (λ k s found same.
              let (u, held, key) = c.by_runtime k s found in fresh_pointer u s held.stored same)
            (λ k s found same.
              let (u, held, key) = c.by_stored k s found in fresh_pointer u s held.stored same)
            (ensure_session-Leaves answers conversation turn.mode (file_turn turn r))

  -- Whatever the gateway and the repository answer, submit keeps the maps of active turns consistent.
  -- When it succeeds, its turn is active for the conversation in the given mode and filed under its
  -- session, whose tools it grants. When it fails, nothing has changed, or the conversation is left
  -- with no active turn and in the state `error`.
  pub submit-Submitted :
      (mode : AssistantMode) (id content locale : Text)
      → IsConsistent r
      → Submitted conversation mode r
          (submit answers format wrap conversation mode id content locale r)
  unfolding submit
  submit-Submitted mode id content locale c =
      elim (Bool-cases (has_prefix (trim_space content) (codes "/"))) [
        | inl command ↦ rw command (c, inl refl)
        | inr prompt ↦
            rw prompt
              (submit_begun-Submitted (new_turn conversation mode locale id) content c refl refl)
      ]
