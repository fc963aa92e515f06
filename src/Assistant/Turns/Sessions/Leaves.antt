-- ===== src/Assistant/Turns/Sessions/Leaves.antt =====
-- What ensureSession and buildHandoff of backend/internal/app/assistant_runtime.go change: only the
-- remembered sessions.
use viki.Assistant.State.{AssistantConversation, Session, AssistantRuntime, conversation_session_id}
use viki.Assistant.Turns.Sessions.{
  Answers, AssistantError, GatewayError, session_updated, session_opened, ensure_cached,
  history_handoff, source_handoff, has_session, ensure_session, build_handoff, same_mode,
}
use viki.Prelude.{
  ◌≡◌, refl, Bool, true, false, Option, none, some, List, Text, if◌then◌else◌, Result, ok, err, not,
  ◌||◌, [],
}
use viki.Tools.{AssistantMode}

-- Only the remembered sessions may differ.
abbrev pub SameTurns : AssistantRuntime → AssistantRuntime → Type 0
SameTurns r s = (sessions : List (Text × Session)) × (s ≡ record r { runtime_sessions = sessions })

-- What a call that can fail leaves of the runtime.
abbrev pub Leaves :
    {A : Type 0} → AssistantRuntime → (A → AssistantRuntime) → Result AssistantError A → Type 0
Leaves r after (err failure) = Unit {0}
Leaves r after (ok value) = SameTurns r (after value)

abbrev pub after_session : Session × AssistantConversation × AssistantRuntime → AssistantRuntime
after_session (session, conversation, s) = s

abbrev pub after_handoff : Text × AssistantRuntime → AssistantRuntime
after_handoff (handoff, s) = s

session_updated-Leaves :
    (mode : AssistantMode) (id : Text) (session : Session) (r : AssistantRuntime)
    (result : Result AssistantError AssistantConversation)
    → Leaves r after_session (session_updated mode id session r result)
session_updated-Leaves mode id session r (err failure) = tt
session_updated-Leaves mode id session r (ok updated) = (_, refl)

history_handoff-Leaves :
    {M : Type 0} (format : List M → Text) (conversation : AssistantConversation)
    (r s : AssistantRuntime) (history : Result GatewayError (List M))
    → SameTurns r s
    → Leaves r after_handoff (history_handoff format conversation s history)
history_handoff-Leaves format conversation r s (err failure) same = tt
history_handoff-Leaves format conversation r s (ok history) same = same

module _ {M : Type 0} (answers : Answers M) where
  session_opened-Leaves :
      (conversation : AssistantConversation) (mode : AssistantMode) (r : AssistantRuntime)
      (opened : Result GatewayError Session)
      → Leaves r after_session (session_opened answers conversation mode r opened)
  session_opened-Leaves conversation mode r (err failure) = tt
  session_opened-Leaves conversation mode r (ok session) =
      session_updated-Leaves mode conversation.id session r _

  ensure_cached-Leaves :
      (conversation : AssistantConversation) (mode : AssistantMode) (r : AssistantRuntime)
      (cached : Option Session)
      → Leaves r after_session (ensure_cached answers conversation mode r cached)
  ensure_cached-Leaves conversation mode r (some session) = (r.runtime_sessions, refl)
  ensure_cached-Leaves conversation mode r none = session_opened-Leaves conversation mode r _

  pub ensure_session-Leaves :
      (conversation : AssistantConversation) (mode : AssistantMode) (r : AssistantRuntime)
      → Leaves r after_session (ensure_session answers conversation mode r)
  unfolding ensure_session
  ensure_session-Leaves conversation mode r = ensure_cached-Leaves conversation mode r _

  source_handoff-Leaves :
      (format : List M → Text) (conversation : AssistantConversation) (r : AssistantRuntime)
      (session : Result AssistantError (Session × AssistantConversation × AssistantRuntime))
      → Leaves r after_session session
      → Leaves r after_handoff (source_handoff answers format conversation session)
  source_handoff-Leaves format conversation r (err failure) h = tt
  source_handoff-Leaves format conversation r (ok (session, updated, s)) h =
      history_handoff-Leaves format conversation r s _ h

  pub build_handoff-Leaves :
      (format : List M → Text) (conversation : AssistantConversation) (target : AssistantMode)
      (r : AssistantRuntime)
      → Leaves r after_handoff (build_handoff answers format conversation target r)
  unfolding build_handoff
  build_handoff-Leaves format conversation target r = either (
      same_mode conversation.last_mode target
      || not (has_session (conversation_session_id conversation conversation.last_mode)))
    where
      either :
          (early : Bool)
          → Leaves r after_handoff (
              if early
              then ok ([], r)
              else source_handoff answers format conversation
                  (ensure_session answers conversation conversation.last_mode r))
      either true = (r.runtime_sessions, refl)
      either false =
          source_handoff-Leaves format conversation r _
            (ensure_session-Leaves conversation conversation.last_mode r)
