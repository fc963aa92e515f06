-- ===== src/Tests/Assistant.antt =====
-- Turns of the assistant.
use viki.Assistant.Markers.{has_suffix}
use viki.Assistant.State.{
  AssistantConversation, Session, AssistantTurn, AssistantRuntime, new_assistant_runtime, error,
  publish, conversation_session_id,
}
use viki.Assistant.Turns.{
  new_turn, begin_turn, finish_turn, attach_session, active_grant, file_turn,
}
use viki.Assistant.Turns.Closed.{Closed, handle_gateway_event-Closed}
use viki.Assistant.Turns.Cases.{Event, Decoders}
use viki.Assistant.Turns.Events.{handle_gateway_event}
use viki.Assistant.Turns.Reachable.{
  Reachable, started, submitted, Reachable-IsConsistent, active_grant_lem, attach_session-finished,
}
use viki.Assistant.Turns.Sessions.{Answers, ensure_session, build_handoff}
use viki.Assistant.Turns.Submit.{submit}
use viki.Assistant.Turns.Submitted.{Submitted, submit-Submitted}
use viki.Prelude.{
  ℕ, ◌≡◌, refl, true, false, inl, none, some, List, [], Text, codes, trim_space, trim_left,
  trim_right, is_space, lookup, insert, adjust, find_key, put_key, drop_key, ok,
}
use viki.Tools.{qa, assistant_session_key}

abbrev conversation : AssistantConversation
conversation = record {
  id = codes "c1";
  organization_id = codes "o1";
  user_id = codes "u1";
  qa_session_id = none;
  edit_session_id = none;
  last_mode = qa;
  qa_handoff_cursor = 0;
  edit_handoff_cursor = 0;
}

abbrev pub turn : AssistantTurn
turn = new_turn conversation qa (codes "sk") (codes "t1")

abbrev session : Session
session = record { runtime_id = codes "r1"; stored_id = codes "s1" }

-- A gateway that answers every call.
abbrev answers : Answers ℕ
answers = record {
  has_gateway = true;
  created = λ mode. ok session;
  resumed = λ mode stored. ok session;
  history = λ mode. ok [];
  submitted = λ prompt. ok tt;
  interrupted = ok tt;
  responded = ok tt;
  session_saved = λ mode. true;
  mode_updated = true;
}

abbrev format : List ℕ → Text
format messages = []

abbrev wrap : AssistantTurn → Text → Text → Text
wrap u content handoff = content

running_turn : AssistantRuntime
unfolding submit
running_turn =
    (submit answers format wrap conversation qa (codes "t1") (codes "ahoj") (codes "sk")
      new_assistant_runtime).1

running_turn-Reachable : Reachable ℕ running_turn
unfolding running_turn
running_turn-Reachable =
    submitted started answers format wrap conversation qa (codes "t1") (codes "ahoj") (codes "sk")

attached_turn : AssistantTurn
attached_turn = record turn { runtime_id = codes "r1"; stored_id = codes "s1" }

submit-Submitted_example : Submitted conversation qa new_assistant_runtime (
    submit answers format wrap conversation qa
      (codes "t1")
      (codes "ahoj")
      (codes "sk")
      new_assistant_runtime)
submit-Submitted_example =
    submit-Submitted answers format wrap conversation new_assistant_runtime qa (codes "t1")
      (codes "ahoj") (codes "sk") (Reachable-IsConsistent {M = ℕ} started)

running_grant : active_grant qa (codes "s1") running_turn ≡ some 0
unfolding running_turn submit begin_turn ensure_session build_handoff conversation_session_id
    attach_session publish active_grant find_key put_key drop_key lookup insert adjust trim_space
    trim_left trim_right is_space assistant_session_key
running_grant = refl

running_stored : lookup 0 running_turn.turns ≡ some attached_turn
unfolding running_turn attached_turn submit begin_turn ensure_session build_handoff
    conversation_session_id attach_session publish find_key put_key drop_key lookup insert adjust
    trim_space trim_left trim_right is_space assistant_session_key
running_stored = refl

running_filed :
    find_key (assistant_session_key qa (codes "r1")) running_turn.active_by_runtime ≡ some 0
unfolding running_turn submit begin_turn ensure_session build_handoff conversation_session_id
    attach_session publish find_key put_key drop_key lookup insert adjust trim_space trim_left
    trim_right is_space assistant_session_key
running_filed = refl

active_grant_lem_example :
    (u : AssistantTurn) × (lookup 0 running_turn.turns ≡ some u)
    × (u.mode ≡ qa)
    × (u.stored_id ≡ codes "s1")
    × (u.finalized ≡ false)
    × (find_key u.conversation_id running_turn.active_by_conversation ≡ some 0)
active_grant_lem_example = active_grant_lem running_turn-Reachable qa (codes "s1") 0 running_grant

abbrev decode : Decoders
decode = record {
  delta = λ payload. some (payload, false);
  completion = λ payload. (payload, []);
  clarify = λ payload. none;
  session_info = λ payload. none;
  tool = λ payload. some (payload, []);
  quoted = λ payload. none;
  result_field = λ payload. none;
  tree = λ payload. none;
  drafts = λ payload. none;
}

abbrev sudo_request : Event
sudo_request = record { kind = codes "sudo.request"; session_id = codes "r1"; payload = [] }

sudo_is_request : has_suffix (codes "sudo.request") (codes ".request") ≡ true
unfolding has_suffix
sudo_is_request = refl

handle_gateway_event-Closed_example :
    Closed (codes "c1") 0 (handle_gateway_event decode true qa sudo_request running_turn)
unfolding attached_turn
handle_gateway_event-Closed_example =
    handle_gateway_event-Closed decode true qa sudo_request running_turn 0 attached_turn
      (Reachable-IsConsistent running_turn-Reachable) running_filed running_stored
      (inl (sudo_is_request, refl))

-- The turn begins, is finished by another goroutine, and only then gets its session.
begun_turn : AssistantRuntime
begun_turn = finish_turn 0 error (file_turn turn new_assistant_runtime)

abbrev finished_turn : AssistantTurn
finished_turn = record turn { finalized = true }

begun_stored : lookup 0 begun_turn.turns ≡ some finished_turn
unfolding begun_turn finish_turn lookup insert adjust find_key put_key
begun_stored = refl

attach_session-finished_example :
    active_grant qa (codes "s1") (finish_turn 0 error (attach_session 0 qa session begun_turn))
    ≡ some 0
attach_session-finished_example =
    attach_session-finished 0 finished_turn session begun_turn error begun_stored refl
