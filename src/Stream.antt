-- ===== src/Stream.antt =====
-- The event stream of a conversation: assistantEventStream of
-- backend/internal/app/assistant_runtime.go. Its mutex makes each method one step. A subscriber is a
-- channel with the events it holds, at most 64; the counter has 64 bits.
pub mod Counts
pub mod Order
use Prim.Native.Nat.{◌%◌}
use viki.Prelude.{
  ℕ, ◌+◌, ◌-◌, Bool, true, false, not, ◌&&◌, List, [], ◌∷◌, ◌++◌, Text, length, drop, ltb, ◌==◌,
  if◌then◌else◌,
}

abbrev pub max_replay_events : ℕ
max_replay_events = 256

abbrev pub channel_size : ℕ
channel_size = 64

abbrev pub uint64_size : ℕ
uint64_size = 18446744073709551616

-- assistantPublicEvent; the data is text, as the encoding of it.
pub record Event : Type 0 where
  pub id : ℕ
  pub kind : Text
  pub payload : Text

pub record Subscriber : Type 0 where
  pub channel : ℕ
  pub waiting : List Event

pub record EventStream : Type 0 where
  pub next_id : ℕ
  pub replay : List Event
  pub subscribers : List Subscriber

abbrev pub new_stream : EventStream
new_stream = record { next_id = 0; replay = []; subscribers = [] }

-- The send of an event to each subscriber; one whose channel is full is deleted.
unfoldable pub send : Event → List Subscriber → List Subscriber
send e [] = []
send e (s ∷ rest) =
    let others = send e rest in
    if ltb (length s.waiting) channel_size
    then record s { waiting = s.waiting ++ (e ∷ []) } ∷ others
    else others

-- s.replay = append(s.replay, event), cut to the last events
abbrev pub keep_last : List Event → List Event
keep_last events =
    if ltb max_replay_events (length events)
    then drop (length events - max_replay_events) events
    else events

abbrev pub event_of : ℕ → Text → Text → Event
event_of id kind payload = record { id = id; kind = kind; payload = payload }

unfoldable pub publish : Text → Text → EventStream → EventStream
publish kind payload s =
    let id = (s.next_id + 1) % uint64_size in
    record {
      next_id = id;
      replay = keep_last (s.replay ++ (event_of id kind payload ∷ []));
      subscribers = send (event_of id kind payload) s.subscribers;
    }

unfoldable pub after_id : ℕ → List Event → List Event
after_id last [] = []
after_id last (e ∷ rest) =
    let others = after_id last rest in if ltb last e.id then e ∷ others else others

-- The events to replay, and the stream with the new channel.
unfoldable pub subscribe : ℕ → ℕ → Bool → EventStream → List Event × EventStream
subscribe channel last replay_requested s =
    let from = if replay_requested then last else s.next_id in
    (
      after_id from s.replay,
      record s { subscribers = record { channel = channel; waiting = [] } ∷ s.subscribers },
    )

-- The function that subscribe returns.
unfoldable pub cancel : ℕ → List Subscriber → List Subscriber
cancel channel [] = []
cancel channel (s ∷ rest) =
    let others = cancel channel rest in if s.channel == channel then others else s ∷ others

-- A receive from the channel takes its first event.
unfoldable pub receive : ℕ → List Subscriber → List Subscriber
receive channel [] = []
receive channel (s ∷ rest) =
    let others = receive channel rest in
    (if s.channel == channel then record s { waiting = drop 1 s.waiting } else s) ∷ others

pub data Action : Type 0 where
  publishing : Text → Text → Action
  subscribing : ℕ → ℕ → Bool → Action
  cancelling receiving : ℕ → Action

abbrev pub act : Action → EventStream → EventStream
act (publishing kind payload) s = publish kind payload s
act (subscribing channel last replay_requested) s = (subscribe channel last replay_requested s).1
act (cancelling channel) s = record s { subscribers = cancel channel s.subscribers }
act (receiving channel) s = record s { subscribers = receive channel s.subscribers }

-- The stream after a history of actions, the latest first.
abbrev pub stream_after : List Action → EventStream
stream_after [] = new_stream
stream_after (a ∷ earlier) = act a (stream_after earlier)

abbrev pub publications : List Action → ℕ
publications [] = 0
publications (publishing _ _ ∷ earlier) = publications earlier + 1
publications (_ ∷ earlier) = publications earlier
