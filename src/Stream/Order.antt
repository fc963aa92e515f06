-- ===== src/Stream/Order.antt =====
-- The events that a stream keeps are consecutive and end with the latest one.
use Prim.Native.Nat.{◌%◌}
use viki.Prelude.{
  ℕ, ◌+◌, ◌-◌, ◌≤◌, ◌<◌, ◌≡◌, refl, Bool, true, false, List, [], ◌∷◌, ◌++◌, length, drop,
  length-append, ltb, ◌==◌, All, if◌then◌else◌, arith,
}
use viki.Stream.{
  Event, Subscriber, EventStream, send, event_of, publish, subscribe, cancel, receive, Action,
  publishing, subscribing, cancelling, receiving, act, stream_after, publications,
}
use viki.Stream.Counts.{
  CountsFrom, EndsAt, EndsAt-append, EndsAt-drop, EndsAt-keep_last, after_counts,
}

-- Each channel holds the latest events.
abbrev pub AreServed : ℕ → List Subscriber → Type 0
AreServed n = All (λ (s : Subscriber). EndsAt n s.waiting × (length s.waiting ≤ 64))

send-AreServed :
    (n : ℕ) (e : Event) (subs : List Subscriber)
    → e.id ≡ n + 1
    → AreServed n subs
    → AreServed (n + 1) (send e subs)
unfolding send
send-AreServed n e [] i h = tt
send-AreServed n e (s ∷ rest) i h =
    go (ltb (length s.waiting) 64) refl (send-AreServed n e rest i h.1)
  where
    go :
        (b : Bool)
        → ltb (length s.waiting) 64 ≡ b
        → AreServed (n + 1) (send e rest)
        → AreServed
            (n + 1)
            (if b then record s { waiting = s.waiting ++ (e ∷ []) } ∷ send e rest else send e rest)
    go true room others = (
      (EndsAt-append n s.waiting e h.0.0 i, ground (arith, room, length-append s.waiting (e ∷ []))),
      others,
    )
    go false full others = others

cancel-AreServed :
    (n channel : ℕ) (subs : List Subscriber) → AreServed n subs → AreServed n (cancel channel subs)
unfolding cancel
cancel-AreServed n channel [] h = tt
cancel-AreServed n channel (s ∷ rest) h =
    go (s.channel == channel) (cancel-AreServed n channel rest h.1)
  where
    go :
        (b : Bool)
        → AreServed n (cancel channel rest)
        → AreServed n (if b then cancel channel rest else s ∷ cancel channel rest)
    go true others = others
    go false others = (h.0, others)

drop_one :
    (n : ℕ) (es : List Event)
    → EndsAt n es × (length es ≤ 64)
    → EndsAt n (drop 1 es) × (length (drop 1 es) ≤ 64)
drop_one n [] h = h
drop_one n (e ∷ es) h = (EndsAt-drop n 1 (e ∷ es) h.0 (ground arith), ground (arith, h.1))

receive-AreServed :
    (n channel : ℕ) (subs : List Subscriber) → AreServed n subs → AreServed n (receive channel subs)
unfolding receive
receive-AreServed n channel [] h = tt
receive-AreServed n channel (s ∷ rest) h =
    (go (s.channel == channel), receive-AreServed n channel rest h.1)
  where
    go :
        (b : Bool)
        → EndsAt n (if b then record s { waiting = drop 1 s.waiting } else s).waiting
          × (length (if b then record s { waiting = drop 1 s.waiting } else s).waiting ≤ 64)
    go true = drop_one n s.waiting h.0
    go false = h.0

-- The stream's counter is the number of publications; what it keeps for replay and what each channel
-- holds are the latest events, in order and without a gap, at most 256 and 64 of them.
pub record IsInOrder (published : ℕ) (s : EventStream) : Type 0 where
  pub counted : s.next_id ≡ published
  pub replayable : EndsAt published s.replay
  pub replay_bound : length s.replay ≤ 256
  pub served : AreServed published s.subscribers

act-IsInOrder :
    (a : Action) (earlier : List Action) (s : EventStream)
    → publications (a ∷ earlier) < 18446744073709551616
    → IsInOrder (publications earlier) s
    → IsInOrder (publications (a ∷ earlier)) (act a s)
unfolding publish subscribe
act-IsInOrder (publishing kind payload) earlier s few h =
    let n = publications earlier in
    let id : (s.next_id + 1) % 18446744073709551616 ≡ n + 1 = ground (arith, h.counted, few) in
    let kept = EndsAt-keep_last (n + 1) _ (
      EndsAt-append n s.replay (event_of ((s.next_id + 1) % 18446744073709551616) kind payload)
        h.replayable id) in
    record {
      counted = id;
      replayable = kept.0;
      replay_bound = kept.1;
      served =
          send-AreServed n (event_of ((s.next_id + 1) % 18446744073709551616) kind payload)
            s.subscribers id h.served;
    }
act-IsInOrder (subscribing channel last replay_requested) earlier s few h = record {
  counted = h.counted;
  replayable = h.replayable;
  replay_bound = h.replay_bound;
  served = ((((ground arith), tt), ground arith), h.served);
}
act-IsInOrder (cancelling channel) earlier s few h = record {
  counted = h.counted;
  replayable = h.replayable;
  replay_bound = h.replay_bound;
  served = cancel-AreServed _ channel s.subscribers h.served;
}
act-IsInOrder (receiving channel) earlier s few h = record {
  counted = h.counted;
  replayable = h.replayable;
  replay_bound = h.replay_bound;
  served = receive-AreServed _ channel s.subscribers h.served;
}

-- After fewer than 2 ^ 64 publications, mixed with any subscriptions, cancellations and receives,
-- the events kept for replay and the events in each open channel are the latest ones, with
-- consecutive numbers, at most 256 and 64 of them.
pub stream_after-IsInOrder :
    (history : List Action)
    → publications history < 18446744073709551616
    → IsInOrder (publications history) (stream_after history)
stream_after-IsInOrder [] few = record {
  counted = refl;
  replayable = (ground arith, tt);
  replay_bound = ground arith;
  served = tt;
}
stream_after-IsInOrder (a ∷ earlier) few =
    act-IsInOrder a earlier (stream_after earlier) few
      (stream_after-IsInOrder earlier (fewer a few))
  where
    fewer :
        (b : Action)
        → publications (b ∷ earlier) < 18446744073709551616
        → publications earlier < 18446744073709551616
    fewer (publishing kind payload) h = ground (arith, h)
    fewer (subscribing channel last replay_requested) h = h
    fewer (cancelling channel) h = h
    fewer (receiving channel) h = h

-- In a stream that is in order, a client that comes back with the number of the last event it saw, where no later event has been
-- cut from the stream, is given every later event, in order: the first has the next number and there
-- are as many as were published since.
pub subscribe-resumes :
    (n channel last : ℕ) (s : EventStream)
    → IsInOrder n s
    → n ≤ last + length s.replay
    → last ≤ n
    → CountsFrom last (subscribe channel last true s).0
      × (length (subscribe channel last true s).0 + last ≡ n)
unfolding subscribe
subscribe-resumes n channel last s h kept seen =
    let size : length s.replay ≤ n = h.replayable.0 in
    let r =
      after_counts last (n - length s.replay) s.replay h.replayable.1 (ground (arith, kept, size))
        (ground (arith, seen, size)) in
    (r.0, ground (arith, r.1, size))
