-- ===== src/Tests/Stream.antt =====
-- A stream with a reader and three events.
use viki.Prelude.{◌+◌, ◌≡◌, refl, true, List, [], ◌∷◌, codes, length, arith}
use viki.Stream.{
  Action, publishing, subscribing, receiving, stream_after, publications, subscribe, publish, send,
  receive,
}
use viki.Stream.Counts.{CountsFrom}
use viki.Stream.Order.{IsInOrder, stream_after-IsInOrder, subscribe-resumes}

abbrev sample_history : List Action
sample_history =
    publishing (codes "done") []
    ∷ receiving 5
    ∷ publishing (codes "text") (codes "b")
    ∷ publishing (codes "text") (codes "a")
    ∷ subscribing 5 0 true
    ∷ []

stream_after-IsInOrder_example :
    IsInOrder (publications sample_history) (stream_after sample_history)
stream_after-IsInOrder_example = stream_after-IsInOrder sample_history (ground arith)

three_kept : length (stream_after sample_history).replay ≡ 3
unfolding publish subscribe send receive
three_kept = refl

subscribe-resumes_example :
    CountsFrom 1 (subscribe 6 1 true (stream_after sample_history)).0
    × (length (subscribe 6 1 true (stream_after sample_history)).0 + 1
        ≡ publications sample_history)
subscribe-resumes_example =
    subscribe-resumes (publications sample_history) 6 1 (stream_after sample_history)
      (stream_after-IsInOrder sample_history (ground arith)) (ground (arith, three_kept))
      (ground arith)
