-- ===== src/Assistant/Filter.antt =====
-- The filter that keeps the internal context out of the assistant's stream: internalStreamFilter,
-- stripInternalMarkers and their constants of backend/internal/app/assistant_runtime.go. A string
-- is the list of its bytes; that of strip_internal_markers, which measures nothing and trims white
-- space, may be read as the list of its code points. The `for` loops are recursions on fuel, with
-- one round for each step. The rounds take the two markers as arguments; `feed` and `strip_internal_markers` put them in.
pub mod Rounds
pub mod Shown
pub mod Stream
pub mod Strip
use viki.Assistant.Markers.{index_of, longest_marker_prefix_suffix}
use viki.Prelude.Options.{◌>>=◌}
use viki.Prelude.{
  ℕ, zero, suc, ◌+◌, ◌-◌, Bool, true, false, Option, none, some, List, [], ◌∷◌, ◌++◌, length, take,
  drop, Text, codes, trim_space, ltb, if◌then◌else◌,
}

abbrev pub internal_prompt_start : Text
internal_prompt_start = codes "<<<VIKI_INTERNAL_CONTEXT_V1>>>"

abbrev pub internal_prompt_end : Text
internal_prompt_end = codes "<<<END_VIKI_INTERNAL_CONTEXT_V1>>>"

abbrev pub max_handoff_bytes : ℕ
max_handoff_bytes = 4096

-- The longest buffer that is kept whole inside an internal context.
abbrev pub max_inside : ℕ
max_inside = max_handoff_bytes + 2048

pub record InternalStreamFilter : Type 0 where
  pub buffer : Text
  pub inside : Bool

abbrev pub new_filter : InternalStreamFilter
new_filter = record { buffer = []; inside = false }

-- How one round of a loop ends: it continues, or returns.
pub data Round : Type 0 where
  continues returns : InternalStreamFilter → Text → Round

-- A round of Feed inside an internal context, by strings.Index of the end marker.
abbrev pub inside_round : Text → InternalStreamFilter → Text → Option ℕ → Round
inside_round end_marker f output none =
    returns
      (record f {
        buffer =
            if ltb max_inside (length f.buffer)
            then drop (length f.buffer - (length end_marker - 1)) f.buffer
            else f.buffer;
      })
      output
inside_round end_marker f output (some at) =
    continues (record { buffer = drop (at + length end_marker) f.buffer; inside = false }) output

-- A round outside, by strings.Index of the start marker.
abbrev pub outside_round : Text → InternalStreamFilter → Text → Option ℕ → Round
outside_round start_marker f output (some at) =
    continues (record { buffer = drop (at + length start_marker) f.buffer; inside = true })
      (output ++ take at f.buffer)
outside_round start_marker f output none =
    let keep = longest_marker_prefix_suffix f.buffer start_marker in
    returns (record f { buffer = drop (length f.buffer - keep) f.buffer })
      (output ++ take (length f.buffer - keep) f.buffer)

unfoldable pub feed_round : Text → Text → InternalStreamFilter → Text → Round
feed_round start_marker end_marker f output =
    if f.inside
    then inside_round end_marker f output (index_of f.buffer end_marker)
    else outside_round start_marker f output (index_of f.buffer start_marker)

-- The loop of Feed; none when the fuel runs out.
unfoldable pub feed_loop :
    Text → Text → ℕ → InternalStreamFilter → Text → Option (InternalStreamFilter × Text)
unfolding feed_round
feed_loop start_marker end_marker zero f output = none
feed_loop start_marker end_marker (suc n) f output =
    elim (feed_round start_marker end_marker f output) [
      | continues g shown ↦ feed_loop start_marker end_marker n g shown
      | returns g shown ↦ some (g, shown)
    ]

-- Each round but the last shortens the buffer, so its length bounds the rounds.
unfoldable pub feed_with :
    Text → Text → InternalStreamFilter → Text → Option (InternalStreamFilter × Text)
unfolding feed_loop
feed_with start_marker end_marker f delta =
    let g : InternalStreamFilter = record f { buffer = f.buffer ++ delta } in
    feed_loop start_marker end_marker (suc (length g.buffer)) g []

-- internalStreamFilter.Feed
unfoldable pub feed : InternalStreamFilter → Text → Option (InternalStreamFilter × Text)
unfolding feed_with
feed = feed_with internal_prompt_start internal_prompt_end

-- internalStreamFilter.Flush
unfoldable pub flush : InternalStreamFilter → InternalStreamFilter × Text
flush f = if f.inside then (record f { buffer = [] }, []) else (record f { buffer = [] }, f.buffer)

-- What the handling of a turn's message.delta events shows, the message.complete included.
unfoldable pub feed_all : InternalStreamFilter → List Text → Option Text
unfolding feed flush
feed_all f [] = some (flush f).1
feed_all f (delta ∷ deltas) = do
  (g, out) ← feed f delta
  rest ← feed_all g deltas
  some (out ++ rest)

-- A round of stripInternalMarkers; none where the loop ends.
abbrev cut_to : Text → Text → ℕ → Option ℕ → Option Text
cut_to end_marker content start none = none
cut_to end_marker content start (some at) =
    some (take start content ++ drop (start + at + length end_marker) content)

abbrev cut_from : Text → Text → Option ℕ → Option Text
cut_from end_marker content none = none
cut_from end_marker content (some start) =
    cut_to end_marker content start (index_of (drop start content) end_marker)

unfoldable pub strip_round : Text → Text → Text → Option Text
strip_round start_marker end_marker content =
    cut_from end_marker content (index_of content start_marker)

-- Its loop; none when the fuel runs out.
unfoldable pub strip_loop : Text → Text → ℕ → Text → Option Text
strip_loop start_marker end_marker zero content = none
strip_loop start_marker end_marker (suc n) content =
    elim (strip_round start_marker end_marker content) [
      | none ↦ some content
      | some shorter ↦ strip_loop start_marker end_marker n shorter
    ]

-- Each round but the last shortens the content.
unfoldable pub strip_internal_markers : Text → Option Text
unfolding strip_loop
strip_internal_markers content = do
  kept ← strip_loop internal_prompt_start internal_prompt_end (suc (length content)) content
  some (trim_space kept)
