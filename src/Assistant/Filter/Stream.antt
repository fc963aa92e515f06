-- ===== src/Assistant/Filter/Stream.antt =====
-- What a whole stream of deltas shows, and how much internalStreamFilter of
-- backend/internal/app/assistant_runtime.go holds back.
use mathlib.Core.List.{append_assoc, append-nil}
use viki.Assistant.Filter.{
  max_handoff_bytes, InternalStreamFilter, new_filter, internal_prompt_start, internal_prompt_end,
  feed, feed_with, flush, feed_all,
}
use viki.Assistant.Filter.Rounds.{room, Fed, feed_loop-Fed}
use viki.Assistant.Filter.Shown.{mark, seen, shown, shown_before}
use viki.Assistant.Markers.{index_of, index_of-none}
use viki.Prelude.{
  ℕ, suc, ◌+◌, ◌-◌, ◌≤◌, ◌≡◌, refl, sym, ◌∙◌, Bool, true, false, none, some, List, [], ◌∷◌, ◌++◌,
  length, drop-length, take-length, Text, if◌then◌else◌, arith,
}

abbrev pub concat : List Text → Text
concat [] = []
concat (t ∷ ts) = t ++ concat ts

-- The text outside the internal contexts of Viki's markers.
abbrev pub visible : Bool → Text → Text
visible inside s = shown internal_prompt_start internal_prompt_end inside 0 s

feed-Fed :
    (f : InternalStreamFilter) (delta : Text)
    → (g : InternalStreamFilter) × (out : Text) × (feed f delta ≡ some (g, out))
      × Fed internal_prompt_start internal_prompt_end
          (record f { buffer = f.buffer ++ delta })
          g
          out
unfolding feed feed_with
feed-Fed f delta =
    feed_loop-Fed internal_prompt_start internal_prompt_end (omega arith) (omega arith)
      (omega arith) (suc (length (f.buffer ++ delta))) (f.buffer ++ delta) f.inside [] (omega arith)

-- A call of Feed returns, whatever the filter holds and whatever comes in. It then holds back less
-- than a start marker outside an internal context, and at most 6144 bytes inside.
feed_bounded :
    (f : InternalStreamFilter) (delta : Text)
    → (g : InternalStreamFilter) × (out : Text) × (feed f delta ≡ some (g, out))
      × (length g.buffer
          ≤ (if g.inside then max_handoff_bytes + 2048 else length internal_prompt_start - 1))
feed_bounded f delta =
    let (g, out, e, fed) = feed-Fed f delta in (g, out, e, room_eq g.inside fed.bounded)
  where
    room_eq :
        (inside : Bool) {n : ℕ}
        → n ≤ room internal_prompt_start internal_prompt_end inside
        → n ≤ (if inside then max_handoff_bytes + 2048 else length internal_prompt_start - 1)
    room_eq true h = h
    room_eq false h = h

shown_quiet :
    (inside : Bool) (b : Text)
    → index_of b (mark internal_prompt_start internal_prompt_end inside) ≡ none
    → visible inside b ≡ seen inside b []
unfolding shown
shown_quiet inside b quiet =
    let whole =
      shown_before internal_prompt_start internal_prompt_end inside (length b) b [] (omega arith)
        (λ p l. rw append-nil (index_of-none b _ p quiet)) in
    simp (append-nil, drop-length, take-length) at whole

-- What is left at the end holds no marker to wait for, so all of it is shown outside a context.
flush_lem :
    (b : Text) (inside : Bool)
    → index_of b (mark internal_prompt_start internal_prompt_end inside) ≡ none
    → (flush (record { buffer = b; inside = inside })).1 ≡ visible inside b
unfolding flush
flush_lem b true quiet = sym (shown_quiet true b quiet)
flush_lem b false quiet = sym (shown_quiet false b quiet ∙ append-nil b)

feed_all-visible :
    (deltas : List Text) (f : InternalStreamFilter)
    → index_of f.buffer (mark internal_prompt_start internal_prompt_end f.inside) ≡ none
    → feed_all f deltas ≡ some (visible f.inside (f.buffer ++ concat deltas))
unfolding feed_all
feed_all-visible [] f quiet = rw (flush_lem f.buffer f.inside quiet, append-nil) refl
feed_all-visible (delta ∷ deltas) f quiet =
    let (g, out, e, fed) = feed-Fed f delta in
    rw
      (
        e,
        feed_all-visible deltas g fed.quiet,
        ← append_assoc f.buffer delta (concat deltas),
        fed.shows (concat deltas),
      )
      refl

-- However a stream of text is cut into deltas, what is shown of it in total is the text outside the
-- internal contexts: each byte outside, in its order, and no byte of a context or of its markers.
pub feed_all_lem :
    (deltas : List Text) → feed_all new_filter deltas ≡ some (visible false (concat deltas))
unfolding index_of
feed_all_lem deltas = feed_all-visible deltas new_filter refl
