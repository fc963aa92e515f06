-- ===== src/Assistant/Filter/Strip.antt =====
-- What stripInternalMarkers of backend/internal/app/assistant_runtime.go takes out of a text.
use viki.Assistant.Filter.{
  internal_prompt_start, internal_prompt_end, strip_round, strip_loop, strip_internal_markers,
}
use viki.Assistant.Markers.{
  index_of, index_of_fits, drop-index_of, index_of_past, differ_everywhere,
}
use viki.Prelude.{
  ℕ, zero, suc, ◌+◌, ◌≤◌, ◌<◌, ◌≡◌, refl, ap, ◌∙◌, true, ◌⊎◌, inl, inr, none, some, ◌++◌, length,
  take, drop, length-append, length-drop, length-take, take-append-drop, drop-drop, Text,
  trim_space, Option-cases, arith,
}

module _ (start_marker end_marker : Text) where
  -- A text is left when sections from a start marker to an end marker are cut out one by one.
  pub data Cut : Text → Text → Type 0 where
    whole : {s : Text} → Cut s s
    cut :
        {s t : Text} (a x b : Text)
        → s ≡ a ++ (start_marker ++ (x ++ (end_marker ++ b)))
        → Cut (a ++ b) t
        → Cut s t

  -- No start marker is left, or none that an end marker follows.
  abbrev pub Stripped : Text → Type 0
  Stripped t =
      (index_of t start_marker ≡ none)
      ⊎ ((start : ℕ) × (index_of t start_marker ≡ some start)
          × (index_of (drop start t) end_marker ≡ none))

  module _ (start_some : 0 < length start_marker)
      (apart : differ_everywhere start_marker end_marker ≡ true) where
    -- The sections of a text: before, the start marker, inside, the end marker, after.
    section_of :
        (s : Text) (start at : ℕ)
        → index_of s start_marker ≡ some start
        → index_of (drop start s) end_marker ≡ some at
        → (x : Text) × (s
            ≡ take start s
              ++ (start_marker ++ (x ++ (end_marker ++ drop (start + at + length end_marker) s))))
          × (start + at + length end_marker ≤ length s)
          × (length start_marker ≤ at)
    section_of s start at found closed =
        let from = drop-index_of s start_marker start found in
        let r = drop (start + length start_marker) s in
        let (j, sum, inner) =
          index_of_past start_marker end_marker r at apart (rw from at closed) in
        let after = drop-index_of r end_marker j inner in
        let place : start + length start_marker + (j + length end_marker)
            ≡ start + at + length end_marker =
          omega (arith, sum) in
        let tail : drop (j + length end_marker) r ≡ drop (start + at + length end_marker) s =
          drop-drop (start + length start_marker) (j + length end_marker) s
          ∙ ap (λ (n : ℕ). drop n s) place in
        let split : r ≡ take j r ++ (end_marker ++ drop (start + at + length end_marker) s) =
          take-append-drop j r
          ∙ ap (λ (t : Text). take j r ++ t) (after ∙ ap (λ (t : Text). end_marker ++ t) tail) in
        (
          take j r,
          take-append-drop start s
              ∙ ap (λ (t : Text). take start s ++ t)
                  (from ∙ ap (λ (t : Text). start_marker ++ t) split),
          omega (
            arith,
            index_of_fits (drop start s) end_marker at closed,
            index_of_fits s start_marker start found,
            length-drop start s,
          ),
          omega (arith, sum),
        )

    ends :
        (s : Text) (n : ℕ)
        → strip_round start_marker end_marker s ≡ none
        → strip_loop start_marker end_marker (suc n) s ≡ some s
    unfolding strip_loop
    ends s n h = rw (h, strip_loop) refl

    goes_on :
        (s t : Text) (n : ℕ)
        → strip_round start_marker end_marker s ≡ some t
        → strip_loop start_marker end_marker (suc n) s ≡ strip_loop start_marker end_marker n t
    unfolding strip_loop
    goes_on s t n h = ground (arith, h)

    strip_loop-Cut :
        (n : ℕ) (s : Text)
        → length s < n
        → (t : Text) × (strip_loop start_marker end_marker n s ≡ some t) × Cut s t × Stripped t
    unfolding strip_round
    strip_loop-Cut zero s h = absurd (omega (arith, h))
    strip_loop-Cut (suc n) s h = elim (Option-cases (index_of s start_marker)) [
      | inl absent ↦ (s, ends s n (rw absent refl), Cut.whole, inl absent)
      | inr (start, found) ↦ elim (Option-cases (index_of (drop start s) end_marker)) [
        | inl open_ended ↦
            (s, ends s n (rw (found, open_ended) refl), Cut.whole, inr (start, found, open_ended))
        | inr (at, closed) ↦
            let (x, split, fits, past) = section_of s start at found closed in
            let b = drop (start + at + length end_marker) s in
            let shorter : length (take start s ++ b) < n = omega (
              arith,
              h,
              fits,
              past,
              start_some,
              length-append (take start s) b,
              length-take start s,
              length-drop (start + at + length end_marker) s,
            ) in
            let (t, e, rest, done) = strip_loop-Cut n (take start s ++ b) shorter in
            (
              t,
              goes_on s _ n (rw (found, closed) refl) ∙ e,
              Cut.cut (take start s) x b split rest,
              done,
            )
      ]
    ]

-- stripInternalMarkers returns for every text. What it returns is the text with sections from a start
-- marker to an end marker cut out and the white space at both ends dropped; in what is left before
-- the trimming, there is no start marker, or no end marker follows the first one.
pub strip_internal_markers-Cut :
    (content : Text)
    → (t : Text) × (strip_internal_markers content ≡ some (trim_space t))
      × Cut internal_prompt_start internal_prompt_end content t
      × Stripped internal_prompt_start internal_prompt_end t
unfolding strip_internal_markers
strip_internal_markers-Cut content =
    let (t, e, kept, done) =
      strip_loop-Cut internal_prompt_start internal_prompt_end (omega arith) refl
        (suc (length content)) content (omega arith) in
    (t, rw e refl, kept, done)
