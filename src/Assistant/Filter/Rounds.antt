-- ===== src/Assistant/Filter/Rounds.antt =====
-- The loop of internalStreamFilter.Feed of backend/internal/app/assistant_runtime.go against the
-- description byte by byte: what one call leaves in the buffer and what it writes.
use mathlib.Core.List.{append_assoc, append-nil}
use viki.Assistant.Filter.{max_inside, InternalStreamFilter, feed_round, feed_loop}
use viki.Assistant.Filter.Shown.{mark, seen, shown, shown_before, shown_marker}
use viki.Assistant.Markers.{
  index_of, index_of_fits, index_of-none, index_of_short, has_prefix-append, has_prefix_short,
  has_suffix-drop, longest_marker_prefix_suffix, longest_bound, longest_longest,
}
use viki.Prelude.{
  ℕ, zero, suc, ◌+◌, ◌-◌, ◌≤◌, ◌<◌, ◌≡◌, refl, sym, ap, ◌∙◌, Bool, true, false, not, inl, inr, none,
  some, [], ◌++◌, length, take, drop, length-drop, Text, has_prefix, Bool-cases, Option-cases, leb,
  ltb, if◌then◌else◌, arith,
}

abbrev filter_of : Text → Bool → InternalStreamFilter
filter_of b inside = record { buffer = b; inside = inside }

module _ (start_marker end_marker : Text) where
  abbrev marker : Bool → Text
  marker = mark start_marker end_marker

  -- How much a filter may hold back.
  abbrev pub room : Bool → ℕ
  room true = max_inside
  room false = length start_marker - 1

  -- A call that wrote `out` has passed on what may be shown, up to what the new buffer holds back,
  -- which has no marker to wait for and is short.
  pub record Fed (f g : InternalStreamFilter) (out : Text) : Type 0 where
    pub shows :
        (rest : Text)
        → shown start_marker end_marker f.inside 0 (f.buffer ++ rest)
          ≡ out ++ shown start_marker end_marker g.inside 0 (g.buffer ++ rest)
    pub quiet : index_of g.buffer (marker g.inside) ≡ none
    pub bounded : length g.buffer ≤ room g.inside

  -- No marker starts where a whole one would still fit.
  clear_inside :
      (inside : Bool) (b d : Text) (p : ℕ)
      → index_of b (marker inside) ≡ none
      → p + length (marker inside) ≤ length b
      → has_prefix (drop p b ++ d) (marker inside) ≡ false
  clear_inside inside b d p h fits =
      has_prefix-append (drop p b) d (marker inside) (omega (arith, fits, length-drop p b))
      ∙ index_of-none b (marker inside) p h

  -- Nor at the end, before the longest suffix that begins one.
  clear_outside :
      (b d : Text) (p : ℕ)
      → index_of b start_marker ≡ none
      → p < length b - longest_marker_prefix_suffix b start_marker
      → has_prefix (drop p b ++ d) start_marker ≡ false
  clear_outside b d p h before = elim (Bool-cases (leb (p + length start_marker) (length b))) [
    | inl fits ↦ clear_inside false b d p h (ground (arith, fits))
    | inr beyond ↦ elim (Bool-cases (has_prefix (drop p b ++ d) start_marker)) [
      | inr absent ↦ absent
      | inl present ↦
          let size : length (drop p b) ≡ length b - p = length-drop p b in
          let shorter : length b < p + length start_marker = ground (arith, beyond) in
          let part =
            has_prefix_short (drop p b) d start_marker (omega (arith, size, shorter)) present in
          let not_suffix =
            longest_longest b start_marker (length b - p) (omega (arith, before)) (omega arith)
              (omega (arith, shorter, before)) in
          cc (has_suffix-drop p b (omega (arith, before)), not_suffix, rw size at part)
    ]
  ]

  module _ (start_some : 0 < length start_marker) (end_some : 0 < length end_marker)
      (end_small : length end_marker ≤ max_inside) where
    inside-Fed :
        (b : Text)
        → index_of b end_marker ≡ none
        → Fed
            (filter_of b true)
            (filter_of
              (if ltb max_inside (length b) then drop (length b - (length end_marker - 1)) b else b)
              true)
            []
    inside-Fed b h = elim (Bool-cases (ltb max_inside (length b))) [
      | inl long ↦
          let larger : max_inside < length b = ground (arith, long) in
          let n : ℕ = length b - (length end_marker - 1) in
          let size : length (drop n b) ≡ length end_marker - 1 =
            omega (arith, length-drop n b, larger, end_small) in
          rw long (record {
            shows = λ rest. shown_before start_marker end_marker true n b rest (omega arith) (λ p l.
                clear_inside true b rest p h (omega (arith, l, larger, end_small, end_some)));
            quiet = index_of_short (drop n b) end_marker (omega (arith, size, end_some));
            bounded = omega (arith, size, end_small);
          })
      | inr short ↦
          rw short (record { shows = λ rest. refl; quiet = h; bounded = ground (arith, short) })
    ]

    outside-Fed :
        (b : Text)
        → index_of b start_marker ≡ none
        → (let n : ℕ = length b - longest_marker_prefix_suffix b start_marker in
            Fed (filter_of b false) (filter_of (drop n b) false) (take n b))
    outside-Fed b h =
        let n : ℕ = length b - longest_marker_prefix_suffix b start_marker in
        let size : length (drop n b) ≡ longest_marker_prefix_suffix b start_marker =
          omega (arith, length-drop n b, longest_bound b start_marker) in
        record {
          shows = λ rest.
              shown_before start_marker end_marker false n b rest (omega arith)
                (λ p l. clear_outside b rest p h l);
          quiet =
              index_of_short (drop n b) start_marker
                (omega (arith, size, start_some, longest_bound b start_marker));
          bounded = omega (arith, size, longest_bound b start_marker);
        }

    -- What a first part wrote and a second goes on from.
    Fed-step :
        (inside : Bool) (b : Text) (k : ℕ) (g : InternalStreamFilter) (out : Text)
        → 0 < length (marker inside)
        → index_of b (marker inside) ≡ some k
        → Fed (filter_of (drop (k + length (marker inside)) b) (not inside)) g out
        → Fed (filter_of b inside) g (seen inside (take k b) out)
    Fed-step inside b k g out h found fed = record {
      shows = λ rest.
          shown_marker start_marker end_marker inside b rest k h found
          ∙ ap (seen inside (take k b)) (fed.shows rest)
          ∙ seen-append inside (take k b) out _;
      quiet = fed.quiet;
      bounded = fed.bounded;
    }
      where
        seen-append :
            (inside : Bool) (t s rest : Text) → seen inside t (s ++ rest) ≡ seen inside t s ++ rest
        seen-append true t s rest = refl
        seen-append false t s rest = sym (append_assoc t s rest)

    -- With more fuel than the buffer has bytes the loop returns.
    pub feed_loop-Fed :
        (n : ℕ) (b : Text) (inside : Bool) (output : Text)
        → length b < n
        → (g : InternalStreamFilter) × (out : Text) × (feed_loop start_marker end_marker n
              (filter_of b inside)
              output
            ≡ some (g, output ++ out))
          × Fed (filter_of b inside) g out
    unfolding feed_loop feed_round index_of longest_marker_prefix_suffix
    feed_loop-Fed zero b inside output h = absurd (omega (arith, h))
    feed_loop-Fed (suc n) b true output h = elim (Option-cases (index_of b end_marker)) [
      | inl absent ↦ (_, [], rw (absent, append-nil), inside-Fed b absent)
      | inr (k, found) ↦
          let fits = index_of_fits b end_marker k found in
          let tail = drop (k + length end_marker) b in
          let less : length tail < n =
            omega (arith, h, fits, end_some, length-drop (k + length end_marker) b) in
          let (g, out, e, fed) = feed_loop-Fed n tail false output less in
          (g, out, rw found e, Fed-step true b k g out end_some found fed)
    ]
    feed_loop-Fed (suc n) b false output h = elim (Option-cases (index_of b start_marker)) [
      | inl absent ↦
          let kept : ℕ = length b - longest_marker_prefix_suffix b start_marker in
          (filter_of (drop kept b) false, take kept b, rw absent refl, outside-Fed b absent)
      | inr (k, found) ↦
          let fits = index_of_fits b start_marker k found in
          let tail = drop (k + length start_marker) b in
          let less : length tail < n =
            omega (arith, h, fits, start_some, length-drop (k + length start_marker) b) in
          let (g, out, e, fed) = feed_loop-Fed n tail true (output ++ take k b) less in
          (
            g,
            take k b ++ out,
            rw found (e ∙ rw append_assoc refl),
            Fed-step false b k g out start_some found fed,
          )
    ]
