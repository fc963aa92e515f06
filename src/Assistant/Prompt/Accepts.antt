-- ===== src/Assistant/Prompt/Accepts.antt =====
-- What unwrapPrompt of backend/internal/app/assistant_runtime.go accepts, and when it panics.
use viki.Assistant.Filter.{internal_prompt_start, internal_prompt_end}
use viki.Assistant.Markers.{
  index_of, index_of_fits, index_of-first, drop-index_of, has_prefix_split, has_prefix-append_left,
}
use viki.Assistant.Prompt.{
  InternalPromptMetadata, newline, opening, closing, Unwrapped, panics, returns, unwrap_prompt,
  unwrap_to, check_signature, no_metadata,
}
use viki.Prelude.{
  ℕ, ◌+◌, ◌-◌, ◌≤◌, ◌<◌, ◌≡◌, refl, sym, ap, ◌∙◌, ◌↔◌, Bool, true, false, inl, inr, Option, none,
  some, [], ◌∷◌, ◌++◌, length, length-drop, length-take, take, drop, take-append-drop, drop-drop,
  Text, has_prefix, text_eq, text_eq→≡, is_empty, Bool-cases, Option-cases, ltb, arith,
}
use viki.Assistant.Prompt.RoundTrip.{not_less}

not_valid :
    (content : Text) (m : InternalPromptMetadata) (visible : Text)
    → returns no_metadata content false ≡ returns m visible true
    → ⊥
not_valid content m visible h = cc

not_panics : (m : InternalPromptMetadata) (visible : Text) → panics ≡ returns m visible true → ⊥
not_panics m visible h = cc

returns_injective :
    {m n : InternalPromptMetadata} {s t : Text} {a b : Bool}
    → returns m s a ≡ returns n t b
    → (m ≡ n) × (s ≡ t)
returns_injective h = (cc, cc)

-- The slices that unwrapPrompt takes make up the text.
slices :
    (content : Text) (end : ℕ)
    → has_prefix content opening ≡ true
    → index_of content closing ≡ some end
    → 31 ≤ end
    → content
      ≡ opening
        ++ (take (end - 31) (drop 31 content) ++ (closing ++ drop (end + length closing) content))
slices content end opened found fits =
    let place : 31 + (end - 31) ≡ end = omega (arith, fits) in
    let tail : drop (end - 31) (drop 31 content) ≡ closing ++ drop (end + length closing) content =
      drop-drop 31 (end - 31) content
      ∙ ap (λ (n : ℕ). drop n content) place
      ∙ drop-index_of content closing end found in
    has_prefix_split content opening opened
    ∙ ap (λ (t : Text). opening ++ t)
        (take-append-drop (end - 31) (drop 31 content)
          ∙ ap (λ (t : Text). take (end - 31) (drop 31 content) ++ t) tail)

-- The opening and the encoding end where the ending was found.
encoded_ends :
    (content : Text) (end : ℕ)
    → index_of content closing ≡ some end
    → 31 ≤ end
    → length opening + length (take (end - 31) (drop 31 content)) ≡ end
encoded_ends content end found fits =
    let bound = index_of_fits content closing end found in
    let rest = length-drop 31 content in
    omega (
      arith,
      fits,
      bound,
      rest,
      length-take (end - 31) (drop 31 content) (omega (arith, fits, bound, rest)),
    )

abbrev panicking : Unwrapped → Bool
panicking panics = true
panicking (returns _ _ _) = false

panicking-panics : (u : Unwrapped) → panicking u ≡ true → u ≡ panics
panicking-panics panics h = refl
panicking-panics (returns _ _ _) h = cc

module _ (marshal : InternalPromptMetadata → Text)
    (unmarshal : Text → Option InternalPromptMetadata) (sign : Text → Text) where
  check_signature_lem :
      (content after : Text) (m : InternalPromptMetadata) (visible : Text)
      (o : Option InternalPromptMetadata)
      → check_signature marshal unmarshal sign content after o ≡ returns m visible true
      → (m.signature ≡ sign (marshal (record m { signature = [] })))
        × (is_empty m.signature ≡ false)
        × (o ≡ some m)
        × (after ≡ visible)
  check_signature_lem content after m visible none h = absurd (not_valid content m visible h)
  check_signature_lem content after m visible (some n) h =
      elim (Bool-cases (is_empty n.signature)) [
        | inl empty ↦ absurd (not_valid content m visible (rw empty at h))
        | inr nonempty ↦
            let expected = sign (marshal (record n { signature = [] })) in
            elim (Bool-cases (text_eq n.signature expected)) [
              | inr wrong ↦ absurd (not_valid content m visible (rw (nonempty, wrong) at h))
              | inl right ↦
                  let (same, seen) = returns_injective (rw (nonempty, right) at h) in
                  (
                    rw (← same) (text_eq→≡ n.signature expected right),
                    rw (← same) nonempty,
                    ap (λ (x : InternalPromptMetadata). some x) same,
                    seen,
                  )
            ]
      ]

  -- Only a text with a signature of its own metadata is accepted: an opening, an encoding of the
  -- metadata, an ending and the visible text, where no ending starts before that one.
  pub unwrap_prompt_signed :
      (content : Text) (m : InternalPromptMetadata) (visible : Text)
      → unwrap_prompt marshal unmarshal sign content ≡ returns m visible true
      → (m.signature ≡ sign (marshal (record m { signature = [] })))
        × (is_empty m.signature ≡ false)
        × ((encoded : Text) × (unmarshal encoded ≡ some m)
            × (content ≡ opening ++ (encoded ++ (closing ++ visible)))
            × ((p : ℕ)
                → p < length opening + length encoded
                → has_prefix (drop p content) closing ≡ false))
  unfolding unwrap_prompt
  unwrap_prompt_signed content m visible h = elim (Bool-cases (has_prefix content opening)) [
    | inr other ↦ absurd (not_valid content m visible (rw other at h))
    | inl opened ↦ elim (Option-cases (index_of content closing)) [
      | inl absent ↦ absurd (not_valid content m visible (rw (opened, absent) at h))
      | inr (end, found) ↦ elim (Bool-cases (ltb end 31)) [
        | inl early ↦ absurd (not_panics m visible (rw (opened, found, early) at h))
        | inr fits ↦
            let (signature, some_signature, decoded, rest) =
              check_signature_lem content (drop (end + length closing) content) m visible
                (unmarshal (take (end - 31) (drop 31 content))) (rw (opened, found, fits) at h) in
            (
              signature,
              some_signature,
              (
                take (end - 31) (drop 31 content),
                decoded,
                rw (← rest) (slices content end opened found (ground (arith, fits))),
                λ p before.
                    index_of-first content closing end p found (
                      omega (arith, before, encoded_ends content end found (ground (arith, fits)))),
              ),
            )
      ]
    ]
  ]

  panicking-check_signature :
      (content after : Text) (o : Option InternalPromptMetadata)
      → panicking (check_signature marshal unmarshal sign content after o) ≡ false
  panicking-check_signature content after none = refl
  panicking-check_signature content after (some n) = ground arith

  panicking-unwrap_to :
      (content : Text) (j : ℕ)
      → panicking (unwrap_to marshal unmarshal sign content (some (31 + j))) ≡ false
  panicking-unwrap_to content j = rw (not_less j) (panicking-check_signature content _ _)

  panicking_opened :
      (r : Text)
      → panicking (unwrap_prompt marshal unmarshal sign (opening ++ r))
        ≡ has_prefix (opening ++ r) (internal_prompt_start ++ closing)
  unfolding unwrap_prompt index_of
  panicking_opened r = elim (Bool-cases (has_prefix (newline ∷ r) closing)) [
    | inl here ↦ rw here refl
    | inr later_on ↦ rw later_on (elim (Option-cases (index_of r closing)) [
      | inl absent ↦ rw absent refl
      | inr (j, found) ↦ rw found (
          ap (λ (k : ℕ). panicking (unwrap_to marshal unmarshal sign (opening ++ r) (some k)))
            (omega arith)
          ∙ panicking-unwrap_to (opening ++ r) j)
    ])
  ]

  panicking-unwrap_prompt :
      (content : Text)
      → panicking (unwrap_prompt marshal unmarshal sign content)
        ≡ has_prefix content (internal_prompt_start ++ closing)
  unfolding unwrap_prompt
  panicking-unwrap_prompt content = elim (Bool-cases (has_prefix content opening)) [
    | inl opened ↦ rw (has_prefix_split content opening opened) (panicking_opened _)
    | inr other ↦ elim (Bool-cases (has_prefix content (internal_prompt_start ++ closing))) [
      | inl both ↦ cc (
        other,
        has_prefix-append_left content opening (internal_prompt_end ++ (newline ∷ [])) both,
      )
      | inr neither ↦ rw (other, neither) refl
    ]
  ]

  -- The slice of the metadata is out of range exactly when the end marker's line follows the start marker's line at once.
  pub unwrap_prompt_panics :
      (content : Text)
      → (unwrap_prompt marshal unmarshal sign content ≡ panics)
        ↔ (has_prefix content (internal_prompt_start ++ closing) ≡ true)
  unwrap_prompt_panics content =
      let same = panicking-unwrap_prompt content in
      let u = unwrap_prompt marshal unmarshal sign content in
      (λ h. sym same ∙ ap panicking h, λ h. panicking-panics u (same ∙ h))
