-- ===== src/Assistant/Prompt/RoundTrip.antt =====
-- What wrapPrompt of backend/internal/app/assistant_runtime.go writes is what unwrapPrompt reads, and
-- what unwrapPrompt accepts.
use mathlib.Core.List.{append_assoc}
use viki.Assistant.Filter.{internal_prompt_start, internal_prompt_end}
use viki.Assistant.Markers.{
  index_of, later, Lacks, shift, shift-some, index_of-Lacks, index_of_self, any-Lacks,
}
use viki.Assistant.Prompt.{
  InternalPromptMetadata, newline, closing, returns, prompt_metadata, wrap_prompt, unwrap_prompt,
  check_signature,
}
use viki.Assistant.State.{AssistantTurn}
use viki.Prelude.{
  ℕ, suc, ◌+◌, ◌-◌, ◌≡◌, refl, ap, ◌∙◌, true, false, Option, some, [], ◌∷◌, ◌++◌, length, drop,
  length-append, take-append_length, drop-append_length, Text, has_prefix, text_eq_refl, is_empty,
  ltb, arith,
}

-- The encoding: it breaks no line and writes `<` as an escape.
abbrev pub IsCompact : Text → Type 0
IsCompact encoded = Lacks newline encoded × Lacks b'<' encoded

-- At the line break after the start marker the end of the metadata does not begin yet.
not_yet :
    (encoded rest : Text)
    → Lacks b'<' encoded
    → has_prefix (newline ∷ (encoded ++ (closing ++ rest))) closing ≡ false
not_yet [] rest h = refl
not_yet (c ∷ encoded) rest h = rw (h.0) refl

index_of-closing :
    (encoded rest : Text)
    → IsCompact encoded
    → index_of (newline ∷ (encoded ++ (closing ++ rest))) closing ≡ some (suc (length encoded))
index_of-closing encoded rest h =
    unfold index_of in
    rw (not_yet encoded rest h.1) (
      ap later (
        index_of-Lacks newline encoded (closing ++ rest) (internal_prompt_end ++ (newline ∷ [])) h.0
        ∙ ap (shift (length encoded)) (index_of_self closing rest)
        ∙ shift-some (length encoded) 0)
      ∙ ap (λ (k : ℕ). some k) (omega arith))

index_of-opening :
    (t : Text)
    → index_of (internal_prompt_start ++ t) closing
      ≡ shift (length internal_prompt_start) (index_of t closing)
index_of-opening t =
    index_of-Lacks newline internal_prompt_start t (internal_prompt_end ++ (newline ∷ []))
      (any-Lacks newline internal_prompt_start refl)

pub not_less : (n : ℕ) → ltb (31 + n) 31 ≡ false
not_less n = ground arith

back : (n : ℕ) → 31 + n - 31 ≡ n
back n = omega arith

module _ (marshal : InternalPromptMetadata → Text)
    (unmarshal : Text → Option InternalPromptMetadata) (sign : Text → Text) where
  envelope : Text → Text → Text
  envelope encoded content = internal_prompt_start ++ (newline ∷ (encoded ++ (closing ++ content)))

  index_of-envelope :
      (encoded content : Text)
      → IsCompact encoded
      → index_of (envelope encoded content) closing
        ≡ some (length internal_prompt_start + 1 + length encoded)
  unfolding envelope
  index_of-envelope encoded content h =
      index_of-opening _
      ∙ ap (shift (length internal_prompt_start)) (index_of-closing encoded content h)
      ∙ shift-some (length internal_prompt_start) (suc (length encoded))
      ∙ ap (λ (k : ℕ). some k) (omega arith)

  drop-envelope :
      (encoded content : Text)
      → drop
          (length internal_prompt_start + 1 + length encoded + length closing)
          (envelope encoded content)
        ≡ content
  unfolding envelope
  drop-envelope encoded content =
      let front = internal_prompt_start ++ (newline ∷ (encoded ++ closing)) in
      let size : length internal_prompt_start + 1 + length encoded + length closing ≡ length front =
        omega (arith, length-append encoded closing) in
      let whole : front ++ content
          ≡ internal_prompt_start ++ (newline ∷ (encoded ++ (closing ++ content))) =
        ap (λ (t : Text). internal_prompt_start ++ (newline ∷ t))
          (append_assoc encoded closing content) in
      rw (size, ← whole) (drop-append_length front content)

  unwrap-envelope :
      (encoded content : Text)
      → IsCompact encoded
      → unwrap_prompt marshal unmarshal sign (envelope encoded content)
        ≡ check_signature marshal unmarshal sign
            (envelope encoded content)
            content
            (unmarshal encoded)
  unfolding unwrap_prompt envelope
  unwrap-envelope encoded content h =
      rw
        (
          index_of-envelope encoded content h,
          not_less (length encoded),
          back (length encoded),
          drop-envelope encoded content,
          take-append_length encoded (closing ++ content),
        )
        refl

  -- Reading a wrapped prompt gives back the metadata and the content, whatever the content is: when
  -- the encoding of this metadata is compact and can be decoded, and its signature is not empty.
  pub unwrap_prompt-wrap_prompt :
      (turn : AssistantTurn) (content handoff : Text) (timestamp : ℕ)
      → IsCompact (marshal (prompt_metadata marshal unmarshal sign turn handoff timestamp))
      → unmarshal (marshal (prompt_metadata marshal unmarshal sign turn handoff timestamp))
        ≡ some (prompt_metadata marshal unmarshal sign turn handoff timestamp)
      → is_empty (prompt_metadata marshal unmarshal sign turn handoff timestamp).signature ≡ false
      → unwrap_prompt marshal unmarshal sign
          (wrap_prompt marshal unmarshal sign turn content handoff timestamp)
        ≡ returns (prompt_metadata marshal unmarshal sign turn handoff timestamp) content true
  unfolding wrap_prompt prompt_metadata envelope
  unwrap_prompt-wrap_prompt turn content handoff timestamp compact decoded signed =
      let m = prompt_metadata marshal unmarshal sign turn handoff timestamp in
      unwrap-envelope (marshal m) content compact
      ∙ rw (decoded, signed, text_eq_refl m.signature) refl
