-- ===== src/Assistant/Handoff/Size.antt =====
-- How large the text of formatHandoff of backend/internal/app/assistant_runtime.go can be.
use viki.Assistant.Filter.{max_handoff_bytes}
use viki.Assistant.Handoff.{
  AssistantMessage, byte_size, rune_size, cut_at, truncate_utf8, handoff_line, handoff_lines,
  latest_first, join_lines, last_messages, format_handoff,
}
use viki.Prelude.{
  ℕ, ◌+◌, ◌-◌, ◌≤◌, ◌≡◌, inl, inr, List, [], ◌∷◌, ◌++◌, Text, trim_left, trim_right, trim_space,
  keep_or_drop, Bool-cases, ltb, arith,
}

byte_size-append : (s t : Text) → byte_size (s ++ t) ≡ byte_size s + byte_size t
unfolding byte_size
byte_size-append [] t = omega arith
byte_size-append (c ∷ s) t = omega (arith, byte_size-append s t)

cut_at_size : (s : Text) (limit : ℕ) → byte_size (cut_at s limit) ≤ limit
unfolding byte_size cut_at
cut_at_size [] limit = omega arith
cut_at_size (c ∷ s) limit = ground (arith, cut_at_size s (limit - rune_size c))

-- A text that is cut to a limit of at least one byte fits into it.
truncate_utf8_size : (s : Text) (limit : ℕ) → 1 ≤ limit → byte_size (truncate_utf8 s limit) ≤ limit
unfolding truncate_utf8
truncate_utf8_size s limit h = ground (arith, cut_at_size s limit)

trim_left_size : (s : Text) → byte_size (trim_left s) ≤ byte_size s
unfolding byte_size trim_left
trim_left_size [] = omega arith
trim_left_size (c ∷ s) = ground (arith, trim_left_size s)

keep_or_drop_size : (c : ℕ) (s : Text) → byte_size (keep_or_drop c s) ≤ rune_size c + byte_size s
unfolding byte_size
keep_or_drop_size c [] = ground arith
keep_or_drop_size c (d ∷ s) = omega arith

trim_right_size : (s : Text) → byte_size (trim_right s) ≤ byte_size s
unfolding byte_size trim_right
trim_right_size [] = omega arith
trim_right_size (c ∷ s) = omega (arith, keep_or_drop_size c (trim_right s), trim_right_size s)

trim_space_size : (s : Text) → byte_size (trim_space s) ≤ byte_size s
unfolding trim_space
trim_space_size s = omega (arith, trim_right_size (trim_left s), trim_left_size s)

module _ (upper redact : Text → Text) where
  joined_size : List Text → ℕ
  joined_size lines = byte_size (join_lines lines)

  handoff_lines_size :
      (messages : List AssistantMessage) (total : ℕ) (lines : List Text)
      → joined_size lines ≤ total
      → total ≤ max_handoff_bytes
      → joined_size (handoff_lines upper redact messages total lines) ≤ max_handoff_bytes
  unfolding joined_size handoff_lines byte_size
  handoff_lines_size [] total lines h fits = omega (arith, h, fits)
  handoff_lines_size (message ∷ earlier) total lines h fits =
      let line = handoff_line upper redact message in
      elim (Bool-cases (ltb max_handoff_bytes (total + byte_size line))) [
        | inr under ↦ rw under (
            handoff_lines_size earlier (total + byte_size line) (line ∷ lines)
              (omega (arith, h, byte_size-append line (join_lines lines))) (ground (arith, under)))
        | inl over ↦ rw over (elim (Bool-cases (ltb 0 (max_handoff_bytes - total))) [
          | inl some_left ↦
              let left = max_handoff_bytes - total in
              rw some_left (
                omega (
                  arith,
                  h,
                  fits,
                  byte_size-append (truncate_utf8 line left) (join_lines lines),
                  truncate_utf8_size line left (ground (arith, some_left)),
                ))
          | inr none_left ↦ rw none_left (omega (arith, h, fits))
        ])
      ]

  -- The text of a handoff takes at most 4096 bytes, whatever the messages hold and whatever the
  -- redaction of secrets makes of them.
  pub format_handoff_size :
      (messages : List AssistantMessage)
      → byte_size (format_handoff upper redact messages) ≤ max_handoff_bytes
  unfolding format_handoff byte_size joined_size
  format_handoff_size messages =
      let latest = latest_first (last_messages messages) [] in
      let lines = handoff_lines upper redact latest 0 [] in
      omega (
        arith,
        trim_space_size (join_lines lines),
        handoff_lines_size latest 0 [] (omega arith) (omega arith),
      )
