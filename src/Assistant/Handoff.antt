-- ===== src/Assistant/Handoff.antt =====
-- What a turn is told of the other mode: formatHandoff, sanitizeHandoffField and truncateUTF8 of
-- backend/internal/app/assistant_runtime.go and truncateRunes of
-- backend/internal/app/assistant_http.go. A text is the list of its code points, and its size is that
-- of their UTF-8 encoding. strings.ToUpper and the regular expressions of redactHandoffSecrets come
-- in as functions.
pub mod Size
use viki.Assistant.Filter.{max_handoff_bytes}
use viki.Assistant.State.{AssistantDraftReceipt, Citation}
use viki.Prelude.{
  ℕ, zero, suc, ◌+◌, ◌-◌, Bool, true, false, List, [], ◌∷◌, ◌++◌, length, take, drop, Text, codes,
  is_space, trim_space, is_empty, ltb, leb, ◌==◌, if◌then◌else◌,
}
use viki.Tools.{AssistantMode}

abbrev pub max_handoff_messages : ℕ
max_handoff_messages = 20

pub record AssistantMessage : Type 0 where
  pub id : Text
  pub role : Text
  pub mode : AssistantMode
  pub content : Text
  pub citations : List Citation
  pub drafts : List AssistantDraftReceipt
  pub created_at : ℕ

-- The bytes of a code point
unfoldable pub rune_size : ℕ → ℕ
rune_size c = if ltb c 0x80 then 1 else if ltb c 0x800 then 2 else if ltb c 0x10000 then 3 else 4

-- len(value)
unfoldable pub byte_size : Text → ℕ
byte_size [] = 0
byte_size (c ∷ s) = rune_size c + byte_size s

-- The cut at a byte, moved back to the start of the code point that it would split.
unfoldable pub cut_at : Text → ℕ → Text
cut_at [] limit = []
cut_at (c ∷ s) limit =
    let rest = cut_at s (limit - rune_size c) in if leb (rune_size c) limit then c ∷ rest else []

unfoldable pub truncate_utf8 : Text → ℕ → Text
unfolding cut_at byte_size
truncate_utf8 value limit =
    if limit == 0 then value else if leb (byte_size value) limit then value else cut_at value limit

unfoldable pub truncate_runes : Text → ℕ → Text
truncate_runes value limit =
    if leb (length value) limit then value else take limit value ++ codes "…"

-- strings.Fields, the word read so far first
abbrev flush_word : Text → List Text → List Text
flush_word word words = if is_empty word then words else word ∷ words

abbrev fields_from : Text → Text → List Text
fields_from word [] = flush_word word []
fields_from word (c ∷ s) =
    let broken = flush_word word (fields_from [] s) in
    let longer = fields_from (word ++ (c ∷ [])) s in if is_space c then broken else longer

abbrev join_spaced : List Text → Text
join_spaced [] = []
join_spaced (w ∷ []) = w
join_spaced (w ∷ v ∷ rest) = w ++ (b' ' ∷ join_spaced (v ∷ rest))

unfoldable pub sanitize_handoff_field : Text → Text
unfolding truncate_runes is_space
sanitize_handoff_field value = truncate_runes (join_spaced (fields_from [] value)) 200

abbrev format_bool : Bool → Text
format_bool true = codes "true"
format_bool false = codes "false"

unfoldable pub citation_lines : List Citation → Text
unfolding sanitize_handoff_field
citation_lines [] = []
citation_lines (c ∷ rest) =
    codes "VIKI_RECEIPT: revisionId="
    ++ (c.revision_id
        ++ (codes " pageId="
            ++ (c.page_id
                ++ (codes " title="
                    ++ (sanitize_handoff_field c.page_title
                        ++ (codes " draft="
                            ++ (format_bool c.draft ++ (b'\n' ∷ citation_lines rest))))))))

unfoldable pub draft_lines : List AssistantDraftReceipt → Text
unfolding sanitize_handoff_field
draft_lines [] = []
draft_lines (d ∷ rest) =
    codes "DRAFT_RECEIPT: revisionId="
    ++ (d.revision_id
        ++ (codes " pageId="
            ++ (d.page_id
                ++ (codes " title="
                    ++ (sanitize_handoff_field d.page_title ++ (b'\n' ∷ draft_lines rest))))))

abbrev pub latest_first : List AssistantMessage → List AssistantMessage → List AssistantMessage
latest_first [] reversed = reversed
latest_first (m ∷ rest) reversed = latest_first rest (m ∷ reversed)

abbrev pub join_lines : List Text → Text
join_lines [] = []
join_lines (line ∷ rest) = line ++ join_lines rest

abbrev pub last_messages : List AssistantMessage → List AssistantMessage
last_messages messages =
    if ltb max_handoff_messages (length messages)
    then drop (length messages - max_handoff_messages) messages
    else messages

module _ (upper redact : Text → Text) where
  unfoldable pub handoff_line : AssistantMessage → Text
  unfolding citation_lines draft_lines
  handoff_line message = redact (
      upper message.role
      ++ (codes ": "
          ++ (trim_space message.content
              ++ (b'\n' ∷ (citation_lines message.citations ++ draft_lines message.drafts)))))

  -- The loop over the messages, the latest first; the lines are kept in the order of the messages.
  unfoldable pub handoff_lines : List AssistantMessage → ℕ → List Text → List Text
  handoff_lines [] total lines = lines
  handoff_lines (message ∷ earlier) total lines =
      let line = handoff_line message in
      let more = handoff_lines earlier (total + byte_size line) (line ∷ lines) in
      let remaining = max_handoff_bytes - total in
      if ltb max_handoff_bytes (total + byte_size line)
      then (if ltb 0 remaining then truncate_utf8 line remaining ∷ lines else lines)
      else more

  unfoldable pub format_handoff : List AssistantMessage → Text
  unfolding handoff_lines
  format_handoff messages =
      trim_space (join_lines (handoff_lines (latest_first (last_messages messages) []) 0 []))
