-- ===== src/Pages/Render.antt =====
-- renderStepExpression of pages_write.go: a step's expression with its parameters filled in.
-- strconv.Quote asks Unicode's tables which characters print; above the Latin-1 range that table is
-- the parameter `prints`.
pub mod Filled
use Prim.Native.Nat.{◌/◌, ◌%◌}
use viki.Prelude.{
  ℕ, zero, suc, ◌+◌, ◌*◌, ◌-◌, Bool, false, not, ◌&&◌, ◌||◌, List, [], ◌∷◌, ◌++◌, Option, none,
  some, Text, codes, has_prefix, trim_space, any, length, leb, ltb, ◌==◌, if◌then◌else◌, Result, ok,
  err, ◌>>=◌, ◌>>◌, reject_if,
}

pub data Parameter : Type 0 where
  string_parameter int_parameter word_parameter : Parameter

pub data Piece : Type 0 where
  char : ℕ → Piece
  hole : Parameter → Piece

pub data RenderError : Type 0 where
  parameter_count unsupported_parameter : RenderError
  not_integer not_one_word : ℕ → RenderError

-- The parameter that the pattern \{(string|int|word)\} matches here, with the length of its text.
abbrev pub parameter_at : Text → Option (Parameter × ℕ)
parameter_at s =
    if has_prefix s (codes "{string}")
    then some (string_parameter, 8)
    else if has_prefix s (codes "{int}")
    then some (int_parameter, 5)
    else if has_prefix s (codes "{word}")
    then some (word_parameter, 6)
    else none

-- FindAllStringSubmatchIndex, leftmost first and without overlaps: the expression in pieces. The
-- first argument counts the characters left of a match that is already recorded.
unfoldable pub pieces : ℕ → Text → List Piece
pieces skip [] = []
pieces (suc skip) (c ∷ s) = pieces skip s
pieces zero (c ∷ s) = elim (parameter_at (c ∷ s)) [
  | none ↦ char c ∷ pieces zero s
  | some (p, size) ↦ hole p ∷ pieces (size - 1) s
]

unfoldable pub holes : List Piece → ℕ
holes [] = 0
holes (char _ ∷ ps) = holes ps
holes (hole _ ∷ ps) = suc (holes ps)

-- strconv.Atoi: an optional sign and decimal digits, within 64 bits.
abbrev digits_value : ℕ → Text → Option ℕ
digits_value acc [] = some acc
digits_value acc (c ∷ s) =
    let rest = digits_value (acc * 10 + (c - b'0')) s in
    if leb b'0' c && leb c b'9' then rest else none

abbrev within : ℕ → Option ℕ → Bool
within limit none = false
within limit (some v) = leb v limit

abbrev number_within : ℕ → Text → Bool
number_within limit [] = false
number_within limit (c ∷ s) = within limit (digits_value 0 (c ∷ s))

unfoldable pub is_integer : Text → Bool
is_integer [] = false
is_integer (c ∷ s) =
    if c == b'-'
    then number_within 9223372036854775808 s
    else if c == b'+'
    then number_within 9223372036854775807 s
    else number_within 9223372036854775807 (c ∷ s)

-- value == "" || strings.ContainsAny(value, " \t\r\n")
unfoldable pub is_one_word : Text → Bool
is_one_word [] = false
is_one_word (c ∷ s) = not (any (λ d. d == 32 || d == 9 || d == 13 || d == 10) (c ∷ s))

abbrev hex_digit : ℕ → ℕ
hex_digit d = if ltb d 10 then d + b'0' else d - 10 + b'a'

-- The lowest `n` hexadecimal digits, the highest first.
abbrev hex : ℕ → ℕ → Text
hex zero v = []
hex (suc n) v = hex n (v / 16) ++ hex_digit (v % 16) ∷ []

-- strings.ContainsAny(s, "{}")
unfoldable pub has_brace : Text → Bool
has_brace s = any (λ c. c == b'{' || c == b'}') s

module _ (prints : ℕ → Bool) where
  -- strconv.IsPrint
  abbrev is_print : ℕ → Bool
  is_print c =
      if leb c 0xff then leb 0x20 c && ltb c 0x7f || leb 0xa1 c && not (c == 0xad) else prints c

  -- One rune of strconv.Quote.
  unfoldable pub quote_rune : ℕ → Text
  quote_rune c =
      if c == b'"' || c == 92
      then 92 ∷ c ∷ []
      else if is_print c
      then c ∷ []
      else if c == 7
      then codes "\\a"
      else if c == 8
      then codes "\\b"
      else if c == 12
      then codes "\\f"
      else if c == 10
      then codes "\\n"
      else if c == 13
      then codes "\\r"
      else if c == 9
      then codes "\\t"
      else if c == 11
      then codes "\\v"
      else if ltb c 32 || c == 0x7f
      then codes "\\x" ++ hex 2 c
      else if ltb c 0x10000
      then codes "\\u" ++ hex 4 c
      else codes "\\U" ++ hex 8 c

  unfoldable pub quote_runes : Text → Text
  quote_runes [] = codes "\""
  quote_runes (c ∷ s) = quote_rune c ++ quote_runes s

  -- strconv.Quote
  unfoldable pub quote : Text → Text
  quote s = b'"' ∷ quote_runes s

  -- The text of one parameter; `index` is its position from 0.
  unfoldable pub fill : ℕ → Parameter → Text → Result RenderError Text
  fill index string_parameter value = ok (quote value)
  fill index int_parameter value =
      if is_integer value then ok value else err (not_integer (index + 1))
  fill index word_parameter value =
      if is_one_word value then ok value else err (not_one_word (index + 1))

  -- The loop over the matches, with the text between them.
  unfoldable pub render_pieces : ℕ → List Piece → List Text → Result RenderError Text
  render_pieces index [] arguments = ok []
  render_pieces index (char c ∷ ps) arguments = do
    rest ← render_pieces index ps arguments
    ok (c ∷ rest)
  render_pieces index (hole p ∷ ps) [] = err parameter_count
  render_pieces index (hole p ∷ ps) (value ∷ arguments) = do
    here ← fill index p value
    rest ← render_pieces (index + 1) ps arguments
    ok (here ++ rest)

  unfoldable pub render_step_expression : Text → List Text → Result RenderError Text
  render_step_expression expression arguments = do
    reject_if (not (holes (pieces 0 expression) == length arguments)) parameter_count
    rendered ← render_pieces 0 (pieces 0 expression) arguments
    reject_if (has_brace rendered) unsupported_parameter
    ok (trim_space rendered)
