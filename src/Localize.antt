-- ===== src/Localize.antt =====
-- The translation of approved specifications: Step, Validate, protected and markdownDestination of
-- backend/internal/localize/localize.go. A text is the list of its code points. What the regular
-- expressions find (all tokens, and the ends of all matches) and what the translator and the store
-- answer comes in as arguments.
pub mod Kept
use viki.Assistant.Handoff.{byte_size}
use viki.Assistant.Receipts.{sorted}
use viki.Prelude.{
  ℕ, zero, suc, ◌+◌, ◌-◌, Bool, true, false, not, ◌&&◌, ◌||◌, Option, none, some, List, [], ◌∷◌,
  ◌++◌, length, drop, Text, codes, text_eq, is_empty, is_blank, ltb, ◌==◌, if◌then◌else◌, Result,
  ok, err, reject_if, ◌>>=◌, ◌>>◌,
}

-- A nil slice of steps is none.
pub record Content : Type 0 where
  pub title : Text
  pub body_md : Text
  pub step_texts : Option (List Text)

pub record Job : Type 0 where
  pub revision_id : Text
  pub source_hash : Text
  pub lease : Text
  pub source : Content

abbrev pub policy_version : Text
policy_version = codes "sk-v2"

pub data LocalizeError : Type 0 where
  translation_failed invalid_structure changed_protected : LocalizeError
  store_failed : LocalizeError

abbrev is_space_mark : ℕ → Bool
is_space_mark c = c == b' ' || c == b'\t' || c == b'\r' || c == b'\n'

-- The loop of markdownDestination in angle brackets; the bracket that ends it belongs to it.
abbrev angled_destination : Text → Text
angled_destination [] = []
angled_destination (c ∷ []) = c ∷ []
angled_destination (c ∷ d ∷ s) =
    let escaped = c ∷ d ∷ angled_destination s in
    let plain = c ∷ angled_destination (d ∷ s) in
    if c == b'\\' then escaped else if c == b'>' then c ∷ [] else plain

-- The loop without them: up to white space, and inline to the bracket that closes the link.
abbrev bare_destination : Bool → ℕ → Text → Text
bare_destination is_inline depth [] = []
bare_destination is_inline depth (c ∷ []) =
    if c == b'\\'
    then c ∷ []
    else if is_space_mark c
    then []
    else if is_inline && c == b')' && depth == 0
    then []
    else c ∷ []
bare_destination is_inline depth (c ∷ d ∷ s) =
    let escaped = c ∷ d ∷ bare_destination is_inline depth s in
    let deeper = if c == b'(' then depth + 1 else if c == b')' then depth - 1 else depth in
    let plain = c ∷ bare_destination is_inline (if is_inline then deeper else depth) (d ∷ s) in
    if c == b'\\'
    then escaped
    else if is_space_mark c
    then []
    else if is_inline && c == b')' && depth == 0
    then []
    else plain

-- markdownDestination of the text from the start on
unfoldable pub markdown_destination : Bool → Text → Text
markdown_destination is_inline [] = []
markdown_destination is_inline (c ∷ s) =
    if c == b'<' then angled_destination (c ∷ s) else bare_destination is_inline 0 (c ∷ s)

abbrev destinations : Bool → Text → List ℕ → List Text
destinations is_inline text [] = []
destinations is_inline text (at ∷ rest) =
    let found = markdown_destination is_inline (drop at text) in
    let others = destinations is_inline text rest in
    if is_empty found then others else found ∷ others

abbrev texts_eq : List Text → List Text → Bool
texts_eq [] [] = true
texts_eq [] (_ ∷ _) = false
texts_eq (_ ∷ _) [] = false
texts_eq (s ∷ ss) (t ∷ ts) = text_eq s t && texts_eq ss ts

abbrev same_bool : Bool → Bool → Bool
same_bool true b = b
same_bool false b = not b

abbrev pub steps_of : Content → List Text
steps_of content = elim content.step_texts [ none ↦ [] | some steps ↦ steps ]

-- The title, the body and the steps
abbrev pub parts : Content → List Text
parts content = content.title ∷ content.body_md ∷ steps_of content

abbrev is_nil_steps : Option (List Text) → Bool
is_nil_steps none = true
is_nil_steps (some _) = false

-- protectedToken.FindAllString, and the ends of the matches of markdownLinkStart and
-- markdownReferenceStart
module _ (tokens : Text → List Text) (link_ends reference_ends : Text → List ℕ) where
  unfoldable pub protected : Text → List Text
  unfolding markdown_destination sorted
  protected text =
      sorted (λ (t : Text). t)
        (tokens text
          ++ (destinations true text (link_ends text)
              ++ destinations false text (reference_ends text)))

  -- The loop over the parts of both contents; their numbers are equal.
  unfoldable pub check_parts : List Text → List Text → Result LocalizeError (Unit {0})
  check_parts [] after = ok tt
  check_parts (text ∷ before) [] = ok tt
  check_parts (text ∷ before) (translated ∷ after) =
      reject_if
        (not (same_bool (is_blank text) (is_blank translated))
          || not (texts_eq (protected text) (protected translated)))
        changed_protected
      >> check_parts before after

  abbrev pub bad_structure : Content → Content → Bool
  bad_structure source target =
      is_blank target.title
      || ltb 1000 (byte_size target.title)
      || ltb 200000 (byte_size target.body_md)
      || is_nil_steps target.step_texts
      || not (length (steps_of source) == length (steps_of target))

  unfoldable pub validate : Content → Content → Result LocalizeError (Unit {0})
  validate source target =
      reject_if (bad_structure source target) invalid_structure
      >> check_parts (parts source) (parts target)

  -- What Step asks of the store at its end
  pub data Ending : Type 0 where
    nothing : Ending
    completes : Job → Content → (policy : Text) → Ending
    fails : Job → LocalizeError → Ending

  abbrev pub check_valid : Job → Content → Result LocalizeError (Unit {0}) → Ending
  check_valid job content (ok _) = completes job content policy_version
  check_valid job content (err failure) = fails job failure

  abbrev pub check_translation : Job → Result LocalizeError Content → Ending
  check_translation job (err failure) = fails job failure
  check_translation job (ok content) = check_valid job content (validate job.source content)

  -- Step after ClaimLocalization
  unfoldable pub step :
      Result LocalizeError (Option Job) → (Content → Result LocalizeError Content) → Ending
  step (err failure) translate = nothing
  step (ok none) translate = nothing
  step (ok (some job)) translate = check_translation job (translate job.source)
