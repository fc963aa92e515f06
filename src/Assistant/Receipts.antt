-- ===== src/Assistant/Receipts.antt =====
-- The receipts in the results of tools: extractCitations, localizedCitationTitles,
-- extractDraftReceipts, sortedCitations, sortedDraftReceipts and unwrapToolResult of
-- backend/internal/app/assistant_runtime.go. A decoded JSON value is a tree; the fields of an object
-- stand in some order, as Go walks a map in some order.
use viki.Assistant.State.{Citation, AssistantDraftReceipt}
use viki.Prelude.{
  Bool, true, false, ◌&&◌, ◌||◌, Option, none, some, List, [], ◌∷◌, Text, codes, text_eq, is_empty,
  ltb, ◌==◌, if◌then◌else◌,
}

mutual
  pub data Json : Type 0 where
    null : Json
    boolean : Bool → Json
    number : Text → Json
    string : Text → Json
    array : Items → Json
    object : Fields → Json

  pub data Items : Type 0 where
    no_items : Items
    item : Json → Items → Items

  pub data Fields : Type 0 where
    no_fields : Fields
    field : Text → Json → Fields → Fields

abbrev pub find_field : Text → Fields → Option Json
find_field name no_fields = none
find_field name (field key value rest) =
    let others = find_field name rest in if text_eq key name then some value else others

-- value.(string), with the zero value where it is none
abbrev as_string : Option Json → Text
as_string (some (string s)) = s
as_string other = []

-- value.(map[string]any)
abbrev as_object : Option Json → Fields
as_object (some (object fields)) = fields
as_object other = no_fields

abbrev is_true : Option Json → Bool
is_true (some (boolean b)) = b
is_true other = false

abbrev is_present : Option Json → Bool
is_present none = false
is_present (some _) = true

abbrev or_else : Text → Text → Text
or_else a b = if is_empty a then b else a

abbrev slovak_title : Text → List (Text × Text)
slovak_title title = if is_empty title then [] else (codes "sk", title) ∷ []

-- The title of the localized content wins over that of the list of titles.
unfoldable pub localized_citation_titles : Fields → List (Text × Text)
localized_citation_titles typed =
    let existing = as_object (find_field (codes "localizedTitles") typed) in
    let content = as_object (find_field (codes "localizations") typed) in
    let sk = as_object (find_field (codes "sk") content) in
    let listed = as_string (find_field (codes "sk") existing) in
    let title = as_string (find_field (codes "title") sk) in slovak_title (or_else title listed)

abbrev cited_revision : Fields → Text
cited_revision typed =
    let revision = as_string (find_field (codes "revisionId") typed) in
    let id = as_string (find_field (codes "id") typed) in
    if is_empty revision
    then if is_present (find_field (codes "pageId") typed) then id else []
    else revision

abbrev cited_title : Fields → Text
cited_title typed =
    or_else (as_string (find_field (codes "pageTitle") typed))
      (as_string (find_field (codes "title") typed))

-- The citation that an object stands for.
unfoldable pub citation_of : Fields → Option Citation
unfolding localized_citation_titles
citation_of typed =
    let revision = cited_revision typed in
    let page = as_string (find_field (codes "pageId") typed) in
    let is_draft =
      is_true (find_field (codes "draft") typed)
      || text_eq (as_string (find_field (codes "status") typed)) (codes "draft") in
    let cited : Citation = record {
      localized_titles = localized_citation_titles typed;
      revision_id = revision;
      page_id = page;
      page_title = cited_title typed;
      draft = is_draft;
    } in
    if is_empty revision || is_empty page then none else some cited

module _ {V : Type 0} where
  -- m[k] = v in a map whose values are read afterwards
  unfoldable pub assign : Text → V → List (Text × V) → List (Text × V)
  assign k v [] = (k, v) ∷ []
  assign k v ((j, w) ∷ rest) =
      let others = assign k v rest in if text_eq j k then (k, v) ∷ rest else (j, w) ∷ others

  abbrev pub values : List (Text × V) → List V
  values [] = []
  values ((k, v) ∷ rest) = v ∷ values rest

-- The order of strings
abbrev text_less : Text → Text → Bool
text_less [] [] = false
text_less [] (_ ∷ _) = true
text_less (_ ∷ _) [] = false
text_less (a ∷ s) (b ∷ t) = ltb a b || (a == b && text_less s t)

module _ {V : Type 0} (revision : V → Text) where
  abbrev insert_sorted : V → List V → List V
  insert_sorted v [] = v ∷ []
  insert_sorted v (w ∷ rest) =
      let later = insert_sorted v rest in
      if text_less (revision w) (revision v) then w ∷ later else v ∷ w ∷ rest

  -- sort.Slice by RevisionID; the identifiers differ.
  unfoldable pub sorted : List V → List V
  sorted [] = []
  sorted (v ∷ rest) = insert_sorted v (sorted rest)

abbrev cite : Option Citation → List (Text × Citation) → List (Text × Citation)
cite none citations = citations
cite (some cited) citations = assign cited.revision_id cited citations

unfoldable mutual
  unfolding citation_of

  pub walk : Json → List (Text × Citation) → List (Text × Citation)
  walk null citations = citations
  walk (boolean b) citations = citations
  walk (number n) citations = citations
  walk (string s) citations = citations
  walk (array items) citations = walk_items items citations
  walk (object typed) citations = walk_fields typed (cite (citation_of typed) citations)

  pub walk_items : Items → List (Text × Citation) → List (Text × Citation)
  walk_items no_items citations = citations
  walk_items (item value rest) citations = walk_items rest (walk value citations)

  pub walk_fields : Fields → List (Text × Citation) → List (Text × Citation)
  walk_fields no_fields citations = citations
  walk_fields (field key value rest) citations = walk_fields rest (walk value citations)

-- extractCitations of the decoded result; none where it cannot be decoded
unfoldable pub extract_citations : Option Json → List Citation
unfolding walk sorted
extract_citations none = []
extract_citations (some tree) = sorted (λ (c : Citation). c.revision_id) (values (walk tree []))

abbrev any_key : Text → List (Text × AssistantDraftReceipt) → Bool
any_key k [] = false
any_key k ((j, v) ∷ rest) = text_eq j k || any_key k rest

-- The first receipt of a revision is kept.
abbrev keep_first :
    List AssistantDraftReceipt
    → List (Text × AssistantDraftReceipt)
    → List (Text × AssistantDraftReceipt)
keep_first [] kept = kept
keep_first (draft ∷ rest) kept =
    let known = any_key draft.revision_id kept in
    let skip = is_empty draft.revision_id || is_empty draft.page_id || known in
    keep_first rest (if skip then kept else assign draft.revision_id draft kept)

unfoldable pub extract_draft_receipts :
    Option (List AssistantDraftReceipt) → List AssistantDraftReceipt
unfolding sorted
extract_draft_receipts none = []
extract_draft_receipts (some drafts) =
    sorted (λ (d : AssistantDraftReceipt). d.revision_id) (values (keep_first drafts []))

-- The text of a JSON string, and the field `result` of an object, where there is one.
abbrev or_raw : Text → Option Text → Text
or_raw raw none = raw
or_raw raw (some text) = text

abbrev or_nonempty : Text → Option Text → Text
or_nonempty raw none = raw
or_nonempty raw (some result) = if is_empty result then raw else result

unfoldable pub unwrap_tool_result : (Text → Option Text) → (Text → Option Text) → Text → Text
unwrap_tool_result decode_string decode_result raw =
    let unquoted = or_raw raw (decode_string raw) in
    if is_empty raw then raw else or_nonempty unquoted (decode_result unquoted)
