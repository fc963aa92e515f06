-- ===== src/Sync/Tags.antt =====
-- The tags of features and scenarios: tags and validKeyword of backend/internal/specsync/snapshot.go.
use viki.Prelude.{
  ◌≡◌, refl, ◌∙◌, Bool, true, false, not, ◌&&◌, ◌||◌, List, [], ◌∷◌, ◌++◌, Text, codes, text_eq,
  has_prefix, is_empty, drop, if◌then◌else◌, Result, ok, err, ◌>>◌, reject_if, reject_if->>, arith,
}
use mathlib.Core.List.{append_assoc, append-nil}

pub data TagError : Type 0 where
  duplicate_id unsupported_tag missing_tags : TagError

unfoldable pub valid_keyword : Text → Bool
valid_keyword s =
    text_eq s (codes "Given")
    || text_eq s (codes "When")
    || text_eq s (codes "Then")
    || text_eq s (codes "And")
    || text_eq s (codes "But")

abbrev pub is_id_tag : Text → Bool
is_id_tag t = has_prefix t (codes "@id:")

abbrev pub is_concept_tag : Text → Bool
is_concept_tag t = has_prefix t (codes "@concept:")

abbrev no_refs : List Text → Bool
no_refs [] = true
no_refs (_ ∷ _) = false

abbrev finish_tags : Bool → Text → List Text → Result TagError (Text × List Text)
finish_tags feature id refs =
    if is_empty id || feature && no_refs refs then err missing_tags else ok (id, refs)

-- The loop over the names of the tags, with the variables id and refs.
unfoldable pub scan_tags : Bool → Text → List Text → List Text → Result TagError (Text × List Text)
scan_tags feature id refs [] = finish_tags feature id refs
scan_tags feature id refs (t ∷ rest) = elim (is_id_tag t) [
  | true ↦ reject_if (not (is_empty id)) duplicate_id >> scan_tags feature (drop 4 t) refs rest
  | false ↦ elim (feature && is_concept_tag t) [
    | true ↦ scan_tags feature id (refs ++ (drop 9 t ∷ [])) rest
    | false ↦ err unsupported_tag
  ]
]

unfoldable pub tags : Bool → List Text → Result TagError (Text × List Text)
tags feature names = scan_tags feature [] [] names

-- A text as a list of one, or nothing for the empty text.
abbrev pub present : Text → List Text
present [] = []
present (c ∷ s) = (c ∷ s) ∷ []

-- The identifiers that the tags give, without the empty ones.
abbrev pub ids : List Text → List Text
ids [] = []
ids (t ∷ rest) = if is_id_tag t then present (drop 4 t) ++ ids rest else ids rest

-- The concepts that a feature's tags name, in order.
abbrev pub concepts : List Text → List Text
concepts [] = []
concepts (t ∷ rest) = if is_id_tag t then concepts rest else drop 9 t ∷ concepts rest

scan_tags_lem :
    (feature : Bool) (id : Text) (refs names : List Text) (r : Text × List Text)
    → scan_tags feature id refs names ≡ ok r
    → (present id ++ ids names ≡ r.0 ∷ []) × (r.1 ≡ refs ++ concepts names)
unfolding scan_tags
scan_tags_lem feature id refs [] r h = (one id h, ground (arith, h, append-nil refs))
  where
    one : (i : Text) → finish_tags feature i refs ≡ ok r → present i ++ [] ≡ r.0 ∷ []
    one [] k = cc
    one (c ∷ s) k = ground (arith, k)
scan_tags_lem feature id refs (t ∷ rest) r h =
    go (is_id_tag t) (feature && is_concept_tag t) h (λ i rs. scan_tags_lem feature i rs rest r)
  where
    blank : (i : Text) → not (is_empty i) ≡ false → present i ≡ []
    blank [] e = refl
    blank (c ∷ s) e = cc

    go :
        (b c : Bool)
        → elim b [
          | true ↦
              reject_if (not (is_empty id)) duplicate_id >> scan_tags feature (drop 4 t) refs rest
          | false ↦ elim c [
            | true ↦ scan_tags feature id (refs ++ (drop 9 t ∷ [])) rest
            | false ↦ err unsupported_tag
          ]
        ]
          ≡ ok r
        → ((i : Text) (rs : List Text)
            → scan_tags feature i rs rest ≡ ok r
            → (present i ++ ids rest ≡ r.0 ∷ []) × (r.1 ≡ rs ++ concepts rest))
        → (present id ++ (if b then present (drop 4 t) ++ ids rest else ids rest) ≡ r.0 ∷ [])
          × (r.1 ≡ refs ++ (if b then concepts rest else drop 9 t ∷ concepts rest))
    go true c k again =
        let (e, k1) = reject_if->> (not (is_empty id)) duplicate_id _ k in
        let a = again (drop 4 t) refs k1 in (rw (blank id e) a.0, a.1)
    go false true k again =
        let a = again id (refs ++ (drop 9 t ∷ [])) k in
        (a.0, a.1 ∙ append_assoc refs (drop 9 t ∷ []) (concepts rest))
    go false false k again = cc

-- In tags that are accepted exactly one gives an identifier that is not empty, which is the result's,
-- and the result's references are the texts of the other tags, in their order.
pub tags_lem :
    (feature : Bool) (names : List Text) (r : Text × List Text)
    → tags feature names ≡ ok r
    → (ids names ≡ r.0 ∷ []) × (r.1 ≡ concepts names)
unfolding tags
tags_lem feature names r h = scan_tags_lem feature [] [] names r h
