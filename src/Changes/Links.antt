-- ===== src/Changes/Links.antt =====
-- What the shape of an accepted change set promises: its operations refer to earlier ones of the right
-- kind, and each feature it creates gets a scenario.
use viki.Prelude.{
  find_key, ℕ, ◌+◌, ◌≡◌, sym, Bool, true, false, not, ◌&&◌, ◌||◌, List, [], ◌∷◌, Text, text_eq,
  is_empty, is_blank, is_some, any, All, if◌then◌else◌, ok, >>=-eq-ok, reject_if->>, ok-injective,
  arith,
}
use viki.Model.{PageKind, PageReference}
use viki.Pages.{validate_page_input}
use viki.Changes.{
  ChangeOperation, ChangeSet, Keys, no_keys, add_keys, kind_passes, is_feature_kind,
  is_concept_kind, check_operation, check_parent_key, check_reference, check_references,
  check_change, check_changes, validate_shape, has_references, creates_feature, as_content_error,
  invalid_reference, references_required, repeated_key, scenario_required,
}

-- The operations of a list, the last first, before those already passed.
abbrev pub passed : List ChangeOperation → List ChangeOperation → List ChangeOperation
passed before [] = before
passed before (o ∷ rest) = passed (o ∷ before) rest

abbrev pub keys_of : List ChangeOperation → Keys
keys_of [] = no_keys
keys_of (o ∷ before) = add_keys o (keys_of before)

-- An operation with a client key and a kind.
abbrev pub is_named : (PageKind → Bool) → Text → List ChangeOperation → Bool
is_named test key = any (λ o. text_eq o.client_key key && test o.kind)

abbrev pub HasLinks : List ChangeOperation → ChangeOperation → Type 0
HasLinks before o =
    (is_empty o.parent_client_key ≡ false
      → is_named is_feature_kind o.parent_client_key before ≡ true)
    × All
        (λ (ref : PageReference).
          is_blank ref.target_client_key ≡ false
          → is_named is_concept_kind ref.target_client_key before ≡ true)
        o.content.references

-- Every operation has its links among the operations before it.
abbrev pub AreLinked : List ChangeOperation → List ChangeOperation → Type 0
AreLinked before [] = Unit
AreLinked before (o ∷ rest) = HasLinks before o × AreLinked (o ∷ before) rest

find_key-named :
    (test : PageKind → Bool) (key : Text) (before : List ChangeOperation)
    → kind_passes test (find_key key (keys_of before).kinds) ≡ true
    → is_named test key before ≡ true
unfolding find_key
find_key-named test key [] h = cc
find_key-named test key (o ∷ before) h = ground (arith, h, find_key-named test key before)

check_reference_lem :
    (index : ℕ) (keys : Keys) (ref : PageReference) {u : Unit {0}}
    → check_reference index keys ref ≡ ok u
    → is_blank ref.target_client_key ≡ false
    → kind_passes is_concept_kind (find_key ref.target_client_key keys.kinds) ≡ true
unfolding check_reference
check_reference_lem index keys ref h keyed =
    let has_key = not (is_blank ref.target_client_key) in
    let malformed =
      (if is_some ref.target_page_id then has_key else not has_key)
      || is_blank ref.relation
      || is_blank ref.target_title in
    let (_, kinds) = reject_if->> malformed (invalid_reference index) _ h in
    ground (arith, kinds, keyed)

check_references_lem :
    (index : ℕ) (before : List ChangeOperation) (refs : List PageReference) {u : Unit {0}}
    → check_references index (keys_of before) refs ≡ ok u
    → All
        (λ (ref : PageReference).
          is_blank ref.target_client_key ≡ false
          → is_named is_concept_kind ref.target_client_key before ≡ true)
        refs
unfolding check_references check_reference
check_references_lem index before [] h = tt
check_references_lem index before (ref ∷ rest) h =
    let (_, one, others) = >>=-eq-ok (check_reference index (keys_of before) ref) _ h in
    (
      (λ keyed.
          find_key-named is_concept_kind ref.target_client_key before
            (check_reference_lem index (keys_of before) ref one keyed)),
      check_references_lem index before rest others,
    )

check_parent_lem :
    (index : ℕ) (before : List ChangeOperation) (o : ChangeOperation) {u : Unit {0}}
    → check_parent_key index o (keys_of before) ≡ ok u
    → is_empty o.parent_client_key ≡ false
    → is_named is_feature_kind o.parent_client_key before ≡ true
unfolding check_parent_key
check_parent_lem index before o h keyed =
    find_key-named is_feature_kind o.parent_client_key before (ground (arith, h, keyed))

check_change-HasLinks :
    (index : ℕ) (before : List ChangeOperation) (o : ChangeOperation) (keys : Keys)
    → check_change index o (keys_of before) ≡ ok keys
    → (keys ≡ keys_of (o ∷ before)) × HasLinks before o
unfolding check_change
check_change-HasLinks index before o keys h0 =
    let (_, _, h1) = >>=-eq-ok (check_operation index o) _ h0 in
    let (_, parent, h2) = >>=-eq-ok (check_parent_key index o (keys_of before)) _ h1 in
    let (_, _, h3) =
      >>=-eq-ok (as_content_error index (validate_page_input o.kind o.concept_kind _ o.content)) _
        h2 in
    let (_, h4) =
      reject_if->> (not (is_concept_kind o.kind) && not (has_references o.content.references))
        (references_required index) _ h3 in
    let (_, refs, h5) =
      >>=-eq-ok (check_references index (keys_of before) o.content.references) _ h4 in
    let (_, h6) =
      reject_if->>
        (not (is_empty o.client_key) && is_some (find_key o.client_key (keys_of before).kinds))
        (repeated_key index) _ h5 in
    let (_, h7) =
      reject_if->> (creates_feature o && is_empty o.client_key) (scenario_required index) _ h6 in
    (
      sym (ok-injective h7),
      (
        check_parent_lem index before o parent,
        check_references_lem index before o.content.references refs,
      ),
    )

pub check_changes-AreLinked :
    (index : ℕ) (before ops : List ChangeOperation) (keys : Keys)
    → check_changes index ops (keys_of before) ≡ ok keys
    → (keys ≡ keys_of (passed before ops)) × AreLinked before ops
unfolding check_changes
check_changes-AreLinked index before [] keys h = (sym (ok-injective h), tt)
check_changes-AreLinked index before (o ∷ rest) keys h =
    let (mid, one, others) = >>=-eq-ok (check_change (index + 1) o (keys_of before)) _ h in
    let (same, links) = check_change-HasLinks (index + 1) before o mid one in
    let (last, linked) =
      check_changes-AreLinked (index + 1) (o ∷ before) rest keys (rw (← same) others) in
    (last, (links, linked))

-- In a change set that is accepted, a parent's key is the client key of an earlier operation on a
-- feature, and a reference's key that of an earlier operation on a concept.
pub accepted-AreLinked : (s : ChangeSet) → validate_shape s ≡ ok tt → AreLinked [] s.operations
unfolding validate_shape
accepted-AreLinked s h =
    let (keys, e, _) = >>=-eq-ok (check_changes 0 s.operations no_keys) _ h in
    (check_changes-AreLinked 0 [] s.operations keys e).1
