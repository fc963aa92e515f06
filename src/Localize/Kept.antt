-- ===== src/Localize/Kept.antt =====
-- What a translation that Step of backend/internal/localize/localize.go completes has in common with
-- its source.
use viki.Assistant.Handoff.{byte_size}
use viki.Localize.{
  Content, Job, policy_version, LocalizeError, invalid_structure, changed_protected, texts_eq,
  same_bool, steps_of, parts, protected, check_parts, bad_structure, validate, completes,
  check_valid, check_translation, step,
}
use mathlib.Core.Path.{subst}
use viki.Prelude.{
  ℕ, ◌≤◌, ◌≡◌, refl, sym, ap, ◌∙◌, Bool, true, false, not, ◌||◌, Option, none, some, List, [], ◌∷◌,
  length, Text, text_eq→≡, is_blank, or_false_left, or_false_right, Result, ok, err, reject_if->>,
  arith,
}

texts_eq→≡ : (s t : List Text) → texts_eq s t ≡ true → s ≡ t
texts_eq→≡ [] [] h = refl
texts_eq→≡ [] (x ∷ t) h = cc
texts_eq→≡ (x ∷ s) [] h = cc
texts_eq→≡ (x ∷ s) (y ∷ t) h = ground (arith, text_eq→≡ x y, texts_eq→≡ s t, h)

unnegated : (b : Bool) → not b ≡ false → b ≡ true
unnegated true h = refl
unnegated false h = cc

same_bool→≡ : (a b : Bool) → same_bool a b ≡ true → a ≡ b
same_bool→≡ true b h = sym h
same_bool→≡ false true h = cc
same_bool→≡ false false h = refl

module _ (tokens : Text → List Text) (link_ends reference_ends : Text → List ℕ) where
  abbrev kept : Text → List Text
  kept = protected tokens link_ends reference_ends

  -- Part by part, the same protected values, and text where there was text.
  abbrev pub PartsKept : List Text → List Text → Type 0
  PartsKept [] [] = Unit
  PartsKept [] (_ ∷ _) = ⊥
  PartsKept (_ ∷ _) [] = ⊥
  PartsKept (a ∷ before) (b ∷ after) =
      (is_blank a ≡ is_blank b)
      × (protected tokens link_ends reference_ends a ≡ protected tokens link_ends reference_ends b)
      × PartsKept before after

  pub record IsFaithful (source target : Content) : Type 0 where
    pub titled : is_blank target.title ≡ false
    pub short_title : byte_size target.title ≤ 1000
    pub short_body : byte_size target.body_md ≤ 200000
    pub same_steps : length (steps_of source) ≡ length (steps_of target)
    pub parts_kept : PartsKept (parts source) (parts target)

  check_parts-PartsKept :
      (before after : List Text)
      → length before ≡ length after
      → check_parts tokens link_ends reference_ends before after ≡ ok tt
      → PartsKept before after
  unfolding check_parts
  check_parts-PartsKept [] [] same h = tt
  check_parts-PartsKept [] (b ∷ after) same h = ground (arith, same)
  check_parts-PartsKept (a ∷ before) [] same h = ground (arith, same)
  check_parts-PartsKept (a ∷ before) (b ∷ after) same h =
      let blank = not (same_bool (is_blank a) (is_blank b)) in
      let other = not (texts_eq (kept a) (kept b)) in
      let (fits, rest) = reject_if->> (blank || other) changed_protected _ h in
      (
        same_bool→≡ (is_blank a) (is_blank b) (unnegated _ (or_false_left blank other fits)),
        texts_eq→≡ (kept a) (kept b) (unnegated _ (or_false_right blank other fits)),
        check_parts-PartsKept before after (omega (arith, same)) rest,
      )

  validate-IsFaithful :
      (source target : Content)
      → validate tokens link_ends reference_ends source target ≡ ok tt
      → IsFaithful source target
  unfolding validate
  validate-IsFaithful source target h =
      let (sound, rest) =
        reject_if->> (bad_structure tokens link_ends reference_ends source target) invalid_structure
          _ h in
      let same : length (steps_of source) ≡ length (steps_of target) = ground (arith, sound) in
      record {
        titled = ground (arith, sound);
        short_title = ground (arith, sound);
        short_body = ground (arith, sound);
        same_steps = same;
        parts_kept = check_parts-PartsKept (parts source) (parts target) (omega (arith, same)) rest;
      }

  check_valid-IsFaithful :
      (claimed job : Job) (found content : Content) (policy : Text)
      (checked : Result LocalizeError (Unit {0}))
      → validate tokens link_ends reference_ends claimed.source found ≡ checked
      → check_valid tokens link_ends reference_ends claimed found checked
        ≡ completes job content policy
      → (claimed ≡ job)
        × (found ≡ content)
        × (policy ≡ policy_version)
        × IsFaithful claimed.source found
  check_valid-IsFaithful claimed job found content policy (err failure) valid h = cc
  check_valid-IsFaithful claimed job found content policy (ok tt) valid h =
      (cc, cc, cc, validate-IsFaithful claimed.source found valid)

  check_translation-IsFaithful :
      (claimed job : Job) (content : Content) (policy : Text)
      (answer : Result LocalizeError Content)
      → check_translation tokens link_ends reference_ends claimed answer
        ≡ completes job content policy
      → (claimed ≡ job)
        × (answer ≡ ok content)
        × (policy ≡ policy_version)
        × IsFaithful claimed.source content
  check_translation-IsFaithful claimed job content policy (err failure) h = cc
  check_translation-IsFaithful claimed job content policy (ok found) h =
      let (same, kept_content, kept_policy, faithful) =
        check_valid-IsFaithful claimed job found content policy _ refl h in
      (
        same,
        ap ok kept_content,
        kept_policy,
        subst (λ (c : Content). IsFaithful claimed.source c) kept_content faithful,
      )

  -- A step that completes a job completes the one that it claimed, with the translation of its
  -- source, under the policy `sk-v2`. The translation has a title of at most 1000 bytes that is not
  -- blank, a body of at most 200000 bytes and as many steps as the source; and each of its parts
  -- (title, body, steps) has the protected values of the source's part, and is blank exactly when
  -- that is.
  pub step-IsFaithful :
      (claimed : Result LocalizeError (Option Job))
      (translate : Content → Result LocalizeError Content) (job : Job) (content : Content)
      (policy : Text)
      → step tokens link_ends reference_ends claimed translate ≡ completes job content policy
      → (claimed ≡ ok (some job))
        × (translate job.source ≡ ok content)
        × (policy ≡ policy_version)
        × IsFaithful job.source content
  unfolding step
  step-IsFaithful (err failure) translate job content policy h = cc
  step-IsFaithful (ok none) translate job content policy h = cc
  step-IsFaithful (ok (some claimed)) translate job content policy h =
      let (same, answered, kept_policy, faithful) =
        check_translation-IsFaithful claimed job content policy (translate claimed.source) h in
      (
        ap (λ j. ok (some j)) same,
        ap (λ (j : Job). translate j.source) (sym same) ∙ answered,
        kept_policy,
        subst (λ (j : Job). IsFaithful j.source content) same faithful,
      )
