-- ===== src/Tests/Localize.antt =====
-- A translation that keeps the link of its source.
use viki.Assistant.Handoff.{rune_size, byte_size}
use viki.Assistant.Receipts.{sorted}
use viki.Localize.{
  Content, Job, policy_version, LocalizeError, markdown_destination, protected, check_parts,
  validate, completes, step,
}
use viki.Localize.Kept.{IsFaithful, step-IsFaithful}
use viki.Prelude.{
  ℕ, ◌+◌, ◌==◌, ◌&&◌, ◌≡◌, refl, Option, some, List, [], ◌∷◌, Text, codes, trim_space, trim_left,
  trim_right, is_space, is_blank, if◌then◌else◌, Result, ok,
}

abbrev english : Content
english = record {
  title = codes "Order";
  body_md = codes "A [b](c)";
  step_texts = some (codes "an order" ∷ []);
}

abbrev slovak : Content
slovak = record {
  title = codes "Zakazka";
  body_md = codes "Ta [x](c)";
  step_texts = some (codes "je tu" ∷ []);
}

abbrev claimed_job : Job
claimed_job = record {
  revision_id = codes "7";
  source_hash = codes "h";
  lease = codes "l";
  source = english;
}

abbrev no_tokens : Text → List Text
no_tokens _ = []

abbrev no_ends : Text → List ℕ
no_ends _ = []

-- The end of `](` and of the white space behind it
abbrev link_end_in : ℕ → Text → List ℕ
link_end_in at [] = []
link_end_in at (c ∷ []) = []
link_end_in at (c ∷ d ∷ s) =
    let rest = link_end_in (at + 1) (d ∷ s) in
    if c == b']' && d == b'(' then (at + 2) ∷ rest else rest

abbrev claim : Result LocalizeError (Option Job)
claim = ok (some claimed_job)

abbrev answer : Content → Result LocalizeError Content
answer _ = ok slovak

protects_link : protected no_tokens (link_end_in 0) no_ends english.body_md ≡ codes "c" ∷ []
unfolding protected markdown_destination sorted
protects_link = refl

step_completes :
    step no_tokens (link_end_in 0) no_ends claim answer
    ≡ completes claimed_job slovak policy_version
unfolding step validate check_parts protected markdown_destination sorted byte_size rune_size
    is_blank trim_space trim_left trim_right is_space
step_completes = refl

step-IsFaithful_example :
    (claim ≡ ok (some claimed_job))
    × (answer english ≡ ok slovak)
    × (policy_version ≡ policy_version)
    × IsFaithful no_tokens (link_end_in 0) no_ends english slovak
step-IsFaithful_example =
    step-IsFaithful no_tokens (link_end_in 0) no_ends claim answer claimed_job slovak policy_version
      step_completes
