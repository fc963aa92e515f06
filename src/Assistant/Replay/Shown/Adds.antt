-- ===== src/Assistant/Replay/Shown/Adds.antt =====
-- The messages that a step of visibleHistory of backend/internal/app/assistant_runtime.go adds.
use viki.Assistant.Handoff.{AssistantMessage}
use viki.Assistant.Markers.{index_of}
use viki.Assistant.Replay.{
  Replay, no_receipts, receipts_sentence, flush_receipts, take_receipts, show_content,
  shown_message, message_id,
}
use viki.Assistant.Replay.Shown.{Cleaned, IsShown, Embeds, Embeds-append, seen}
use viki.Assistant.State.{AssistantDraftReceipt, Citation}
use mathlib.Core.List.{append_assoc, append-nil}
use viki.Prelude.{
  ◌≡◌, refl, sym, ap, ◌∙◌, ◌⊎◌, inl, inr, Bool, true, false, not, ◌&&◌, ◌||◌, Option, none, some,
  List, [], ◌∷◌, ◌++◌, All, All-append, Text, codes, text_eq, is_empty, is_space, trim_left,
  trim_right, trim_space, is_blank, if◌then◌else◌,
}

-- The step from `s` to `t` appends messages that may be shown, among them what was said.
pub record Adds (s t : Replay) (what : List (Text × Text)) : Type 0 where
  pub more : List AssistantMessage
  pub grown : t.messages ≡ s.messages ++ more
  pub shown : All IsShown more
  pub embeds : Embeds what more

pub Adds-none : (s t : Replay) → t.messages ≡ s.messages → Adds s t []
Adds-none s t same = record {
  more = [];
  grown = same ∙ sym (append-nil s.messages);
  shown = tt;
  embeds = tt;
}

Adds-one :
    (s t : Replay) (m : AssistantMessage) (what : List (Text × Text))
    → t.messages ≡ s.messages ++ (m ∷ [])
    → IsShown m
    → Embeds what (m ∷ [])
    → Adds s t what
Adds-one s t m what grown shown embeds = record {
  more = m ∷ [];
  grown = grown;
  shown = (shown, tt);
  embeds = embeds;
}

pub Adds-then :
    (s t u : Replay) (xs ys : List (Text × Text)) → Adds s t xs → Adds t u ys → Adds s u (xs ++ ys)
Adds-then s t u xs ys a b = record {
  more = a.more ++ b.more;
  grown =
      b.grown
      ∙ ap (λ (ms : List AssistantMessage). ms ++ b.more) a.grown
      ∙ append_assoc s.messages a.more b.more;
  shown = All-append IsShown a.more b.more a.shown b.shown;
  embeds = Embeds-append xs ys a.more b.more a.embeds b.embeds;
}

pub if-Adds :
    (test : Bool) (s t u : Replay) (what : List (Text × Text))
    → Adds s t what
    → Adds s u what
    → Adds s (if test then t else u) what
if-Adds true s t u what h g = h
if-Adds false s t u what h g = g

receipts_sentence-shown :
    (s : Replay) → (is_blank (receipts_sentence s) ≡ false) × Cleaned (receipts_sentence s)
unfolding is_blank trim_space trim_left trim_right is_space index_of
receipts_sentence-shown s = go s.drafts
  where
    go :
        (drafts : List (Text × AssistantDraftReceipt))
        → (is_blank (receipts_sentence (record s { drafts = drafts })) ≡ false)
          × Cleaned (receipts_sentence (record s { drafts = drafts }))
    go [] = (refl, (codes "Našiel som podklady vo viki.", refl, inl refl))
    go (d ∷ rest) = (refl, (codes "Vytvoril som drafty vo viki.", refl, inl refl))

pub flush_receipts-Adds : (s : Replay) → Adds s (flush_receipts s) []
unfolding flush_receipts
flush_receipts-Adds s =
    let (full, clean) = receipts_sentence-shown s in
    if-Adds (is_empty s.turn_id || no_receipts s) s s _ [] (Adds-none s s refl)
      (Adds-one s _ _ [] refl (inr refl, full, clean) tt)

named_seen :
    (role content : Text)
    → (role ≡ codes "user") ⊎ (role ≡ codes "assistant")
    → is_blank content ≡ false
    → seen role (some content) ≡ (role, content) ∷ []
named_seen role content (inl user) full = rw (user, full) refl
named_seen role content (inr assistant) full = rw (assistant, full) refl

blank_seen : (role content : Text) → is_blank content ≡ true → seen role (some content) ≡ []
blank_seen role content blank = go (text_eq role (codes "user") || text_eq role (codes "assistant"))
  where
    go :
        (b : Bool)
        → if◌then◌else◌ {A = List (Text × Text)}
            (b && not (is_blank content))
            ((role, content) ∷ [])
            []
          ≡ []
    go true = rw blank refl
    go false = refl

pub show_content-Adds :
    (role content : Text) (s : Replay)
    → (role ≡ codes "user") ⊎ (role ≡ codes "assistant")
    → Cleaned content
    → Adds s (show_content role content s) (seen role (some content))
show_content-Adds role content s named clean = go (is_blank content) refl
  where
    go :
        (b : Bool)
        → is_blank content ≡ b
        → Adds s (show_content role content s) (seen role (some content))
    go true blank =
        let (full, clean) = receipts_sentence-shown s in
        let shown : IsShown (shown_message (message_id role s) role (receipts_sentence s) s) =
          (named, full, clean) in
        rw (blank_seen role content blank) (
          rw blank (
            if-Adds (no_receipts s) s s _ [] (Adds-none s s refl) (
              if-Adds (text_eq role (codes "assistant")) s _ _ [] (Adds-one s _ _ [] refl shown tt)
                (Adds-one s _ _ [] refl shown tt))))
    go false full =
        let shown : IsShown (shown_message (message_id role s) role content s) =
          (named, full, clean) in
        rw (named_seen role content named full) (
          rw full (
            if-Adds (text_eq role (codes "assistant")) s _ _ ((role, content) ∷ [])
              (Adds-one s _ _ _ refl shown (inl (refl, refl, tt)))
              (Adds-one s _ _ _ refl shown (inl (refl, refl, tt)))))

pub take_receipts-Adds :
    (s : Replay) (o : Option (List Citation × List AssistantDraftReceipt))
    → Adds s (take_receipts s o) []
take_receipts-Adds s none = Adds-none s s refl
take_receipts-Adds s (some (citations, drafts)) = Adds-none s _ refl
