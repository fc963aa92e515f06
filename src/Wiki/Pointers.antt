-- ===== src/Wiki/Pointers.antt =====
-- The lifecycle of revisions seen without the tables: for each page its draft and its approved
-- revision, for each revision its page and status. The moves of the operations keep them in step.
use viki.Prelude.{◌≡◌, Bool, true, Option, none, some, ◌==◌, if◌then◌else◌, arith, map_option}
use viki.Model.{Uuid, RevisionStatus, draft, approved, superseded}

abbrev pub View : Type 0
View = Uuid → Option (Uuid × RevisionStatus)

-- A page points to a draft exactly when that revision is a draft of the page, and so for the
-- approved revision; every revision has a page.
pub record InStep (drafts approveds : Uuid → Option Uuid) (view : View) (known : Uuid → Bool)
    : Type 0 where
  pub draft_points : (i r : Uuid) → drafts i ≡ some r → view r ≡ some (i, draft)
  pub draft_pointed : (i r : Uuid) → view r ≡ some (i, draft) → drafts i ≡ some r
  pub approved_points : (i r : Uuid) → approveds i ≡ some r → view r ≡ some (i, approved)
  pub approved_pointed : (i r : Uuid) → view r ≡ some (i, approved) → approveds i ≡ some r
  pub owned : (i r : Uuid) (s : RevisionStatus) → view r ≡ some (i, s) → known i ≡ true

abbrev pub demote_draft : RevisionStatus → RevisionStatus
demote_draft draft = superseded
demote_draft s = s

abbrev pub demote : Uuid × RevisionStatus → Uuid × RevisionStatus
demote (i, s) = (i, demote_draft s)

abbrev pub retire : Uuid × RevisionStatus → Uuid × RevisionStatus
retire (i, s) = (i, superseded)

abbrev pub promote : Uuid × RevisionStatus → Uuid × RevisionStatus
promote (i, s) = (i, approved)

-- A view with the status of one revision changed, if there is such a revision.
abbrev pub at : Option Uuid → (Uuid × RevisionStatus → Uuid × RevisionStatus) → View → View
at none f v q = v q
at (some d) f v q = if d == q then map_option f (v q) else v q

module _ {D A : Uuid → Option Uuid} {V : View} {K : Uuid → Bool} (p : InStep D A V K) where
  -- The same pointers and revisions, and perhaps more pages.
  pub grow-InStep :
      (D' A' : Uuid → Option Uuid) (V' : View) (K' : Uuid → Bool)
      → ((j : Uuid) → D' j ≡ D j)
      → ((j : Uuid) → A' j ≡ A j)
      → ((q : Uuid) → V' q ≡ V q)
      → ((j : Uuid) → K j ≡ true → K' j ≡ true)
      → InStep D' A' V' K'
  grow-InStep D' A' V' K' d a v k = record {
    draft_points = λ j q h. ground (arith, d j, v q, p.draft_points j q);
    draft_pointed = λ j q h. ground (arith, d j, v q, p.draft_pointed j q);
    approved_points = λ j q h. ground (arith, a j, v q, p.approved_points j q);
    approved_pointed = λ j q h. ground (arith, a j, v q, p.approved_pointed j q);
    owned = λ j q s h. ground (arith, v q, k j, p.owned j q s);
  }

  module _ (i r : Uuid) (D' A' : Uuid → Option Uuid) (V' : View) where
    -- A new draft of a page, its old draft superseded.
    pub new_draft-InStep :
        V r ≡ none
        → K i ≡ true
        → ((j : Uuid) → D' j ≡ (if i == j then some r else D j))
        → ((j : Uuid) → A' j ≡ A j)
        → ((q : Uuid) → V' q ≡ (if r == q then some (i, draft) else at (D i) demote V q))
        → InStep D' A' V' K
    new_draft-InStep free k d a v = record {
      draft_points = λ j q h. ground (arith, d j, v q, p.draft_points j q, p.draft_points i q);
      draft_pointed = λ j q h. ground (arith, d j, v q, p.draft_pointed j q, p.draft_points i q);
      approved_points =
          λ j q h. ground (arith, a j, v q, p.approved_points j q, p.draft_points i q);
      approved_pointed =
          λ j q h. ground (arith, a j, v q, p.approved_pointed j q, p.draft_points i q);
      owned = λ j q s h. ground (arith, v q, p.owned j q s, p.owned j q draft, p.draft_points i q);
    }

    -- The draft of a page becomes its approved revision, and the old one is superseded.
    pub approve-InStep :
        D i ≡ some r
        → ((j : Uuid) → D' j ≡ (if i == j then none else D j))
        → ((j : Uuid) → A' j ≡ (if i == j then some r else A j))
        → ((q : Uuid) → V' q ≡ at (some r) promote (at (A i) retire V) q)
        → InStep D' A' V' K
    approve-InStep current d a v = record {
      draft_points = λ j q h.
          ground (arith, d j, v q, p.draft_points j q, p.draft_points i r, p.approved_points i q);
      draft_pointed = λ j q h.
          ground (arith, d j, v q, p.draft_pointed j q, p.draft_points i r, p.approved_points i q);
      approved_points = λ j q h.
          ground
            (arith, a j, v q, p.approved_points j q, p.draft_points i r, p.approved_points i q);
      approved_pointed = λ j q h.
          ground
            (arith, a j, v q, p.approved_pointed j q, p.draft_points i r, p.approved_points i q);
      owned = λ j q s h. ground (
        arith,
        v q,
        p.owned j q draft,
        p.owned j q approved,
        p.owned j q s,
        p.draft_points i r,
        p.approved_points i q,
      );
    }
