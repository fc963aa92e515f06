-- ===== src/Wiki/Earliest.antt =====
-- The claim of a development takes the one whose scenario was approved first.
use viki.Prelude.{
  ℕ, ◌≤◌, ◌<◌, ◌≡◌, ◌≢◌, ◌⊎◌, inl, inr, refl, sym, Bool, true, false, not, ◌&&◌, Option, none, some,
  [], ◌∷◌, All, any, ◌==◌, Option-cases, Table, adjust, lookup, lookup-adjust, Result, ok, err,
  arith,
}
use mathlib.Core.Path.{subst}
use viki.Model.{Uuid, DevelopmentStatus, queued, running}
use viki.Wiki.State.{Db, Development, Revision, Error}
use viki.Wiki.Queue.{
  is_queued, comes_before, next_queued, claim_development, approval, Candidate, start,
}
use viki.Wiki.Candidates.{AreLater, IsCandidate, next_queued-AreLater, next_queued-IsCandidate}

-- In the order of approvals, a missing one last, and then of revisions, (a, k) is not before (b, i).
abbrev pub NotBefore : Option ℕ → Uuid → Option ℕ → Uuid → Type 0
NotBefore (some s) k (some t) i = (t < s) ⊎ ((t ≡ s) × (i ≤ k))
NotBefore none k (some t) i = Unit
NotBefore (some s) k none i = ⊥
NotBefore none k none i = i ≤ k

comes_before-NotBefore :
    (a b : Option ℕ) (k i : Uuid) → not (comes_before a k b i) ≡ true → NotBefore a k b i
comes_before-NotBefore (some s) (some t) k i h = ground (arith, h)
comes_before-NotBefore none (some t) k i h = tt
comes_before-NotBefore (some s) none k i h = cc
comes_before-NotBefore none none k i h = ground (arith, h)

-- Of the queued developments of stored revisions, each one has a revision that is not before this.
abbrev pub IsFirst : Db → Uuid → Option ℕ → Type 0
IsFirst db id at =
    All
      (λ (row : Uuid × Development).
        row.1.status ≡ queued
        → (revision : Revision) → lookup row.0 db.revisions ≡ some revision
        → NotBefore revision.approved_at row.0 at id)
      db.developments

-- No queued development has a stored revision.
abbrev pub NothingQueued : Db → Type 0
NothingQueued db =
    All (λ (row : Uuid × Development). row.1.status ≡ queued → lookup row.0 db.revisions ≡ none)
      db.developments

-- Is this revision's development queued?
abbrev pub waits : Uuid → Table Development → Bool
waits id t = any (λ (row : Uuid × Development). row.0 == id && is_queued row.1.status) t

is_queued-queued : (d : DevelopmentStatus) → d ≡ queued → is_queued d ≡ true
is_queued-queued d h = rw h refl

approval_stored :
    (db : Db) (k : Uuid) (r : Revision)
    → lookup k db.revisions ≡ some r
    → approval k db ≡ some r.approved_at
approval_stored db k r h = ground (arith, h)

approval-revision :
    (db : Db) (k : Uuid) (at : Option ℕ)
    → approval k db ≡ some at
    → (r : Revision) × (lookup k db.revisions ≡ some r) × (r.approved_at ≡ at)
approval-revision db k at h = elim (Option-cases (lookup k db.revisions)) [
  | inl gone ↦ cc (rw (gone, approval) at h)
  | inr (r, found) ↦ (r, found, cc (rw (found, approval) at h))
]

AreLater-IsFirst :
    (db : Db) (id : Uuid) (at : Option ℕ) (t : Table Development)
    → AreLater db (some (id, at)) t
    → All
        (λ (row : Uuid × Development).
          row.1.status ≡ queued
          → (revision : Revision) → lookup row.0 db.revisions ≡ some revision
          → NotBefore revision.approved_at row.0 at id)
        t
AreLater-IsFirst db id at [] h = tt
AreLater-IsFirst db id at ((k, d) ∷ t) h = (
  λ waiting r found.
      comes_before-NotBefore r.approved_at at k id
        (h.0 (is_queued-queued d.status waiting) r.approved_at (approval_stored db k r found)),
  AreLater-IsFirst db id at t h.1,
)

AreLater-nothing :
    (db : Db) (t : Table Development)
    → AreLater db none t
    → All (λ (row : Uuid × Development). row.1.status ≡ queued → lookup row.0 db.revisions ≡ none) t
AreLater-nothing db [] h = tt
AreLater-nothing db ((k, d) ∷ t) h = (
  λ waiting. elim (Option-cases (lookup k db.revisions)) [
    | inl gone ↦ gone
    | inr (r, found) ↦
        cc (h.0 (is_queued-queued d.status waiting) r.approved_at (approval_stored db k r found))
  ],
  AreLater-nothing db t h.1,
)

waits-adjust : (id now : ℕ) (t : Table Development) → waits id (adjust id (start now) t) ≡ false
unfolding adjust
waits-adjust id now [] = refl
waits-adjust id now ((k, d) ∷ t) = ground (arith, waits-adjust id now t)

-- A claimed development: it waited, and no other one comes first. It now runs and waits no more;
-- all else in the database is as it was.
pub record Claimed (now : ℕ) (db : Db) (id : Uuid) (db' : Db) : Type 0 where
  pub revision : Revision
  pub stored : lookup id db.revisions ≡ some revision
  pub waited : waits id db.developments ≡ true
  pub is_first : IsFirst db id revision.approved_at
  pub runs :
      (d : Development)
      → lookup id db.developments ≡ some d
      → lookup id db'.developments ≡ some (record d { status = running; updated_at = now })
  pub waits_no_more : waits id db'.developments ≡ false
  pub others : (k : Uuid) → k ≢ id → lookup k db'.developments ≡ lookup k db.developments
  pub rest : db' ≡ record db { developments = db'.developments }

-- What is claimed, or that there is nothing to claim.
abbrev pub IsClaim : ℕ → Db → Result Error (Uuid × Db) → Type 0
IsClaim now db (ok r) = Claimed now db r.0 r.1
IsClaim now db (err e) = (e ≡ Error.not_found) × NothingQueued db

adjust-Claimed :
    (now : ℕ) (db : Db) (id : Uuid) (at : Option ℕ)
    → IsCandidate db db.developments (some (id, at))
    → AreLater db (some (id, at)) db.developments
    → Claimed now db id (record db { developments = adjust id (start now) db.developments })
adjust-Claimed now db id at c h =
    let (r, found, time) = approval-revision db id at c.1 in
    record {
      revision = r;
      stored = found;
      waited = c.0;
      is_first = subst (IsFirst db id) (sym time) (AreLater-IsFirst db id at db.developments h);
      runs = λ d row. ground (arith, row, lookup-adjust id id (start now) db.developments);
      waits_no_more = waits-adjust id now db.developments;
      others = λ k other. ground (arith, other, lookup-adjust id k (start now) db.developments);
      rest = refl;
    }

-- A claim takes a queued development of a stored revision before which no other one comes, in the
-- order of the approvals and then of the identifiers. It sets it to running at this time, so that it
-- waits no more, and changes nothing else. It fails only where no queued development has a stored
-- revision.
pub claim_development-IsClaim : (now : ℕ) (db : Db) → IsClaim now db (claim_development now db)
unfolding claim_development
claim_development-IsClaim now db =
    go (next_queued db db.developments) (next_queued-IsCandidate db db.developments)
      (next_queued-AreLater db db.developments)
  where
    go :
        (best : Candidate)
        → IsCandidate db db.developments best
        → AreLater db best db.developments
        → IsClaim now db (elim best [
          | none ↦ err Error.not_found
          | some (id, _) ↦
              ok (id, record db { developments = adjust id (start now) db.developments })
        ])
    go none c h = (refl, AreLater-nothing db db.developments h)
    go (some (id, at)) c h = adjust-Claimed now db id at c h
