-- ===== src/Wiki/Queue.antt =====
-- The queue of scenario developments (backend/internal/postgres/development.go).
use viki.Prelude.{
  ℕ, Bool, true, false, not, ◌&&◌, ◌||◌, ◌==◌, ltb, Option, none, some, [], ◌∷◌, Text, any,
  if◌then◌else◌, Table, lookup, adjust, Result, ok, err, ◌>>◌, reject_if,
}
use viki.Model.{Uuid, DevelopmentStatus, queued, running, developed, blocked}
use viki.Wiki.State.{Db, Development, Error, not_found}

abbrev pub is_queued : DevelopmentStatus → Bool
is_queued queued = true
is_queued _ = false

abbrev pub is_running : DevelopmentStatus → Bool
is_running running = true
is_running _ = false

-- HasQueuedScenarioDevelopment
unfoldable pub has_queued : Db → Bool
has_queued db = any (λ row. is_queued row.1.status) db.developments

-- The approval time of a row's revision, or nothing where the JOIN has no revision.
abbrev pub approval : Uuid → Db → Option (Option ℕ)
approval id db = elim (lookup id db.revisions) [ none ↦ none | some r ↦ some r.approved_at ]

-- The order of the claim: by approval time, a missing one last, and then by revision.
abbrev pub comes_before : Option ℕ → Uuid → Option ℕ → Uuid → Bool
comes_before none i none j = ltb i j
comes_before none i (some _) j = false
comes_before (some _) i none j = true
comes_before (some s) i (some t) j = ltb s t || s == t && ltb i j

abbrev pub Candidate : Type 0
Candidate = Option (Uuid × Option ℕ)

abbrev pub better : Uuid → Option ℕ → Candidate → Candidate
better id at none = some (id, at)
better id at (some (j, t)) = if comes_before at id t j then some (id, at) else some (j, t)

abbrev pub consider : Uuid → Bool → Option (Option ℕ) → Candidate → Candidate
consider id true (some at) best = better id at best
consider id true none best = best
consider id false _ best = best

unfoldable pub next_queued : Db → Table Development → Candidate
next_queued db [] = none
next_queued db ((id, d) ∷ rest) =
    consider id (is_queued d.status) (approval id db) (next_queued db rest)

abbrev pub start : ℕ → Development → Development
start now d = record d { status = running; updated_at = now }

-- ClaimScenarioDevelopment: the task's revision.
unfoldable pub claim_development : ℕ → Db → Result Error (Uuid × Db)
unfolding next_queued
claim_development now db = elim (next_queued db db.developments) [
  | none ↦ err not_found
  | some (id, _) ↦ ok (id, record db { developments = adjust id (start now) db.developments })
]

abbrev pub runs : Uuid → Db → Bool
runs id db = elim (lookup id db.developments) [ none ↦ false | some d ↦ is_running d.status ]

-- finishScenarioDevelopment, which only a running row takes.
unfoldable pub finish_development : ℕ → Uuid → DevelopmentStatus → Text → Db → Result Error Db
finish_development now id status detail db = do
  reject_if (not (runs id db)) not_found
  let finish : Development → Development =
      λ d. record { status = status; detail = detail; updated_at = now }
  ok (record db { developments = adjust id finish db.developments })

unfoldable pub complete_development : ℕ → Uuid → Text → Db → Result Error Db
complete_development now id detail = finish_development now id developed detail

unfoldable pub block_development : ℕ → Uuid → Text → Db → Result Error Db
block_development now id detail = finish_development now id blocked detail
