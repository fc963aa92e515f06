-- ===== src/Wiki/Candidates.antt =====
-- The search of the queue in backend/internal/postgres/development.go finds the first candidate.
use viki.Prelude.{
  ℕ, ◌≡◌, refl, Bool, true, false, not, ◌&&◌, Option, none, some, [], ◌∷◌, All, any, ◌==◌,
  if◌then◌else◌, Table, arith,
}
use viki.Model.{Uuid}
use viki.Wiki.State.{Db, Development}
use viki.Wiki.Queue.{is_queued, comes_before, better, next_queued, approval, consider, Candidate}

-- A revision approved at `a` does not come before the candidate; there is one.
abbrev pub loses : Option ℕ → Uuid → Candidate → Bool
loses a i none = false
loses a i (some (j, t)) = not (comes_before a i t j)

-- Every queued development of a known revision loses.
abbrev pub AreLater : Db → Candidate → Table Development → Type 0
AreLater db best = All (λ (row : Uuid × Development).
    is_queued row.1.status ≡ true
    → (a : Option ℕ) → approval row.0 db ≡ some a
    → loses a row.0 best ≡ true)

not_before :
    (a b c : Option ℕ) (i j k : Uuid)
    → comes_before a i b j ≡ true
    → comes_before c k b j ≡ false
    → comes_before c k a i ≡ false
not_before a b c i j k h g = ground (arith, h, g)

loses-better :
    (a c : Option ℕ) (i k : Uuid) (best : Candidate)
    → loses c k best ≡ true
    → loses c k (better i a best) ≡ true
loses-better a c i k none h = cc
loses-better a c i k (some (j, b)) h = ground (arith, h, not_before a b c i j k)

own_loses : (a : Option ℕ) (i : Uuid) (best : Candidate) → loses a i (better i a best) ≡ true
own_loses a i none = ground arith
own_loses a i (some (j, b)) = ground arith

loses-consider :
    (a : Option (Option ℕ)) (q : Bool) (c : Option ℕ) (i k : Uuid) (best : Candidate)
    → loses c k best ≡ true
    → loses c k (consider i q a best) ≡ true
loses-consider none true c i k best h = h
loses-consider (some a) true c i k best h = loses-better a c i k best h
loses-consider a false c i k best h = h

own_considered :
    (a : Option (Option ℕ)) (q : Bool) (c : Option ℕ) (i : Uuid) (best : Candidate)
    → q ≡ true
    → a ≡ some c
    → loses c i (consider i q a best) ≡ true
own_considered a q c i best waiting at = rw (waiting, at) (own_loses c i best)

later_still :
    (db : Db) (a : Option (Option ℕ)) (q : Bool) (i : Uuid) (best : Candidate)
    (t : Table Development)
    → AreLater db best t
    → AreLater db (consider i q a best) t
later_still db a q i best [] h = tt
later_still db a q i best (row ∷ t) h = (
  (λ waiting c at. loses-consider a q c i row.0 best (h.0 waiting c at)),
  later_still db a q i best t h.1,
)

pub next_queued-AreLater : (db : Db) (t : Table Development) → AreLater db (next_queued db t) t
unfolding next_queued
next_queued-AreLater db [] = tt
next_queued-AreLater db ((i, d) ∷ t) = (
  (λ waiting c at.
      own_considered (approval i db) (is_queued d.status) c i (next_queued db t) waiting at),
  later_still db (approval i db) (is_queued d.status) i (next_queued db t) t
      (next_queued-AreLater db t),
)

-- A candidate is a queued development of a revision with that approval time.
abbrev pub IsCandidate : Db → Table Development → Candidate → Type 0
IsCandidate db t none = Unit
IsCandidate db t (some (id, at)) =
    (any (λ (row : Uuid × Development). row.0 == id && is_queued row.1.status) t ≡ true)
    × (approval id db ≡ some at)

consider-IsCandidate :
    (db : Db) (i : Uuid) (d : Development) (t : Table Development) (a : Option (Option ℕ))
    (q : Bool) (best : Candidate)
    → is_queued d.status ≡ q
    → approval i db ≡ a
    → IsCandidate db t best
    → IsCandidate db ((i, d) ∷ t) (consider i q a best)
consider-IsCandidate db i d t a false none e f h = tt
consider-IsCandidate db i d t a false (some (j, b)) e f h = (ground (arith, h.0), h.1)
consider-IsCandidate db i d t none true none e f h = tt
consider-IsCandidate db i d t none true (some (j, b)) e f h = (ground (arith, h.0), h.1)
consider-IsCandidate db i d t (some a) true none e f h = (ground (arith, e), f)
consider-IsCandidate db i d t (some a) true (some (j, b)) e f h = go (comes_before a i b j)
  where
    go : (w : Bool) → IsCandidate db ((i, d) ∷ t) (if w then some (i, a) else some (j, b))
    go true = (ground (arith, e), f)
    go false = (ground (arith, h.0), h.1)

pub next_queued-IsCandidate :
    (db : Db) (t : Table Development) → IsCandidate db t (next_queued db t)
unfolding next_queued
next_queued-IsCandidate db [] = tt
next_queued-IsCandidate db ((i, d) ∷ t) =
    consider-IsCandidate db i d t (approval i db) (is_queued d.status) (next_queued db t) refl refl
      (next_queued-IsCandidate db t)
