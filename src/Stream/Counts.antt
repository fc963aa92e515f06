-- ===== src/Stream/Counts.antt =====
-- Lists of events with consecutive numbers.
use viki.Prelude.{
  ℕ, zero, suc, ◌+◌, ◌-◌, ◌≤◌, ◌≡◌, refl, Bool, true, false, List, [], ◌∷◌, ◌++◌, length, drop,
  length-append, length-drop, ltb, if◌then◌else◌, arith,
}
use viki.Stream.{Event, keep_last, after_id}

-- Events whose numbers go up by one from the number after `k`.
abbrev pub CountsFrom : ℕ → List Event → Type 0
CountsFrom k [] = Unit
CountsFrom k (e ∷ es) = (e.id ≡ k + 1) × CountsFrom (k + 1) es

-- Consecutive events of which the last has the number `n`.
abbrev pub EndsAt : ℕ → List Event → Type 0
EndsAt n es = (length es ≤ n) × CountsFrom (n - length es) es

counts_append :
    (k : ℕ) (es : List Event) (e : Event)
    → CountsFrom k es
    → e.id ≡ k + length es + 1
    → CountsFrom k (es ++ (e ∷ []))
counts_append k [] e h i = (ground (arith, i), tt)
counts_append k (x ∷ es) e h i = (h.0, counts_append (k + 1) es e h.1 (ground (arith, i)))

counts_drop :
    (m k : ℕ) (es : List Event) → CountsFrom k es → m ≤ length es → CountsFrom (k + m) (drop m es)
counts_drop zero k es h le = let eq : k ≡ k + 0 = ground arith in rw (← eq) h
counts_drop (suc m) k [] h le = tt
counts_drop (suc m) k (x ∷ es) h le =
    let step : CountsFrom (k + 1 + m) (drop m es) =
      counts_drop m (k + 1) es h.1 (ground (arith, le)) in
    let eq : k + 1 + m ≡ k + suc m = ground arith in rw (← eq) step

pub EndsAt-append :
    (n : ℕ) (es : List Event) (e : Event)
    → EndsAt n es
    → e.id ≡ n + 1
    → EndsAt (n + 1) (es ++ (e ∷ []))
EndsAt-append n es e h i =
    let size : length (es ++ (e ∷ [])) ≡ length es + 1 = length-append es (e ∷ []) in
    let le : length es ≤ n = h.0 in
    let from : n + 1 - length (es ++ (e ∷ [])) ≡ n - length es = ground (arith, size, le) in
    (
      ground (arith, size, le),
      rw from (counts_append (n - length es) es e h.1 (ground (arith, i, le))),
    )

pub EndsAt-drop : (n m : ℕ) (es : List Event) → EndsAt n es → m ≤ length es → EndsAt n (drop m es)
EndsAt-drop n m es h le =
    let small : length es ≤ n = h.0 in
    let size : length (drop m es) ≡ length es - m = length-drop m es in
    let from : n - length es + m ≡ n - length (drop m es) = ground (arith, size, small, le) in
    (ground (arith, size, small), rw (← from) (counts_drop m (n - length es) es h.1 le))

pub EndsAt-keep_last :
    (n : ℕ) (es : List Event)
    → EndsAt n es
    → EndsAt n (keep_last es) × (length (keep_last es) ≤ 256)
EndsAt-keep_last n es h = go (ltb 256 (length es)) refl
  where
    go :
        (b : Bool)
        → ltb 256 (length es) ≡ b
        → EndsAt n (if b then drop (length es - 256) es else es)
          × (length (if b then drop (length es - 256) es else es) ≤ 256)
    go true e = (
      EndsAt-drop n (length es - 256) es h (ground arith),
      ground (arith, e, length-drop (length es - 256) es),
    )
    go false e = (h, ground (arith, e))

all_after : (last k : ℕ) (es : List Event) → CountsFrom k es → last ≤ k → after_id last es ≡ es
unfolding after_id
all_after last k [] h le = refl
all_after last k (e ∷ es) h le = ground (arith, h.0, le, all_after last (k + 1) es h.1)

-- What is left after a number among those of the events.
pub after_counts :
    (last k : ℕ) (es : List Event)
    → CountsFrom k es
    → k ≤ last
    → last ≤ k + length es
    → CountsFrom last (after_id last es) × (length (after_id last es) + last ≡ k + length es)
unfolding after_id
after_counts last k [] h low high = (tt, ground (arith, low, high))
after_counts last k (e ∷ es) h low high = go (ltb last e.id) refl (after_counts last (k + 1) es h.1)
  where
    go :
        (b : Bool)
        → ltb last e.id ≡ b
        → (k + 1 ≤ last
            → last ≤ k + 1 + length es
            → CountsFrom last (after_id last es)
              × (length (after_id last es) + last ≡ k + 1 + length es))
        → CountsFrom last (if b then e ∷ after_id last es else after_id last es)
          × (length (if b then e ∷ after_id last es else after_id last es) + last
              ≡ k + length (e ∷ es))
    go true t again =
        let at : last ≡ k = ground (arith, t, h.0, low) in
        let rest : after_id last es ≡ es = all_after last (k + 1) es h.1 (ground (arith, at)) in
        rw (rest, at) ((h.0, h.1), ground arith)
    go false t again =
        let above : k + 1 ≤ last = ground (arith, t, h.0) in
        let r = again above (ground (arith, high)) in (r.0, ground (arith, r.1))
