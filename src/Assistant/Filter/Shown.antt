-- ===== src/Assistant/Filter/Shown.antt =====
-- A description of what may be shown of a stream, against which internalStreamFilter of
-- backend/internal/app/assistant_runtime.go is proved: it goes byte by byte and keeps no buffer.
use viki.Prelude.{
  ℕ, zero, suc, ◌+◌, ◌-◌, ◌≤◌, ◌<◌, ◌≡◌, refl, sym, ap, ◌∙◌, Bool, true, false, not, inl, inr, some,
  [], ◌∷◌, ◌++◌, length, take, drop, Text, has_prefix, Bool-cases, if◌then◌else◌, arith,
}
use native.Mathlib.Nat.{zero-add}
use viki.Assistant.Markers.{
  index_of, later-some, suc_plus, index_of_fits, has_prefix_fits, has_prefix-append,
}

drop_pred : (n c : ℕ) (b : Text) → 0 < n → drop n (c ∷ b) ≡ drop (n - 1) b
drop_pred zero c b h = ground (arith, h)
drop_pred (suc n) c b h = ap (λ (m : ℕ). drop m b) (omega arith)

-- What is shown of a text that holds no marker.
abbrev pub seen : Bool → Text → Text → Text
seen true t rest = rest
seen false t rest = t ++ rest

module _ (start_marker end_marker : Text) where
  -- The marker at which the text inside or outside an internal context ends.
  abbrev pub mark : Bool → Text
  mark true = end_marker
  mark false = start_marker

  -- The text outside the internal contexts; the number counts the bytes of a marker still to come.
  unfoldable pub shown : Bool → ℕ → Text → Text
  shown inside n [] = []
  shown inside (suc n) (c ∷ s) = shown inside n s
  shown inside zero (c ∷ s) =
      let past = shown (not inside) (length (mark inside) - 1) s in
      let on = seen inside (c ∷ []) (shown inside zero s) in
      if has_prefix (c ∷ s) (mark inside) then past else on

  shown_skip :
      (inside : Bool) (n : ℕ) (s d : Text)
      → n ≤ length s
      → shown inside n (s ++ d) ≡ shown inside 0 (drop n s ++ d)
  unfolding shown
  shown_skip inside zero s d h = refl
  shown_skip inside (suc n) [] d h = ground (arith, h)
  shown_skip inside (suc n) (c ∷ s) d h = shown_skip inside n s d (omega (arith, h))

  seen-cons :
      (inside : Bool) (c : ℕ) (t rest : Text)
      → seen inside (c ∷ []) (seen inside t rest) ≡ seen inside (c ∷ t) rest
  seen-cons true c t rest = refl
  seen-cons false c t rest = refl

  seen-nil : (inside : Bool) (c : ℕ) (rest : Text) → seen inside [] rest ≡ rest
  seen-nil true c rest = refl
  seen-nil false c rest = refl

  -- Up to a place before which no marker starts, the text is seen as it is.
  pub shown_before :
      (inside : Bool) (n : ℕ) (b d : Text)
      → n ≤ length b
      → ((p : ℕ) → p < n → has_prefix (drop p b ++ d) (mark inside) ≡ false)
      → shown inside 0 (b ++ d) ≡ seen inside (take n b) (shown inside 0 (drop n b ++ d))
  unfolding shown
  shown_before true zero b d h clear = refl
  shown_before false zero b d h clear = refl
  shown_before inside (suc n) [] d h clear = ground (arith, h)
  shown_before inside (suc n) (c ∷ b) d h clear =
      let here = clear 0 (omega arith) in
      let rest =
        shown_before inside n b d (omega (arith, h)) (λ p l. clear (suc p) (omega (arith, l))) in
      rw (here, rest) (seen-cons inside c (take n b) _)

  -- At the first marker the text changes sides.
  pub shown_marker :
      (inside : Bool) (b d : Text) (k : ℕ)
      → 0 < length (mark inside)
      → index_of b (mark inside) ≡ some k
      → shown inside 0 (b ++ d)
        ≡ seen inside (take k b) (shown (not inside) 0 (drop (k + length (mark inside)) b ++ d))
  unfolding shown index_of
  shown_marker inside [] d k h e = ground (arith, h, has_prefix_fits [] (mark inside))
  shown_marker inside (c ∷ b) d k h e = elim (Bool-cases (has_prefix (c ∷ b) (mark inside))) [
    | inl here ↦
        let fits = has_prefix_fits (c ∷ b) (mark inside) here in
        let first = has_prefix-append (c ∷ b) d (mark inside) fits ∙ here in
        let at_start : k ≡ 0 = ground (arith, rw here at e) in
        let skip = shown_skip (not inside) (length (mark inside) - 1) b d (omega (arith, fits)) in
        rw (first, at_start, zero-add)
          (skip ∙ rw (sym (drop_pred (length (mark inside)) c b h)) (sym (seen-nil inside c _)))
    | inr not_here ↦
        let (j, found, past) = later-some (index_of b (mark inside)) k (rw not_here at e) in
        let fits = index_of_fits b (mark inside) j found in
        let first = has_prefix-append (c ∷ b) d (mark inside) (omega (arith, fits)) ∙ not_here in
        rw (first, past, suc_plus j (length (mark inside)), shown_marker inside b d j h found)
          (seen-cons inside c (take j b) _)
  ]
