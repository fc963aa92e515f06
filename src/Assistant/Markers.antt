-- ===== src/Assistant/Markers.antt =====
-- Searches for a marker in a text: strings.Index and strings.HasSuffix of Go's standard library and
-- longestMarkerPrefixSuffix of backend/internal/app/assistant_runtime.go. A text is the list of its
-- bytes.
use native.Mathlib.Nat.{zero-add}
use viki.Prelude.{
  ℕ, zero, suc, ◌+◌, ◌-◌, ◌≤◌, ◌<◌, ◌≡◌, refl, ap, ◌∙◌, Bool, true, false, not, ◌&&◌, ◌||◌, inl,
  inr, Option, none, some, [], ◌∷◌, ◌++◌, length, take, drop, All, any, or_false_left,
  or_false_right, length-drop, Text, has_prefix, text_eq, text_eq_refl, Bool-cases, leb, ltb, ◌==◌,
  if◌then◌else◌, arith,
}

abbrev pub later : Option ℕ → Option ℕ
later none = none
later (some k) = some (suc k)

-- strings.Index; none for a negative result
unfoldable pub index_of : Text → Text → Option ℕ
index_of [] m = if has_prefix [] m then some 0 else none
index_of (c ∷ s) m = let rest = index_of s m in if has_prefix (c ∷ s) m then some 0 else later rest

pub later-some : (o : Option ℕ) (k : ℕ) → later o ≡ some k → (j : ℕ) × (o ≡ some j) × (k ≡ suc j)
later-some none k h = cc
later-some (some j) k h = (j, refl, ground (arith, h))

-- strings.HasSuffix
unfoldable pub has_suffix : Text → Text → Bool
has_suffix s t = leb (length t) (length s) && text_eq (drop (length s - length t) s) t

-- The loop of longestMarkerPrefixSuffix, from a length down.
unfoldable pub longest_from : ℕ → Text → Text → ℕ
longest_from zero value marker = 0
longest_from (suc n) value marker =
    let rest = longest_from n value marker in
    if has_suffix value (take (suc n) marker) then suc n else rest

unfoldable pub longest_marker_prefix_suffix : Text → Text → ℕ
unfolding longest_from
longest_marker_prefix_suffix value marker =
    let most = length marker - 1 in
    longest_from (if ltb (length value) most then length value else most) value marker

pub has_prefix_fits : (s m : Text) → has_prefix s m ≡ true → length m ≤ length s
has_prefix_fits s [] h = omega arith
has_prefix_fits [] (p ∷ m) h = cc
has_prefix_fits (c ∷ s) (p ∷ m) h = ground (arith, has_prefix_fits s m)

pub has_prefix-append :
    (s d m : Text) → length m ≤ length s → has_prefix (s ++ d) m ≡ has_prefix s m
has_prefix-append s d [] h = refl
has_prefix-append [] d (p ∷ m) h = ground (arith, h)
has_prefix-append (c ∷ s) d (p ∷ m) h = ground (arith, has_prefix-append s d m)

pub has_prefix_short :
    (s d m : Text) → length s ≤ length m → has_prefix (s ++ d) m ≡ true → take (length s) m ≡ s
has_prefix_short [] d m h e = refl
has_prefix_short (c ∷ s) d [] h e = ground (arith, h)
has_prefix_short (c ∷ s) d (p ∷ m) h e = ground (arith, has_prefix_short s d m)

pub index_of_fits : (s m : Text) (k : ℕ) → index_of s m ≡ some k → k + length m ≤ length s
unfolding index_of
index_of_fits [] m k h = ground (arith, has_prefix_fits [] m)
index_of_fits (c ∷ s) m k h = elim (Bool-cases (has_prefix (c ∷ s) m)) [
  | inl here ↦ ground (arith, here, has_prefix_fits (c ∷ s) m here)
  | inr not_here ↦ later_fits (index_of s m) (index_of_fits s m) k (rw not_here at h)
]
  where
    later_fits :
        (o : Option ℕ)
        → ((j : ℕ) → o ≡ some j → j + length m ≤ length s)
        → (k : ℕ) → later o ≡ some k
        → k + length m ≤ suc (length s)
    later_fits none ih k h = cc
    later_fits (some j) ih k h = ground (arith, ih j refl)

-- A marker that a text does not hold starts nowhere in it.
pub index_of-none : (s m : Text) (p : ℕ) → index_of s m ≡ none → has_prefix (drop p s) m ≡ false
unfolding index_of
index_of-none [] m zero h = ground arith
index_of-none [] m (suc p) h = ground arith
index_of-none (c ∷ s) m zero h = ground arith
index_of-none (c ∷ s) m (suc p) h = elim (Bool-cases (has_prefix (c ∷ s) m)) [
  | inl here ↦ cc (rw here at h)
  | inr not_here ↦ index_of-none s m p (later_none (index_of s m) (rw not_here at h))
]
  where
    later_none : (o : Option ℕ) → later o ≡ none → o ≡ none
    later_none none h = refl
    later_none (some k) h = cc

-- No occurrence of a marker starts before the first one.
pub index_of-first :
    (s m : Text) (k p : ℕ) → index_of s m ≡ some k → p < k → has_prefix (drop p s) m ≡ false
unfolding index_of
index_of-first [] m k p h g = elim (Bool-cases (has_prefix [] m)) [
  | inl here ↦ ground (arith, rw here at h, g)
  | inr absent ↦ cc (rw absent at h)
]
index_of-first (c ∷ s) m k zero h g = elim (Bool-cases (has_prefix (c ∷ s) m)) [
  | inl here ↦ ground (arith, rw here at h, g)
  | inr not_here ↦ not_here
]
index_of-first (c ∷ s) m k (suc p) h g = elim (Bool-cases (has_prefix (c ∷ s) m)) [
  | inl here ↦ ground (arith, rw here at h, g)
  | inr not_here ↦
      let (j, found, past) = later-some (index_of s m) k (rw not_here at h) in
      index_of-first s m j p found (omega (arith, past, g))
]

pub index_of_short : (s m : Text) → length s < length m → index_of s m ≡ none
unfolding index_of
index_of_short [] m h = ground (arith, has_prefix_fits [] m)
index_of_short (c ∷ s) m h = ground (arith, has_prefix_fits (c ∷ s) m, index_of_short s m)

longest_from_bound : (n : ℕ) (value marker : Text) → longest_from n value marker ≤ n
unfolding longest_from
longest_from_bound zero value marker = omega arith
longest_from_bound (suc n) value marker = ground (arith, longest_from_bound n value marker)

longest_from_longest :
    (n : ℕ) (value marker : Text) (k : ℕ)
    → longest_from n value marker < k
    → k ≤ n
    → has_suffix value (take k marker) ≡ false
unfolding longest_from
longest_from_longest zero value marker k h g = ground (arith, h, g)
longest_from_longest (suc n) value marker k h g = elim (Bool-cases (k == suc n)) [
  | inl last ↦
      let same : k ≡ suc n = ground (arith, last) in
      rw same (ground (arith, rw same at h, longest_from_bound n value marker))
  | inr before ↦ ground (arith, before, longest_from_longest n value marker k)
]

pub longest_bound :
    (value marker : Text)
    → longest_marker_prefix_suffix value marker ≤ length value
      × longest_marker_prefix_suffix value marker ≤ length marker - 1
unfolding longest_marker_prefix_suffix
longest_bound value marker = ground (
  arith,
  longest_from_bound (length value) value marker,
  longest_from_bound (length marker - 1) value marker,
)

pub longest_longest :
    (value marker : Text) (k : ℕ)
    → longest_marker_prefix_suffix value marker < k
    → k ≤ length value
    → k < length marker
    → has_suffix value (take k marker) ≡ false
unfolding longest_marker_prefix_suffix
longest_longest value marker k h g f = ground (
  arith,
  longest_from_longest (length value) value marker k,
  longest_from_longest (length marker - 1) value marker k,
)

pub has_suffix-drop : (p : ℕ) (s : Text) → p ≤ length s → has_suffix s (drop p s) ≡ true
unfolding has_suffix
has_suffix-drop p s h =
    let back : length s - length (drop p s) ≡ p = omega (arith, length-drop p s) in
    rw back (ground (arith, text_eq_refl (drop p s), length-drop p s))

pub has_prefix_split : (s m : Text) → has_prefix s m ≡ true → s ≡ m ++ drop (length m) s
has_prefix_split s [] h = refl
has_prefix_split [] (p ∷ m) h = cc
has_prefix_split (c ∷ s) (p ∷ m) h = ground (arith, has_prefix_split s m)

pub suc_plus : (m n : ℕ) → suc m + n ≡ suc (m + n)
suc_plus m n = omega arith

-- The text from the first occurrence of a marker.
pub drop-index_of :
    (s m : Text) (k : ℕ) → index_of s m ≡ some k → drop k s ≡ m ++ drop (k + length m) s
unfolding index_of
drop-index_of [] m k h = ground (arith, has_prefix_split [] m)
drop-index_of (c ∷ s) m k h = elim (Bool-cases (has_prefix (c ∷ s) m)) [
  | inl here ↦
      let at_start : k ≡ 0 = ground (arith, rw here at h) in
      rw (at_start, zero-add) (has_prefix_split (c ∷ s) m here)
  | inr not_here ↦
      let (j, found, past) = later-some (index_of s m) k (rw not_here at h) in
      rw (past, suc_plus j (length m)) (drop-index_of s m j found)
]

-- Two texts that differ at a place that both have.
abbrev differ : Text → Text → Bool
differ [] m = false
differ (c ∷ s) [] = false
differ (c ∷ s) (p ∷ m) = not (c == p) || differ s m

-- Each end of the text differs from the marker, so no occurrence of the marker starts in the text.
abbrev pub differ_everywhere : Text → Text → Bool
differ_everywhere [] m = true
differ_everywhere (c ∷ s) m = differ (c ∷ s) m && differ_everywhere s m

has_prefix-differ : (s m r : Text) → differ s m ≡ true → has_prefix (s ++ r) m ≡ false
has_prefix-differ [] m r h = cc
has_prefix-differ (c ∷ s) [] r h = cc
has_prefix-differ (c ∷ s) (p ∷ m) r h = ground (arith, has_prefix-differ s m r)

pub index_of_past :
    (s m r : Text) (k : ℕ)
    → differ_everywhere s m ≡ true
    → index_of (s ++ r) m ≡ some k
    → (j : ℕ) × (k ≡ length s + j) × (index_of r m ≡ some j)
unfolding index_of
index_of_past [] m r k h e = (k, omega arith, e)
index_of_past (c ∷ s) m r k h e =
    let here : differ (c ∷ s) m ≡ true = ground (arith, h) in
    let rest : differ_everywhere s m ≡ true = ground (arith, h) in
    let absent = has_prefix-differ (c ∷ s) m r here in
    let (i, found, past) = later-some (index_of (s ++ r) m) k (rw absent at e) in
    let (j, sum, at) = index_of_past s m r i rest found in (j, omega (arith, past, sum), at)

abbrev pub Lacks : ℕ → Text → Type 0
Lacks p s = All (λ (c : ℕ). (c == p) ≡ false) s

abbrev pub shift : ℕ → Option ℕ → Option ℕ
shift zero o = o
shift (suc n) o = later (shift n o)

pub shift-some : (n j : ℕ) → shift n (some j) ≡ some (n + j)
shift-some zero j = ap (λ (k : ℕ). some k) (omega arith)
shift-some (suc n) j = ap later (shift-some n j) ∙ ap (λ (k : ℕ). some k) (omega arith)

-- A marker does not start in a text that lacks its first byte.
pub index_of-Lacks :
    (p : ℕ) (s r m : Text)
    → Lacks p s
    → index_of (s ++ r) (p ∷ m) ≡ shift (length s) (index_of r (p ∷ m))
unfolding index_of
index_of-Lacks p [] r m h = refl
index_of-Lacks p (c ∷ s) r m h = rw (h.0) (ap later (index_of-Lacks p s r m h.1))

pub has_prefix_self : (m r : Text) → has_prefix (m ++ r) m ≡ true
has_prefix_self [] r = refl
has_prefix_self (c ∷ m) r = ground (arith, has_prefix_self m r)

pub index_of_self : (m r : Text) → index_of (m ++ r) m ≡ some 0
unfolding index_of
index_of_self [] [] = refl
index_of_self [] (c ∷ r) = refl
index_of_self (c ∷ m) r = rw (has_prefix_self (c ∷ m) r) refl

pub any-Lacks : (p : ℕ) (s : Text) → any (λ (c : ℕ). c == p) s ≡ false → Lacks p s
any-Lacks p [] h = tt
any-Lacks p (c ∷ s) h = (or_false_left (c == p) _ h, any-Lacks p s (or_false_right (c == p) _ h))

pub has_prefix-append_left : (s m n : Text) → has_prefix s (m ++ n) ≡ true → has_prefix s m ≡ true
has_prefix-append_left s [] n h = refl
has_prefix-append_left [] (p ∷ m) n h = cc
has_prefix-append_left (c ∷ s) (p ∷ m) n h = ground (arith, has_prefix-append_left s m n)
