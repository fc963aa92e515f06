-- ===== src/Pages/Slug.antt =====
-- slugPattern of pages_write.go, ^[a-z0-9]+(?:-[a-z0-9]+)*$: words of lower-case ASCII letters and
-- digits, joined by single hyphens.
use viki.Prelude.{
  ℕ, ◌≡◌, refl, ap, ◌∙◌, ◌↔◌, ◌⊎◌, inl, inr, Bool, true, false, ◌&&◌, ◌||◌, List, [], ◌∷◌, ◌++◌,
  All, Text, leb, ◌==◌, arith,
}

unfoldable pub is_slug_char : ℕ → Bool
is_slug_char c = leb b'a' c && leb c b'z' || leb b'0' c && leb c b'9'

-- The two states of the pattern's automaton: a word is due, or one has begun.
unfoldable mutual
  pub word_due : Text → Bool
  word_due [] = false
  word_due (c ∷ s) = is_slug_char c && in_word s

  pub in_word : Text → Bool
  in_word [] = true
  in_word (c ∷ s) = is_slug_char c && in_word s || c == b'-' && word_due s

unfoldable pub is_slug : Text → Bool
is_slug s = word_due s

-- strings.Join(words, "-")
abbrev pub join_words : List Text → Text
join_words [] = []
join_words (w ∷ []) = w
join_words (w ∷ v ∷ rest) = w ++ (b'-' ∷ join_words (v ∷ rest))

abbrev pub IsWord : Text → Type 0
IsWord [] = ⊥
IsWord (c ∷ w) = (is_slug_char c ≡ true) × All (λ d. is_slug_char d ≡ true) w

abbrev pub AreWords : List Text → Type 0
AreWords [] = ⊥
AreWords (w ∷ []) = IsWord w
AreWords (w ∷ v ∷ rest) = IsWord w × AreWords (v ∷ rest)

record Words (s : Text) : Type 0 where
  words : List Text
  joined : s ≡ join_words words
  are_words : AreWords words

-- What follows inside a word: its end, and then perhaps a hyphen and more words.
data Rest (s : Text) : Type 0 where
  last : (w : Text) → s ≡ w → All (λ d. is_slug_char d ≡ true) w → Rest s
  more : (w t : Text) → s ≡ w ++ (b'-' ∷ t) → All (λ d. is_slug_char d ≡ true) w → Words t → Rest s

char_rest_lem : (c : ℕ) (s : Text) → is_slug_char c ≡ true → Rest s → Rest (c ∷ s)
char_rest_lem c s h (last w e a) = last (c ∷ w) (ap (λ t. c ∷ t) e) (h, a)
char_rest_lem c s h (more w t e a r) = more (c ∷ w) t (ap (λ u. c ∷ u) e) (h, a) r

first_word : (c : ℕ) (s : Text) → is_slug_char c ≡ true → Rest s → Words (c ∷ s)
first_word c s h (last w e a) = record {
  words = (c ∷ w) ∷ [];
  joined = ap (λ t. c ∷ t) e;
  are_words = (h, a);
}
first_word c s h (more w t e a r) = go r.words r.joined r.are_words
  where
    go : (ws : List Text) → t ≡ join_words ws → AreWords ws → Words (c ∷ s)
    go [] j k = elim k [ ]
    go (v ∷ vs) j k = record {
      words = (c ∷ w) ∷ v ∷ vs;
      joined = ap (λ u. c ∷ u) (e ∙ ap (λ u. w ++ (b'-' ∷ u)) j);
      are_words = ((h, a), k);
    }

-- The two ways on inside a word.
next_char :
    (c : ℕ) (s : Text)
    → in_word (c ∷ s) ≡ true
    → (is_slug_char c ≡ true) × (in_word s ≡ true) ⊎ (c ≡ b'-') × (word_due s ≡ true)
unfolding word_due
next_char c s h = ground arith

mutual
  unfolding word_due

  due-Words : (s : Text) → word_due s ≡ true → Words s
  due-Words [] h = cc
  due-Words (c ∷ s) h = first_word c s (ground arith) (in-Rest s (ground arith))

  in-Rest : (s : Text) → in_word s ≡ true → Rest s
  in-Rest [] h = last [] refl tt
  in-Rest (c ∷ s) h = elim (next_char c s h) [
    | inl (p, q) ↦ char_rest_lem c s p (in-Rest s q)
    | inr (p, q) ↦ more [] s (ap (λ d. d ∷ s) p) tt (due-Words s q)
  ]

end_word : (w : Text) → All (λ d. is_slug_char d ≡ true) w → in_word w ≡ true
unfolding word_due
end_word [] a = refl
end_word (c ∷ w) a = rw (a.0, end_word w a.1)

hyphen_ends : is_slug_char b'-' ≡ false
unfolding is_slug_char
hyphen_ends = refl

hyphen_word :
    (w t : Text)
    → All (λ d. is_slug_char d ≡ true) w
    → word_due t ≡ true
    → in_word (w ++ (b'-' ∷ t)) ≡ true
unfolding word_due
hyphen_word [] t a h = rw (hyphen_ends, h)
hyphen_word (c ∷ w) t a h = rw (a.0, hyphen_word w t a.1 h)

words_due : (ws : List Text) → AreWords ws → word_due (join_words ws) ≡ true
unfolding word_due
words_due [] a = elim a [ ]
words_due ([] ∷ []) a = elim a [ ]
words_due ((c ∷ w) ∷ []) a = rw (a.0, end_word w a.1)
words_due ([] ∷ v ∷ rest) a = elim a.0 [ ]
words_due ((c ∷ w) ∷ v ∷ rest) a =
    rw (a.0.0, hyphen_word w (join_words (v ∷ rest)) a.0.1 (words_due (v ∷ rest) a.1))

-- The pattern accepts exactly the texts that join one or more words by single hyphens.
pub is_slug_iff :
    (s : Text) → (is_slug s ≡ true) ↔ ((ws : List Text) × (s ≡ join_words ws) × AreWords ws)
unfolding is_slug
is_slug_iff s = (
  λ h. let r = due-Words s h in (r.words, r.joined, r.are_words),
  λ h. rw h.1 (words_due h.0 h.2),
)
