-- ===== src/Pages/Render/Filled.antt =====
-- What renderStepExpression of pages_write.go makes of an expression and its arguments.
use viki.Assistant.Markers.{has_prefix_split}
use viki.Prelude.{
  ℕ, zero, suc, ◌+◌, ◌≤◌, ◌≡◌, ◌≢◌, refl, sym, ap, ◌∙◌, ◌↔◌, ◌⊎◌, inl, inr, Bool, true, false, not,
  ◌==◌, List, [], ◌∷◌, ◌++◌, none, All, Text, codes, has_prefix, trim_space, drop, length,
  Bool-cases, ok, reject_if->>, >>=-eq-ok, ok-injective, arith,
}
use mathlib.Core.Path.{subst}
use viki.Pages.Render.{
  Parameter, string_parameter, int_parameter, word_parameter, char, hole, parameter_at, pieces,
  holes, quote, fill, is_integer, is_one_word, render_pieces, has_brace, render_step_expression,
  parameter_count, unsupported_parameter,
}

abbrev pub mark : Parameter → Text
mark string_parameter = codes "{string}"
mark int_parameter = codes "{int}"
mark word_parameter = codes "{word}"

no_parameter :
    (t : Text) → ((p : Parameter) → has_prefix t (mark p) ≡ false) → parameter_at t ≡ none
no_parameter t h = rw (h string_parameter, h int_parameter, h word_parameter) refl

parameter_found :
    (p : Parameter) (t : Text)
    → has_prefix t (mark p) ≡ true
    → (q : Parameter) × (s : Text) × (t ≡ mark q ++ s)
parameter_found p t h = (p, drop (length (mark p)) t, has_prefix_split t (mark p) h)

-- A parameter stands at the start of the text, or none does.
parameter_cases :
    (t : Text)
    → ((p : Parameter) → has_prefix t (mark p) ≡ false)
      ⊎ ((p : Parameter) × (s : Text) × (t ≡ mark p ++ s))
parameter_cases t = elim (Bool-cases (has_prefix t (mark string_parameter))) [
  | inl here ↦ inr (parameter_found string_parameter t here)
  | inr no_string ↦ elim (Bool-cases (has_prefix t (mark int_parameter))) [
    | inl here ↦ inr (parameter_found int_parameter t here)
    | inr no_int ↦ elim (Bool-cases (has_prefix t (mark word_parameter))) [
      | inl here ↦ inr (parameter_found word_parameter t here)
      | inr no_word ↦ inl (none_of no_string no_int no_word)
    ]
  ]
]
  where
    none_of :
        has_prefix t (mark string_parameter) ≡ false
        → has_prefix t (mark int_parameter) ≡ false
        → has_prefix t (mark word_parameter) ≡ false
        → (p : Parameter) → has_prefix t (mark p) ≡ false
    none_of a b c string_parameter = a
    none_of a b c int_parameter = b
    none_of a b c word_parameter = c

pieces-nil : pieces 0 [] ≡ []
unfolding pieces
pieces-nil = refl

pieces-mark : (p : Parameter) (s : Text) → pieces 0 (mark p ++ s) ≡ hole p ∷ pieces 0 s
unfolding pieces
pieces-mark string_parameter s = refl
pieces-mark int_parameter s = refl
pieces-mark word_parameter s = refl

pieces-char :
    (c : ℕ) (s : Text) → parameter_at (c ∷ s) ≡ none → pieces 0 (c ∷ s) ≡ char c ∷ pieces 0 s
unfolding pieces
pieces-char c s h = rw (h, pieces) refl

length-mark : (p : Parameter) (s : Text) → suc (length s) ≤ length (mark p ++ s)
length-mark string_parameter s = omega arith
length-mark int_parameter s = omega arith
length-mark word_parameter s = omega arith

-- No brace is left in the text.
abbrev pub NoBrace : Text → Type 0
NoBrace s = All (λ (c : ℕ). (c ≢ b'{') × (c ≢ b'}')) s

has_brace_iff : (s : Text) → (has_brace s ≡ false) ↔ NoBrace s
unfolding has_brace
has_brace_iff [] = (λ h. tt, λ h. refl)
has_brace_iff (c ∷ s) = (
  λ h. ((ground (arith, h), ground (arith, h)), (has_brace_iff s).0 (ground (arith, h))),
  λ h. ground (arith, h.0.0, h.0.1, (has_brace_iff s).1 h.1),
)

module _ (prints : ℕ → Bool) where
  -- The text that stands for an argument: a string in quotes, an integer or a word as it is.
  pub data Shows : Parameter → Text → Text → Type 0 where
    shows_string : {value : Text} → Shows string_parameter value (quote prints value)
    shows_int : {value : Text} → is_integer value ≡ true → Shows int_parameter value value
    shows_word : {value : Text} → is_one_word value ≡ true → Shows word_parameter value value

  -- The expression with the arguments in the places of its parameters, from left to right; what is
  -- no parameter stays.
  pub data Filled : Text → List Text → Text → Type 0 where
    filled_end : Filled [] [] []
    filled_char :
        {c : ℕ} {s : Text} {arguments : List Text} {out : Text}
        → ((p : Parameter) → has_prefix (c ∷ s) (mark p) ≡ false)
        → Filled s arguments out
        → Filled (c ∷ s) arguments (c ∷ out)
    filled_hole :
        {e s : Text} {arguments : List Text} {out : Text} (p : Parameter) (value here : Text)
        → e ≡ mark p ++ s
        → Shows p value here
        → Filled s arguments out
        → Filled e (value ∷ arguments) (here ++ out)

  fill-Shows :
      (index : ℕ) (p : Parameter) (value here : Text)
      → fill prints index p value ≡ ok here
      → Shows p value here
  unfolding fill
  fill-Shows index string_parameter value here h =
      subst (Shows string_parameter value) (ok-injective h) shows_string
  fill-Shows index int_parameter value here h = elim (Bool-cases (is_integer value)) [
    | inl is_int ↦
        subst (Shows int_parameter value) (ok-injective (rw is_int at h)) (shows_int is_int)
    | inr other ↦ cc (rw other at h)
  ]
  fill-Shows index word_parameter value here h = elim (Bool-cases (is_one_word value)) [
    | inl is_word ↦
        subst (Shows word_parameter value) (ok-injective (rw is_word at h)) (shows_word is_word)
    | inr other ↦ cc (rw other at h)
  ]

  Shows-fill :
      (index : ℕ) {p : Parameter} {value here : Text}
      → Shows p value here
      → fill prints index p value ≡ ok here
  unfolding fill
  Shows-fill index shows_string = refl
  Shows-fill index (shows_int h) = rw h refl
  Shows-fill index (shows_word h) = rw h refl

  hole-Filled :
      (index : ℕ) (p : Parameter) (e s : Text) (arguments : List Text) (out : Text)
      → e ≡ mark p ++ s
      → ((others : List Text) (rest : Text)
          → holes (pieces 0 s) ≡ length others
          → render_pieces prints (index + 1) (pieces 0 s) others ≡ ok rest
          → Filled s others rest)
      → holes (hole p ∷ pieces 0 s) ≡ length arguments
      → render_pieces prints index (hole p ∷ pieces 0 s) arguments ≡ ok out
      → Filled e arguments out
  unfolding render_pieces holes
  hole-Filled index p e s [] out starts ih count h = cc
  hole-Filled index p e s (value ∷ others) out starts ih count h =
      let (here, filled, h1) = >>=-eq-ok (fill prints index p value) _ h in
      let (rest, rendered, h2) =
        >>=-eq-ok (render_pieces prints (index + 1) (pieces 0 s) others) _ h1 in
      subst (Filled e (value ∷ others)) (ok-injective h2) (
        filled_hole p value here starts (fill-Shows index p value here filled)
          (ih others rest (omega (arith, count)) rendered))

  render-Filled :
      (fuel index : ℕ) (e : Text) (arguments : List Text) (out : Text)
      → length e ≤ fuel
      → holes (pieces 0 e) ≡ length arguments
      → render_pieces prints index (pieces 0 e) arguments ≡ ok out
      → Filled e arguments out
  unfolding render_pieces holes
  render-Filled fuel index [] [] out short count h =
      subst (Filled [] []) (ok-injective (rw pieces-nil at h)) filled_end
  render-Filled fuel index [] (value ∷ arguments) out short count h =
      absurd (omega (arith, rw pieces-nil at count))
  render-Filled zero index (c ∷ s) arguments out short count h = absurd (omega (arith, short))
  render-Filled (suc fuel) index (c ∷ s) arguments out short count h =
      elim (parameter_cases (c ∷ s)) [
        | inl plain ↦
            let split = pieces-char c s (no_parameter (c ∷ s) plain) in
            let (rest, e, h1) =
              >>=-eq-ok (render_pieces prints index (pieces 0 s) arguments) _ (rw split at h) in
            subst (Filled (c ∷ s) arguments) (ok-injective h1) (
              filled_char plain (
                render-Filled fuel index s arguments rest (omega (arith, short)) (rw split at count)
                  e))
        | inr (p, after, starts) ↦
            let split : pieces 0 (c ∷ s) ≡ hole p ∷ pieces 0 after =
              ap (pieces 0) starts ∙ pieces-mark p after in
            let size : suc (length s) ≡ length (mark p ++ after) =
              ap (λ (t : Text). length t) starts in
            let shorter : length after ≤ fuel = omega (arith, short, size, length-mark p after) in
            hole-Filled index p (c ∷ s) after arguments out starts
              (λ others rest. render-Filled fuel (index + 1) after others rest shorter)
              (rw split at count) (rw split at h)
      ]

  Filled-render :
      {e : Text} {arguments : List Text} {out : Text}
      → Filled e arguments out
      → (holes (pieces 0 e) ≡ length arguments)
        × ((index : ℕ) → render_pieces prints index (pieces 0 e) arguments ≡ ok out)
  unfolding render_pieces holes
  Filled-render filled_end = rw pieces-nil (refl, λ index. refl)
  Filled-render (filled_char {c} {s} {arguments} {out} plain rest) =
      let (count, render) = Filled-render rest in
      rw (pieces-char c s (no_parameter (c ∷ s) plain)) (count, λ index. rw (render index) refl)
  Filled-render (filled_hole {e} {s} {arguments} {out} p value here starts shown rest) =
      let (count, render) = Filled-render rest in
      rw (ap (pieces 0) starts ∙ pieces-mark p s)
        (ap suc count, λ index. rw (Shows-fill index shown, render (index + 1)) refl)

  -- An expression is rendered exactly when its arguments fill its parameters, one each from left to
  -- right, and no brace is in the result: a string is put in quotes, a value for an integer is one,
  -- and a value for a word is one word. The text is that result without the white space around it.
  pub render_step_expression_iff :
      (expression : Text) (arguments : List Text) (text : Text)
      → (render_step_expression prints expression arguments ≡ ok text)
        ↔ ((out : Text) × Filled expression arguments out × NoBrace out × (text ≡ trim_space out))
  unfolding render_step_expression
  render_step_expression_iff expression arguments text = (only, if_filled)
    where
      only :
          render_step_expression prints expression arguments ≡ ok text
          → (out : Text) × Filled expression arguments out × NoBrace out × (text ≡ trim_space out)
      only h =
          let (count, h1) =
            reject_if->> (not (holes (pieces 0 expression) == length arguments)) parameter_count _
              h in
          let (out, rendered, h2) =
            >>=-eq-ok (render_pieces prints 0 (pieces 0 expression) arguments) _ h1 in
          let (plain, h3) = reject_if->> (has_brace out) unsupported_parameter _ h2 in
          (
            out,
            render-Filled (length expression) 0 expression arguments out (omega arith)
                (ground (arith, count)) rendered,
            (has_brace_iff out).0 plain,
            sym (ok-injective h3),
          )

      if_filled :
          ((out : Text) × Filled expression arguments out × NoBrace out × (text ≡ trim_space out))
          → render_step_expression prints expression arguments ≡ ok text
      if_filled (out, filled, plain, trimmed) =
          let (count, render) = Filled-render filled in
          let even : (holes (pieces 0 expression) == length arguments) ≡ true =
            ground (arith, count) in
          rw even (rw (render 0) (rw ((has_brace_iff out).1 plain) (ap ok (sym trimmed))))
