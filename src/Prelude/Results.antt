-- ===== src/Prelude/Results.antt =====
-- Results of fallible code over an error type of the component, with `do` blocks.
use mathlib.Core.Path.{◌≡◌, refl}
use mathlib.Core.Bool.{Bool, true, false}

pub data Result {ℓ} (E : Type 0) (A : Type ℓ) : Type ℓ where
  ok : A → Result E A
  err : E → Result E A

-- `if test { return err }`
abbrev pub reject_if : {E : Type 0} → Bool → E → Result E (Unit {0})
reject_if true failure = err failure
reject_if false _ = ok tt

module _ {E : Type 0} where
  infixl 5 ◌>>=◌ ◌>>◌
  -- A call whose error is returned at once: `x, err := m(); if err != nil { return err }`.
  abbrev pub ◌>>=◌ {ℓ κ} : {A : Type ℓ} {B : Type κ} → Result E A → (A → Result E B) → Result E B
  err failure >>= rest = err failure
  ok value >>= rest = rest value

  abbrev pub ◌>>◌ {κ} : {B : Type κ} → Result E (Unit {0}) → Result E B → Result E B
  check >> rest = check >>= λ _. rest

  -- The rest of a block ran, with the value of the first part.
  pub >>=-eq-ok {ℓ κ} :
      {A : Type ℓ} {B : Type κ} (first : Result E A) (rest : A → Result E B) {out : B}
      → (first >>= rest) ≡ ok out
      → (value : A) × (first ≡ ok value) × (rest value ≡ ok out)
  >>=-eq-ok (err failure) rest done = cc
  >>=-eq-ok (ok value) rest done = (value, refl, done)

  pub ok-injective {ℓ} : {A : Type ℓ} {a b : A} → ◌≡◌ {A = Result E A} (ok a) (ok b) → a ≡ b
  ok-injective same = cc

  -- A block that goes on after a check: the check did not reject.
  pub reject_if->> {ℓ} :
      {A : Type ℓ} (test : Bool) (failure : E) (rest : Result E A) {out : A}
      → (reject_if test failure >> rest) ≡ ok out
      → (test ≡ false) × (rest ≡ ok out)
  reject_if->> true failure rest done = cc
  reject_if->> false failure rest done = (refl, done)
