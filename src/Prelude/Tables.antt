-- ===== src/Prelude/Tables.antt =====
-- A database table keyed by its primary key, the newest row first. The reads and writes are those
-- of the SQL statements: a select by key, an insert, an update by key.
use Prim.Native.Nat.{ℕ}
use mathlib.Core.Path.{◌≡◌, refl}
use mathlib.Core.Bool.{Bool, true, false, ◌||◌}
use mathlib.Core.List.{List, [], ◌∷◌}
use mathlib.Core.Option.{Option, none, some}
use native.Mathlib.Omega.{arith}
use mathlib.Core.Logic.{inl, inr}
use viki.Prelude.Lists.{any}
use viki.Prelude.Tests.{Bool-cases, ◌==◌, if◌then◌else◌}

pub or_false_left : (a b : Bool) → (a || b) ≡ false → a ≡ false
or_false_left false b h = refl
or_false_left true b h = cc

pub or_false_right : (a b : Bool) → (a || b) ≡ false → b ≡ false
or_false_right false b h = h
or_false_right true b h = cc

abbrev pub Table {ℓ} : Type ℓ → Type ℓ
Table V = List (ℕ × V)

module _ {ℓ} {V : Type ℓ} where
  -- SELECT ... WHERE id = k
  unfoldable pub lookup : ℕ → Table V → Option V
  lookup k [] = none
  lookup k ((j, v) ∷ t) = if j == k then some v else lookup k t

  -- INSERT of a row whose key is free; the caller tests for the key.
  unfoldable pub insert : ℕ → V → Table V → Table V
  insert k v t = (k, v) ∷ t

  -- UPDATE ... WHERE id = k
  unfoldable pub adjust : ℕ → (V → V) → Table V → Table V
  adjust k f [] = []
  adjust k f ((j, v) ∷ t) = let rest = adjust k f t in ((j, if j == k then f v else v) ∷ rest)

  pub lookup-nil : (k : ℕ) → lookup k [] ≡ none
  unfolding lookup
  lookup-nil k = refl

  pub lookup-cons :
      (k j : ℕ) (v : V) (t : Table V)
      → lookup k ((j, v) ∷ t) ≡ (if j == k then some v else lookup k t)
  unfolding lookup
  lookup-cons k j v t = refl

  pub lookup-insert :
      (k j : ℕ) (v : V) (t : Table V)
      → lookup j (insert k v t) ≡ (if k == j then some v else lookup j t)
  unfolding lookup insert
  lookup-insert k j v t = refl

  abbrev pub map_option : (V → V) → Option V → Option V
  map_option f none = none
  map_option f (some v) = some (f v)

  pub lookup-adjust :
      (k j : ℕ) (f : V → V) (t : Table V)
      → lookup j (adjust k f t) ≡ (if k == j then map_option f (lookup j t) else lookup j t)
  unfolding lookup adjust
  lookup-adjust k j f [] = ground arith
  lookup-adjust k j f ((i, v) ∷ t) = ground (arith, lookup-adjust k j f t)

  -- A test that no row passes fails at the row of each key.
  pub any-lookup :
      (test : ℕ × V → Bool) (t : Table V) (k : ℕ) (v : V)
      → any test t ≡ false
      → lookup k t ≡ some v
      → test (k, v) ≡ false
  unfolding lookup
  any-lookup test [] k v h e = cc
  any-lookup test ((j, w) ∷ t) k v h e = elim (Bool-cases (j == k)) [
    | inl same ↦
        let at_key : w ≡ v = cc (rw same at e) in
        let key : j ≡ k = ground (arith, same) in
        rw (← at_key, ← key) (or_false_left (test (j, w)) _ h)
    | inr other ↦ any-lookup test t k v (or_false_right (test (j, w)) _ h) (rw other at e)
  ]
