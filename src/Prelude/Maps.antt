-- ===== src/Prelude/Maps.antt =====
-- Go maps keyed by text, as lists of pairs in which the latest pair of a key counts.
use mathlib.Core.Path.{◌≡◌, refl}
use mathlib.Core.Bool.{false}
use mathlib.Core.Logic.{inl, inr}
use viki.Prelude.Lists.{All}
use mathlib.Core.List.{List, [], ◌∷◌}
use mathlib.Core.Option.{Option, none, some}
use native.Mathlib.Omega.{arith}
use viki.Prelude.Tests.{Bool-cases, if◌then◌else◌}
use viki.Prelude.Texts.{Text, text_eq, text_eq→≡, text_eq_refl}

module _ {ℓ} {V : Type ℓ} where
  -- m[k]
  unfoldable pub find_key : Text → List (Text × V) → Option V
  find_key k [] = none
  find_key k ((j, v) ∷ rest) =
      let others = find_key k rest in if text_eq j k then some v else others

  -- m[k] = v
  unfoldable pub put_key : Text → V → List (Text × V) → List (Text × V)
  put_key k v m = (k, v) ∷ m

  -- delete(m, k)
  unfoldable pub drop_key : Text → List (Text × V) → List (Text × V)
  drop_key k [] = []
  drop_key k ((j, v) ∷ rest) =
      let others = drop_key k rest in if text_eq j k then others else (j, v) ∷ others

  pub find_key-nil : (k : Text) → find_key k [] ≡ none
  unfolding find_key
  find_key-nil k = refl

  pub find_key-put_key :
      (j k : Text) (v : V) (m : List (Text × V))
      → find_key j (put_key k v m) ≡ (if text_eq k j then some v else find_key j m)
  unfolding find_key put_key
  find_key-put_key j k v m = refl

  pub find_key-drop_key :
      (j k : Text) (m : List (Text × V))
      → find_key j (drop_key k m) ≡ (if text_eq k j then none else find_key j m)
  unfolding find_key drop_key
  find_key-drop_key j k [] = ground arith
  find_key-drop_key j k ((i, v) ∷ m) = ground (
    arith,
    find_key-drop_key j k m,
    text_eq→≡ i k,
    text_eq→≡ i j,
    text_eq→≡ k j,
    text_eq_refl k,
    text_eq_refl j,
    text_eq_refl i,
  )

  -- The pairs that `range m` goes through: each key once.
  unfoldable pub pairs : List (Text × V) → List (Text × V)
  unfolding drop_key
  pairs [] = []
  pairs ((k, v) ∷ rest) = (k, v) ∷ drop_key k (pairs rest)

  -- No two pairs have the same key.
  abbrev pub DistinctKeys : List (Text × V) → Type ℓ
  DistinctKeys [] = Unit
  DistinctKeys ((k, v) ∷ rest) =
      All (λ (p : Text × V). text_eq k p.0 ≡ false) rest × DistinctKeys rest

  All-drop_key {κ} :
      (P : Text × V → Type κ) (k : Text) (m : List (Text × V)) → All P m → All P (drop_key k m)
  unfolding drop_key
  All-drop_key P k [] h = h
  All-drop_key P k ((j, v) ∷ m) h = elim (Bool-cases (text_eq j k)) [
    | inl same ↦ rw same (All-drop_key P k m h.1)
    | inr other ↦ rw other (h.0, All-drop_key P k m h.1)
  ]

  drop_key-apart :
      (k : Text) (m : List (Text × V))
      → All (λ (p : Text × V). text_eq k p.0 ≡ false) (drop_key k m)
  unfolding drop_key
  drop_key-apart k [] = tt
  drop_key-apart k ((j, v) ∷ m) = elim (Bool-cases (text_eq j k)) [
    | inl same ↦ rw same (drop_key-apart k m)
    | inr other ↦
        rw other (ground (arith, other, text_eq→≡ k j, text_eq_refl k), drop_key-apart k m)
  ]

  drop_key-DistinctKeys :
      (k : Text) (m : List (Text × V)) → DistinctKeys m → DistinctKeys (drop_key k m)
  unfolding drop_key
  drop_key-DistinctKeys k [] h = h
  drop_key-DistinctKeys k ((j, v) ∷ m) h = elim (Bool-cases (text_eq j k)) [
    | inl same ↦ rw same (drop_key-DistinctKeys k m h.1)
    | inr other ↦ rw other (All-drop_key _ k m h.0, drop_key-DistinctKeys k m h.1)
  ]

  pub pairs-DistinctKeys : (m : List (Text × V)) → DistinctKeys (pairs m)
  unfolding pairs
  pairs-DistinctKeys [] = tt
  pairs-DistinctKeys ((k, v) ∷ m) =
      (drop_key-apart k (pairs m), drop_key-DistinctKeys k (pairs m) (pairs-DistinctKeys m))

  find_each :
      (k : Text) (v : V) (m ps : List (Text × V))
      → All (λ (p : Text × V). text_eq k p.0 ≡ false) ps
      → All (λ (p : Text × V). find_key p.0 m ≡ some p.1) ps
      → All (λ (p : Text × V). find_key p.0 ((k, v) ∷ m) ≡ some p.1) ps
  unfolding find_key
  find_each k v m [] apart found = tt
  find_each k v m (p ∷ ps) apart found =
      (rw (apart.0) (found.0), find_each k v m ps apart.1 found.1)

  -- Each pair is what its key finds.
  pub pairs-find_key :
      (m : List (Text × V)) → All (λ (p : Text × V). find_key p.0 m ≡ some p.1) (pairs m)
  unfolding pairs find_key
  pairs-find_key [] = tt
  pairs-find_key ((k, v) ∷ m) = (
    rw (text_eq_refl k) refl,
    find_each k v m (drop_key k (pairs m)) (drop_key-apart k (pairs m))
        (All-drop_key _ k (pairs m) (pairs-find_key m)),
  )
