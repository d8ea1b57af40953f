-- ===== src/Common/Maps.antt =====
-- Go's `map[string]V`: an association list, read by the first entry of a key.
use Prim.Native.String.{String}
use mathlib.Core.Path.{◌≡◌, refl, subst}
use mathlib.Core.Logic.{◌≢◌, inl, inr}
use mathlib.Core.Option.{Option, none, some}
use mathlib.Core.Bool.{false}
use mathlib.Core.List.{List, [], ◌∷◌}
use native.Mathlib.Omega.{arith}
use text.Mathlib.Text.{◌==◌}
use text.Mathlib.TextEquality.{eq_iff}
use harbor_satellite.Common.Tests.{if◌then◌else◌, Bool-cases}

abbrev pub Map {ℓ} : Type ℓ → Type ℓ
Map V = List (String × V)

module _ {ℓ} {V : Type ℓ} where
  -- v, ok := m[key]
  unfoldable pub lookup : String → Map V → Option V
  lookup key [] = none
  lookup key ((name, held) ∷ rest) = if name == key then some held else lookup key rest

  -- delete(m, key)
  unfoldable pub remove : String → Map V → Map V
  remove key [] = []
  remove key ((name, held) ∷ rest) =
      let others = remove key rest in if name == key then others else (name, held) ∷ others

  pub lookup-remove :
      (key asked : String) (m : Map V)
      → lookup asked (remove key m) ≡ (if key == asked then none else lookup asked m)
  unfolding lookup remove
  lookup-remove key asked [] = ground arith
  lookup-remove key asked ((name, held) ∷ rest) =
      ground
        (arith, eq_iff name asked, eq_iff name key, eq_iff key asked, lookup-remove key asked rest)

  -- m[key] = value
  unfoldable pub insert : String → V → Map V → Map V
  insert key value [] = (key, value) ∷ []
  insert key value ((name, held) ∷ rest) =
      let others = insert key value rest in
      if name == key then (key, value) ∷ rest else (name, held) ∷ others

  pub lookup-insert :
      (key asked : String) (value : V) (m : Map V)
      → lookup asked (insert key value m) ≡ (if key == asked then some value else lookup asked m)
  unfolding lookup insert
  lookup-insert key asked value [] = refl
  lookup-insert key asked value ((name, held) ∷ rest) = ground (
    arith,
    eq_iff name asked,
    eq_iff key asked,
    eq_iff name key,
    lookup-insert key asked value rest,
  )

  -- The values in the order of the list.
  unfoldable pub values : Map V → List V
  values [] = []
  values ((k, v) ∷ m) = v ∷ values m

  -- No key has two entries.
  abbrev pub HasUniqueKeys : Map V → Type ℓ
  HasUniqueKeys [] = Unit
  HasUniqueKeys ((k, v) ∷ m) = (lookup k m ≡ none) × HasUniqueKeys m

  pub insert-HasUniqueKeys :
      (k : String) (v : V) (m : Map V) → HasUniqueKeys m → HasUniqueKeys (insert k v m)
  unfolding insert
  insert-HasUniqueKeys k v [] u = (unfold lookup in refl, tt)
  insert-HasUniqueKeys k v ((j, w) ∷ m) u = elim (Bool-cases (j == k)) [
    | inl e ↦ rw e (subst (λ i. lookup i m ≡ none) ((eq_iff j k).0 e) u.0, u.1)
    | inr e ↦ rw e (
      ground (arith, lookup-insert k j v m, eq_iff k j, eq_iff j k, u.0),
      insert-HasUniqueKeys k v m u.1,
    )
  ]

-- Texts that the test tells apart differ.
pub distinct : {a b : String} → (a == b) ≡ false → a ≢ b
distinct {a} {b} h e = cc (h, (eq_iff a b).1 e)
