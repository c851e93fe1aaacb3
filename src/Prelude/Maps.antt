-- ===== src/Prelude/Maps.antt =====
-- A Go map with string keys, as an association list. Assignment replaces the value of a key in
-- place or adds a new entry; no modelled operation depends on the order of entries.
use Prim.Native.String.{String}
use mathlib.Core.Path.{◌≡◌, refl}
use mathlib.Core.List.{List, [], ◌∷◌}
use mathlib.Core.Option.{Option, none, some}
use native.Mathlib.Omega.{arith}
use text.Mathlib.Text.{◌==◌}
use text.Mathlib.TextEquality.{eq_iff}
use text.Mathlib.TextPositions.{eq_refl}
use acm_caas_poc.Prelude.Tests.{if◌then◌else◌}

abbrev pub Map {ℓ} : Type ℓ → Type ℓ
Map V = List (String × V)

-- `v, ok := m[key]`
unfoldable pub lookup {ℓ} : {V : Type ℓ} → String → Map V → Option V
lookup key [] = none
lookup key ((first, v) ∷ rest) = if first == key then some v else lookup key rest

-- `m[key] = v`
unfoldable pub insert {ℓ} : {V : Type ℓ} → String → V → Map V → Map V
insert key v [] = (key, v) ∷ []
insert key v ((first, old) ∷ rest) =
    let later = insert key v rest in if first == key then (key, v) ∷ rest else (first, old) ∷ later

module _ {ℓ} {V : Type ℓ} where
  pub lookup-insert :
      (key other : String) (v : V) (m : Map V)
      → lookup other (insert key v m) ≡ (if key == other then some v else lookup other m)
  unfolding lookup insert
  lookup-insert key other v [] = refl
  lookup-insert key other v ((first, old) ∷ rest) = ground (
    arith,
    lookup-insert key other v rest,
    eq_iff first key,
    eq_iff first other,
    eq_iff key other,
  )

  pub lookup-insert_self : (key : String) (v : V) (m : Map V) → lookup key (insert key v m) ≡ some v
  lookup-insert_self key v m = simp (lookup-insert, eq_refl)
