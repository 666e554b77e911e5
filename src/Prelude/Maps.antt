-- ===== src/Prelude/Maps.antt =====
-- Go maps with text keys, as association lists. No order of iteration is promised.
use Prim.Native.Nat.{suc}
use Prim.Native.String.{String}
use mathlib.Core.Path.{◌≡◌, refl}
use mathlib.Core.Bool.{false}
use mathlib.Core.Option.{Option, none, some}
use mathlib.Core.List.{List, [], ◌∷◌}
use native.Mathlib.Omega.{arith}
use text.Mathlib.Text.{◌==◌}
use text.Mathlib.TextEquality.{eq_iff}
use text.Mathlib.TextPositions.{eq_refl}
use kompox.Prelude.Tests.{if◌then◌else◌}
use kompox.Prelude.Lists.{length}

abbrev pub Map {ℓ} : Type ℓ → Type ℓ
Map V = List (String × V)

module _ {ℓ} {V : Type ℓ} where
  unfoldable pub lookup : String → Map V → Option V
  lookup key [] = none
  lookup key ((name, x) ∷ entries) = if name == key then some x else lookup key entries

  -- m[k] = v
  unfoldable pub insert : String → V → Map V → Map V
  insert key x [] = (key, x) ∷ []
  insert key x ((name, y) ∷ entries) =
      if name == key then (key, x) ∷ entries else (name, y) ∷ insert key x entries

  -- delete(m, k)
  unfoldable pub remove : String → Map V → Map V
  remove key [] = []
  remove key ((name, x) ∷ entries) =
      let rest = remove key entries in if name == key then rest else (name, x) ∷ rest

  pub lookup-insert :
      (key name : String) (x : V) (entries : Map V)
      → lookup name (insert key x entries) ≡ (if key == name then some x else lookup name entries)
  unfolding lookup insert
  lookup-insert key name x [] = refl
  lookup-insert key name x ((first, y) ∷ entries) = ground (
    arith,
    eq_iff key name,
    eq_iff first key,
    eq_iff first name,
    lookup-insert key name x entries,
  )

  pub lookup-remove :
      (key name : String) (entries : Map V)
      → lookup name (remove key entries) ≡ (if key == name then none else lookup name entries)
  unfolding lookup remove
  lookup-remove key name [] = ground arith
  lookup-remove key name ((first, y) ∷ entries) =
      ground (
        arith,
        eq_iff key name,
        eq_iff first key,
        eq_iff first name,
        lookup-remove key name entries,
      )

  -- A new key makes the map one larger; an old one leaves its size.
  pub length-insert :
      (key : String) (x : V) (entries : Map V)
      → length (insert key x entries)
        ≡ elim (lookup key entries) [ none ↦ suc (length entries) | some y ↦ length entries ]
  unfolding lookup insert
  length-insert key x [] = refl
  length-insert key x ((first, y) ∷ entries) = ground (arith, length-insert key x entries)

  pub length-insert_fresh :
      (key : String) (x : V) (entries : Map V)
      → lookup key entries ≡ none
      → length (insert key x entries) ≡ suc (length entries)
  length-insert_fresh key x entries h = ground (arith, length-insert key x entries)

  pub lookup-insert_other :
      (key name : String) (x : V) (entries : Map V)
      → (key == name) ≡ false
      → lookup name (insert key x entries) ≡ lookup name entries
  lookup-insert_other key name x entries h = ground (arith, lookup-insert key name x entries)

  pub lookup-insert_self :
      (key : String) (x : V) (entries : Map V) → lookup key (insert key x entries) ≡ some x
  lookup-insert_self key x entries = simp (lookup-insert, eq_refl)
