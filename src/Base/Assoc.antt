-- ===== src/Base/Assoc.antt =====
-- A Go map keyed by texts, as an association list. The order of the list stands for nothing: where
-- the program ranges over a map, the order is a parameter of the model.
use Prim.Native.String.{String}
use mathlib.Core.Path.{◌≡◌}
use mathlib.Core.Option.{Option, none, some}
use mathlib.Core.Bool.{Bool, true, false}
use mathlib.Core.List.{List, [], ◌∷◌, map}
use native.Mathlib.Omega.{arith}
use text.Mathlib.Text.{◌==◌}
use text.Mathlib.TextEquality.{eq_iff}
use carbmq_core.Base.Tests.{if◌then◌else◌}

-- A map with values of type `V`.
abbrev pub Entries {ℓ} : Type ℓ → Type ℓ
Entries V = List (String × V)

module _ {ℓ} {V : Type ℓ} where
  -- the value found, unless a later entry is asked
  abbrev or_later : Bool → V → Option V → Option V
  or_later true found later = some found
  or_later false found later = later

  unfoldable pub lookup : (wanted : String) → Entries V → Option V
  lookup wanted [] = none
  lookup wanted ((key, found) ∷ rest) = or_later (key == wanted) found (lookup wanted rest)

  -- `m[key] = value`
  unfoldable pub insert : (key : String) → V → Entries V → Entries V
  insert key value [] = (key, value) ∷ []
  insert key value ((other, old) ∷ rest) =
      let after = insert key value rest in
      if other == key then (key, value) ∷ rest else (other, old) ∷ after

  -- `delete(m, key)`
  unfoldable pub erase : (key : String) → Entries V → Entries V
  erase key [] = []
  erase key ((other, old) ∷ rest) =
      let after = erase key rest in if other == key then after else (other, old) ∷ after

  abbrev pub keys : Entries V → List String
  keys = map (λ e. e.0)

  pub lookup-insert :
      (key wanted : String) (value : V) (entries : Entries V)
      → lookup wanted (insert key value entries)
        ≡ (if key == wanted then some value else lookup wanted entries)
  unfolding lookup insert
  lookup-insert key wanted value [] = ground (arith, eq_iff key wanted)
  lookup-insert key wanted value ((other, old) ∷ rest) =
      let later = lookup-insert key wanted value rest in
      ground (arith, later, eq_iff other key, eq_iff other wanted, eq_iff key wanted)

  pub lookup-erase :
      (key wanted : String) (entries : Entries V)
      → lookup wanted (erase key entries) ≡ (if key == wanted then none else lookup wanted entries)
  unfolding lookup erase
  lookup-erase key wanted [] = ground arith
  lookup-erase key wanted ((other, old) ∷ rest) =
      let later = lookup-erase key wanted rest in
      ground (arith, later, eq_iff other key, eq_iff other wanted, eq_iff key wanted)
