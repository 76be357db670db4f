-- ===== src/Prelude/Assoc.antt =====
-- A `std::unordered_map` with texts as keys, as an association list: the program looks keys up and
-- assigns them, and never depends on the order of iteration.
use Prim.Native.String.{String}
use mathlib.Core.Path.{◌≡◌, refl}
use mathlib.Core.Option.{Option, none, some}
use mathlib.Core.List.{List, [], ◌∷◌}
use native.Mathlib.Omega.{arith}
use text.Mathlib.Text.{◌==◌}
use text.Mathlib.TextEquality.{eq_iff}
use sage_store.Prelude.Basics.{if◌then◌else◌}

module _ {ℓ} {V : Type ℓ} where
  -- `map.find(key)`
  unfoldable pub find : String → List (String × V) → Option V
  find key [] = none
  find key ((k, v) ∷ rest) = if k == key then some v else find key rest

  -- `map[key] = value`
  unfoldable pub assign : String → V → List (String × V) → List (String × V)
  assign key v [] = (key, v) ∷ []
  assign key v ((k, old) ∷ rest) = if k == key then (k, v) ∷ rest else (k, old) ∷ assign key v rest

  pub find-assign :
      (k j : String) (v : V) (d : List (String × V))
      → find j (assign k v d) ≡ (if k == j then some v else find j d)
  unfolding find assign
  find-assign k j v [] = refl
  find-assign k j v ((i, old) ∷ d) =
      ground (arith, eq_iff k j, eq_iff i k, eq_iff i j, find-assign k j v d)
