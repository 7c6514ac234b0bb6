-- ===== src/Base/Assoc.antt =====
-- A `std::map` as a list of keys and values. The equality of keys is a parameter with its law.
use mathlib.Core.Path.{◌≡◌, refl}
use mathlib.Core.Logic.{◌↔◌}
use mathlib.Core.Bool.{Bool, true}
use mathlib.Core.Option.{Option, none, some}
use mathlib.Core.List.{List, [], ◌∷◌}
use native.Mathlib.Omega.{arith}
use lswasm.Base.Tests.{if◌then◌else◌}

module _ {K V : Type 0} (eq : K → K → Bool) where
  -- `find`
  abbrev pub lookup : K → List (K × V) → Option V
  lookup k [] = none
  lookup k ((j, v) ∷ m) = if eq j k then some v else lookup k m

  -- `m[k] = v`
  abbrev pub assign : K → V → List (K × V) → List (K × V)
  assign k v [] = (k, v) ∷ []
  assign k v ((j, w) ∷ m) = if eq j k then (j, v) ∷ m else (j, w) ∷ assign k v m

  -- `erase`
  abbrev pub erase : K → List (K × V) → List (K × V)
  erase k [] = []
  erase k ((j, w) ∷ m) = if eq j k then erase k m else (j, w) ∷ erase k m

  module _ (eq_iff : (a b : K) → (eq a b ≡ true) ↔ (a ≡ b)) where
    pub lookup-assign :
        (k j : K) (v : V) (m : List (K × V))
        → lookup j (assign k v m) ≡ (if eq k j then some v else lookup j m)
    lookup-assign k j v [] = refl
    lookup-assign k j v ((i, w) ∷ m) =
        ground (arith, eq_iff k j, eq_iff i k, eq_iff i j, lookup-assign k j v m)

    pub lookup-erase :
        (k j : K) (m : List (K × V)) → lookup j (erase k m) ≡ (if eq k j then none else lookup j m)
    lookup-erase k j [] = ground arith
    lookup-erase k j ((i, w) ∷ m) =
        ground (arith, eq_iff k j, eq_iff i k, eq_iff i j, lookup-erase k j m)
