-- ===== src/Base/Maps.antt =====
-- `std::map` as a list of pairs, by keys that can be compared.
use mathlib.Core.Path.{◌≡◌, refl}
use mathlib.Core.Logic.{◌↔◌}
use mathlib.Core.Bool.{Bool, true}
use mathlib.Core.Option.{Option, none, some}
use mathlib.Core.List.{List, [], ◌∷◌}
use native.Mathlib.Omega.{arith}
use media_gateway_v4_7_1_sde.Base.Tests.{◌==◌, ==_iff, if◌then◌else◌}
use Prim.Native.Nat.{ℕ}

-- Keys with a test for equality.
pub record Eq {ℓ} (K : Type ℓ) : Type ℓ where
  pub matches : K → K → Bool
  pub matches_iff : (k j : K) → (matches k j ≡ true) ↔ (k ≡ j)

module _ {ℓ κ} {K : Type ℓ} {V : Type κ} ⦃e : Eq K⦄ where
  -- `m.find(k)`
  unfoldable pub map_find : K → List (K × V) → Option V
  map_find k [] = none
  map_find k ((j, v) ∷ m) = if e.matches j k then some v else map_find k m

  -- `m[k] = v`
  unfoldable pub map_assign : K → V → List (K × V) → List (K × V)
  map_assign k v [] = (k, v) ∷ []
  map_assign k v ((j, w) ∷ m) = if e.matches j k then (k, v) ∷ m else (j, w) ∷ map_assign k v m

  -- `m.erase(k)`
  unfoldable pub map_erase : K → List (K × V) → List (K × V)
  map_erase k [] = []
  map_erase k ((j, v) ∷ m) =
      let rest = map_erase k m in if e.matches j k then rest else (j, v) ∷ rest

  pub map_find-map_assign :
      (k j : K) (v : V) (m : List (K × V))
      → map_find j (map_assign k v m) ≡ (if e.matches k j then some v else map_find j m)
  unfolding map_find map_assign
  map_find-map_assign k j v [] = refl
  map_find-map_assign k j v ((i, w) ∷ m) =
      ground (
        arith,
        e.matches_iff k j,
        e.matches_iff i k,
        e.matches_iff i j,
        map_find-map_assign k j v m,
      )

  pub map_find-map_erase :
      (k j : K) (m : List (K × V))
      → map_find j (map_erase k m) ≡ (if e.matches k j then none else map_find j m)
  unfolding map_find map_erase
  map_find-map_erase k j [] = ground arith
  map_find-map_erase k j ((i, w) ∷ m) =
      ground
        (arith, e.matches_iff k j, e.matches_iff i k, e.matches_iff i j, map_find-map_erase k j m)

pub ruleset map_laws = (map_find-map_assign, map_find-map_erase)

instance abbrev pub nat_eq : Eq ℕ
nat_eq = record { matches = ◌==◌; matches_iff = ==_iff }
