-- ===== src/Common/Map.antt =====
-- `std::map` as the list of its entries in key order, over the key's `==` and `<`.
use Prim.Native.Nat.{suc, ◌≤◌}
use mathlib.Core.Path.{◌≡◌, refl, subst}
use mathlib.Core.Logic.{◌↔◌, inl, inr}
use mathlib.Core.Bool.{Bool, true}
use mathlib.Core.Option.{Option, none, some}
use mathlib.Core.List.{List, [], ◌∷◌}
use native.Mathlib.Omega.{arith}
use wirestack.Common.Tests.{if◌then◌else◌, Bool-cases}
use wirestack.Common.Lists.{length, All}

module _ {K V : Type 0} (equal : K → K → Bool) where
  unfoldable pub find : K → List (K × V) → Option V
  find k [] = none
  find k ((j, v) ∷ m) = if equal j k then some v else find k m

  -- `it->second = v`
  unfoldable pub assign : K → V → List (K × V) → List (K × V)
  assign k v [] = []
  assign k v ((j, w) ∷ m) = if equal j k then (j, v) ∷ m else (j, w) ∷ assign k v m

  unfoldable pub erase : K → List (K × V) → List (K × V)
  erase k [] = []
  erase k ((j, w) ∷ m) = if equal j k then m else (j, w) ∷ erase k m

  -- `emplace` of a key that is not in the map.
  unfoldable pub emplace : (K → K → Bool) → K → V → List (K × V) → List (K × V)
  emplace less k v [] = (k, v) ∷ []
  emplace less k v ((j, w) ∷ m) =
      if less k j then (k, v) ∷ (j, w) ∷ m else (j, w) ∷ emplace less k v m

  pub length-emplace :
      (less : K → K → Bool) (k : K) (v : V) (m : List (K × V))
      → length (emplace less k v m) ≡ suc (length m)
  unfolding emplace
  length-emplace less k v [] = refl
  length-emplace less k v ((j, w) ∷ m) = ground (arith, length-emplace less k v m)

  pub length-assign : (k : K) (v : V) (m : List (K × V)) → length (assign k v m) ≡ length m
  unfolding assign
  length-assign k v [] = refl
  length-assign k v ((j, w) ∷ m) = ground (arith, length-assign k v m)

  pub length-erase_le : (k : K) (m : List (K × V)) → length (erase k m) ≤ length m
  unfolding erase
  length-erase_le k [] = omega arith
  length-erase_le k ((j, w) ∷ m) = ground (arith, length-erase_le k m)

  pub length-erase :
      (k : K) (v : V) (m : List (K × V)) → find k m ≡ some v → suc (length (erase k m)) ≡ length m
  unfolding erase find
  length-erase k v [] h = ground arith
  length-erase k v ((j, w) ∷ m) h = ground (arith, length-erase k v m)

  module _ (equal_iff : (a b : K) → (equal a b ≡ true) ↔ (a ≡ b)) where
    pub find-emplace :
        (less : K → K → Bool) (k j : K) (v : V) (m : List (K × V))
        → find k m ≡ none
        → find j (emplace less k v m) ≡ (if equal k j then some v else find j m)
    unfolding find emplace
    find-emplace less k j v [] h = refl
    find-emplace less k j v ((i, w) ∷ m) h =
        ground (arith, find-emplace less k j v m, equal_iff i k, equal_iff i j, equal_iff k j)

    pub find-assign :
        (k j : K) (v w : V) (m : List (K × V))
        → find k m ≡ some w
        → find j (assign k v m) ≡ (if equal k j then some v else find j m)
    unfolding find assign
    find-assign k j v w [] h = ground arith
    find-assign k j v w ((i, u) ∷ m) h =
        ground (arith, find-assign k j v w m, equal_iff i k, equal_iff i j, equal_iff k j)

-- A property of every value survives the operations.
module _ {K V : Type 0} (equal : K → K → Bool) (P : K × V → Type 0) where
  pub All-emplace :
      (less : K → K → Bool) (k : K) (v : V) (m : List (K × V))
      → P (k, v)
      → All P m
      → All P (emplace equal less k v m)
  unfolding emplace
  All-emplace less k v [] p ps = (p, tt)
  All-emplace less k v ((j, w) ∷ m) p ps = ground (arith, All-emplace less k v m p ps.1)

  pub All-assign :
      (k : K) (v : V) (m : List (K × V))
      → ((j : K) → P (j, v))
      → All P m
      → All P (assign equal k v m)
  unfolding assign
  All-assign k v [] p ps = tt
  All-assign k v ((j, w) ∷ m) p ps = ground (arith, p j, All-assign k v m p ps.1)

  pub All-erase : (k : K) (m : List (K × V)) → All P m → All P (erase equal k m)
  unfolding erase
  All-erase k [] ps = tt
  All-erase k ((j, w) ∷ m) ps = ground (arith, All-erase k m ps.1)

  pub All-find :
      (k : K) (v : V) (m : List (K × V)) → All P m → find equal k m ≡ some v → (j : K) × P (j, v)
  unfolding find
  All-find k v [] ps h = cc
  All-find k v ((j, w) ∷ m) ps h = elim (Bool-cases (equal j k)) [
    | inl e ↦ let q : w ≡ v = ground arith in (j, subst (λ x. P (j, x)) q ps.0)
    | inr e ↦ All-find k v m ps.1 (ground arith)
  ]
