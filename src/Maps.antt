-- ===== src/Maps.antt =====
-- `std::set` and `std::map` of byte vectors, as lists in the order of their keys.
pub mod Laws
pub mod Order
pub mod Commuting
use pttp.Prelude.{
  ℕ, List, [], ◌∷◌, Option, none, some, Bool, true, false, ◌||◌, if◌then◌else◌, ltb, ◌==◌, ◌&&◌,
}
use pttp.Bytes.{Bytes, equal}

-- `operator<` of vectors.
unfoldable pub before : Bytes → Bytes → Bool
before [] [] = false
before [] (y ∷ ys) = true
before (x ∷ xs) [] = false
before (x ∷ xs) (y ∷ ys) = ltb x y || (x == y && before xs ys)

-- `count` of a set.
unfoldable pub member : Bytes → List Bytes → Bool
member k [] = false
member k (x ∷ xs) = equal k x || member k xs

-- `insert` of a set.
unfoldable pub include : Bytes → List Bytes → List Bytes
include k [] = k ∷ []
include k (x ∷ xs) =
    let rest = include k xs in
    if equal k x then x ∷ xs else if before k x then k ∷ x ∷ xs else x ∷ rest

abbrev pub Map {ℓ} : Type ℓ → Type ℓ
Map V = List (Bytes × V)

module _ {ℓ} {V : Type ℓ} where
  -- `m.find(k)`; a key that is not there has no value.
  unfoldable pub lookup : Bytes → Map V → Option V
  lookup k [] = none
  lookup k ((j, v) ∷ m) = if equal k j then some v else lookup k m

  -- `m[k] = v`
  unfoldable pub assign : Bytes → V → Map V → Map V
  assign k v [] = (k, v) ∷ []
  assign k v ((j, w) ∷ m) =
      let rest = assign k v m in
      if equal k j then (k, v) ∷ m else if before k j then (k, v) ∷ (j, w) ∷ m else (j, w) ∷ rest
