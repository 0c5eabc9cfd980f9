-- ===== src/Reconsiler.antt =====
-- bin/p2p.cc, `SetReconsiler`: which of this node's elements the peer's filters let through, and whether
-- their hash is the one that the peers agree on. `operator<` and `std::sort` are those on byte vectors.
-- A run is `none` where an index is out of range.
pub mod Sorting
pub mod Filtering
pub mod Table
pub mod Seeking
mod Examples
use pttp.Prelude.{
  ℕ, ◌≡◌, List, [], ◌∷◌, Option, none, some, Bool, true, false, ◌&&◌, ◌||◌, ltb, ◌==◌,
  if◌then◌else◌, ◌>>=◌,
}
use pttp.Bytes.{Bytes, equal}
use pttp.Maps.{before}
use pttp.Bloom.{ShortHasher, Bloom, has}
use pttp.Merkle.{GenericHasher, hash_vec}

pub record SetReconsiler : Type 0 where
  pub hash : Bytes
  pub n : ℕ
  pub filters : List Bloom
  pub current_set : List Bytes
  pub start_time : ℕ

-- `SetReconsiler(Bytes hash_)`, at the clock's reading.
unfoldable pub new : Bytes → ℕ → SetReconsiler
new hash now = record { hash = hash; n = 0; filters = []; current_set = []; start_time = now }

-- The result of `std::sort`; equal elements cannot be told apart.
unfoldable pub insert : Bytes → List Bytes → List Bytes
insert x [] = x ∷ []
insert x (y ∷ ys) = let rest = insert x ys in if before y x then y ∷ rest else x ∷ y ∷ ys

unfoldable pub sort : List Bytes → List Bytes
sort [] = []
sort (x ∷ xs) = insert x (sort xs)

module _ (hasher : ShortHasher) where
  -- The inner loop of `filter`, which leaves `inset`.
  unfoldable pub in_set : List Bloom → Bytes → Option Bool
  in_set [] s = some true
  in_set (f ∷ fs) s =
      has hasher f s >>= λ hit. let rest = in_set fs s in if hit then rest else some false

  -- The outer loop.
  unfoldable pub collect : List Bloom → List Bytes → Option (List Bytes)
  collect fs [] = some []
  collect fs (s ∷ set) = do
    inset ← in_set fs s
    rest ← collect fs set
    some (if inset then s ∷ rest else rest)

  -- `SetReconsiler::filter`
  unfoldable pub filter : SetReconsiler → List Bytes → Option SetReconsiler
  filter r set = collect r.filters set >>= λ kept. some (record r { current_set = kept })

-- `SetReconsiler::check`
unfoldable pub check : GenericHasher → SetReconsiler → Option Bool
check hasher r = elim r.current_set [
  | [] ↦ some false
  | ◌∷◌ s set ↦
      hash_vec hasher (sort (s ∷ set)) >>= λ current_hash. some (equal r.hash current_hash)
]
