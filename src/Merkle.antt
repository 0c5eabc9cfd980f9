-- ===== src/Merkle.antt =====
-- inc/curve.h, `hash_twin` and `hash_vec`: the hash of a list of hashes, level by level.
pub mod Levels
pub mod Binding
mod Examples
use pttp.Prelude.{
  ℕ, zero, suc, ◌≡◌, List, [], ◌∷◌, ◌++◌, length, Option, none, some, ltb, if◌then◌else◌,
}
use pttp.Bytes.{Bytes}

-- `crypto_generichash` of libsodium without a key: it fills as many bytes as it is asked for.
pub record GenericHasher : Type 0 where
  pub digest : ℕ → Bytes → Bytes
  pub size : (n : ℕ) (m : Bytes) → length (digest n m) ≡ n

-- `crypto_generichash_BYTES`
abbrev pub hash_size : ℕ
hash_size = 32

module _ (hasher : GenericHasher) where
  -- `hash_twin`
  unfoldable pub hash_twin : Bytes → Bytes → Bytes
  hash_twin b1 b2 = hasher.digest hash_size (b1 ++ b2)

  -- One pass of either loop, which goes through the list in steps of two.
  unfoldable pub level : List Bytes → List Bytes
  unfolding hash_twin
  level [] = []
  level (a ∷ []) = hash_twin a a ∷ []
  level (a ∷ b ∷ rest) = hash_twin a b ∷ level rest

  -- `while (hashes.size() > 1)`, and `hashes[0]` of what is left.
  unfoldable pub collapse : ℕ → List Bytes → Option Bytes
  collapse zero hashes = none
  collapse (suc fuel) [] = none
  collapse (suc fuel) (a ∷ []) = some a
  collapse (suc fuel) (a ∷ b ∷ rest) = collapse fuel (level (a ∷ b ∷ rest))

  -- `hash_vec`; `none` is the failed assertion on an empty list. Each pass shortens a list of two
  -- or more, so as much fuel as there are hashes is enough.
  unfoldable pub hash_vec : List Bytes → Option Bytes
  unfolding collapse
  hash_vec [] = none
  hash_vec (a ∷ rest) = collapse (length (a ∷ rest)) (level (a ∷ rest))
