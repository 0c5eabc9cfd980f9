-- ===== src/Merkle/Levels.antt =====
-- inc/curve.h, `hash_vec`: the sizes of its levels.
use pttp.Prelude.{
  ℕ, zero, suc, ◌+◌, ◌/◌, ◌≤◌, ◌<◌, ◌≡◌, refl, arith, ◌≢◌, List, [], ◌∷◌, ◌++◌, length, some,
}
use pttp.Bytes.{Bytes}
use pttp.Merkle.{GenericHasher, hash_size, hash_twin, level, collapse, hash_vec}

-- Every element has the size of a hash.
abbrev pub AreHashes : List Bytes → Type 0
AreHashes [] = Unit
AreHashes (h ∷ hs) = (length h ≡ hash_size) × AreHashes hs

module _ (hasher : GenericHasher) where
  pub length-level : (hs : List Bytes) → length (level hasher hs) ≡ (length hs + 1) / 2
  unfolding level
  length-level [] = refl
  length-level (a ∷ []) = refl
  length-level (a ∷ b ∷ rest) = omega (arith, length-level rest)

  pub level-AreHashes : (hs : List Bytes) → AreHashes (level hasher hs)
  unfolding level hash_twin
  level-AreHashes [] = tt
  level-AreHashes (a ∷ []) = (hasher.size hash_size (a ++ a), tt)
  level-AreHashes (a ∷ b ∷ rest) = (hasher.size hash_size (a ++ b), level-AreHashes rest)

  -- More fuel than there are hashes changes nothing.
  pub collapse_fuel :
      (n m : ℕ) (hs : List Bytes)
      → length hs ≤ n
      → length hs ≤ m
      → collapse hasher n hs ≡ collapse hasher m hs
  unfolding collapse
  collapse_fuel zero zero hs p q = refl
  collapse_fuel zero (suc m) [] p q = refl
  collapse_fuel zero (suc m) (a ∷ hs) p q = absurd (omega arith)
  collapse_fuel (suc n) zero [] p q = refl
  collapse_fuel (suc n) zero (a ∷ hs) p q = absurd (omega arith)
  collapse_fuel (suc n) (suc m) [] p q = refl
  collapse_fuel (suc n) (suc m) (a ∷ []) p q = refl
  collapse_fuel (suc n) (suc m) (a ∷ b ∷ rest) p q =
      let half = length-level (a ∷ b ∷ rest) in
      collapse_fuel n m (level hasher (a ∷ b ∷ rest)) (omega arith) (omega arith)

  pub collapse_total :
      (n : ℕ) (hs : List Bytes)
      → 0 < length hs
      → length hs ≤ n
      → AreHashes hs
      → (r : Bytes) × (collapse hasher n hs ≡ some r) × (length r ≡ hash_size)
  unfolding collapse
  collapse_total zero hs pos fits sizes = absurd (omega arith)
  collapse_total (suc n) [] pos fits sizes = absurd (omega arith)
  collapse_total (suc n) (a ∷ []) pos fits sizes = (a, refl, sizes.0)
  collapse_total (suc n) (a ∷ b ∷ rest) pos fits sizes =
      let half = length-level (a ∷ b ∷ rest) in
      collapse_total n (level hasher (a ∷ b ∷ rest)) (omega arith) (omega arith)
        (level-AreHashes (a ∷ b ∷ rest))

  -- On a list that is not empty `hash_vec` ends, passes its assertion, and returns a hash.
  pub hash_vec_total :
      (hs : List Bytes)
      → hs ≢ []
      → (r : Bytes) × (hash_vec hasher hs ≡ some r) × (length r ≡ hash_size)
  unfolding hash_vec
  hash_vec_total [] h = absurd (h refl)
  hash_vec_total (a ∷ rest) h =
      let half = length-level (a ∷ rest) in
      collapse_total (length (a ∷ rest)) (level hasher (a ∷ rest)) (omega arith) (omega arith)
        (level-AreHashes (a ∷ rest))
