-- ===== src/Merkle/Examples.antt =====
-- The theorems on hash trees at short lists.
use pttp.Prelude.{ℕ, ◌≡◌, refl, ◌⊎◌, List, [], ◌∷◌, length, replicate, some}
use pttp.Bytes.{Bytes}
use pttp.Merkle.{hash_size, hash_vec}
use pttp.Merkle.Levels.{hash_vec_total}
use pttp.Merkle.Binding.{Collision, hash_vec_binding}
use pttp.Samples.{digest_hasher}

abbrev leaf : ℕ → Bytes
leaf n = replicate 32 n

abbrev three : List Bytes
three = leaf 1 ∷ leaf 2 ∷ leaf 3 ∷ []

hash_vec_total_example :
    (r : Bytes) × (hash_vec digest_hasher three ≡ some r) × (length r ≡ hash_size)
hash_vec_total_example = hash_vec_total digest_hasher three (λ e. cc)

hash_vec_binding_example : (three ≡ three) ⊎ Collision digest_hasher
hash_vec_binding_example =
    hash_vec_binding digest_hasher three three refl (refl, (refl, (refl, tt)))
      (refl, (refl, (refl, tt))) refl
