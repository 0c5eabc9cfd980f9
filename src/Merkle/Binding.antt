-- ===== src/Merkle/Binding.antt =====
-- inc/curve.h, `hash_vec`: two lists with one hash.
use pttp.Prelude.{
  ℕ, zero, suc, ◌%◌, ◌≤◌, ◌<◌, ◌≡◌, refl, sym, arith, ap, ◌≢◌, ◌∙◌, ◌⊎◌, inl, inr, List, [], ◌∷◌,
  ◌++◌, length, length-append, Bool-cases,
}
use pttp.Bytes.{Bytes, equal, equal_sound, equal_complete}
use pttp.Merkle.{GenericHasher, hash_size, hash_twin, level, collapse, hash_vec}
use pttp.Merkle.Levels.{AreHashes, length-level, level-AreHashes, collapse_fuel}

append_cancel : (a c b d : Bytes) → length a ≡ length c → a ++ b ≡ c ++ d → (a ≡ c) × (b ≡ d)
append_cancel [] [] b d e h = (refl, h)
append_cancel [] (y ∷ c) b d e h = absurd (omega arith)
append_cancel (x ∷ a) [] b d e h = absurd (omega arith)
append_cancel (x ∷ a) (y ∷ c) b d e h = ground (arith, append_cancel a c b d)

module _ (hasher : GenericHasher) where
  -- Two texts with one hash.
  abbrev pub Collision : Type 0
  Collision =
      (x : Bytes) × (y : Bytes) × (x ≢ y) × (hasher.digest hash_size x ≡ hasher.digest hash_size y)

  hash_twin_binding :
      (a b c d : Bytes)
      → length a ≡ length c
      → hash_twin hasher a b ≡ hash_twin hasher c d
      → ((a ≡ c) × (b ≡ d)) ⊎ Collision
  unfolding hash_twin
  hash_twin_binding a b c d size h = elim (Bool-cases (equal (a ++ b) (c ++ d))) [
    | inl same ↦ inl (append_cancel a c b d size (equal_sound (a ++ b) (c ++ d) same))
    | inr other ↦ inr (a ++ b, c ++ d, (λ e. cc (equal_complete (a ++ b) (c ++ d) e)), h)
  ]

  level_binding :
      (xs ys : List Bytes)
      → length xs ≡ length ys
      → AreHashes xs
      → AreHashes ys
      → level hasher xs ≡ level hasher ys
      → (xs ≡ ys) ⊎ Collision
  unfolding level
  level_binding [] [] e p q h = inl refl
  level_binding (a ∷ []) (c ∷ []) e p q h = ground (arith, hash_twin_binding a a c c)
  level_binding (a ∷ b ∷ xs) (c ∷ d ∷ ys) e p q h =
      ground (arith, hash_twin_binding a b c d, level_binding xs ys)
  level_binding [] (c ∷ ys) e p q h = absurd (omega arith)
  level_binding (a ∷ xs) [] e p q h = absurd (omega arith)
  level_binding (a ∷ []) (c ∷ d ∷ ys) e p q h = absurd (omega arith)
  level_binding (a ∷ b ∷ xs) (c ∷ []) e p q h = absurd (omega arith)

  collapse_binding :
      (n : ℕ) (hs gs : List Bytes)
      → length hs ≤ n
      → 0 < length hs
      → length hs ≡ length gs
      → AreHashes hs
      → AreHashes gs
      → collapse hasher n hs ≡ collapse hasher n gs
      → (hs ≡ gs) ⊎ Collision
  unfolding collapse
  collapse_binding zero hs gs fits pos e p q h = absurd (omega arith)
  collapse_binding (suc n) [] gs fits pos e p q h = absurd (omega arith)
  collapse_binding (suc n) (a ∷ hs) [] fits pos e p q h = absurd (omega arith)
  collapse_binding (suc n) (a ∷ []) (c ∷ []) fits pos e p q h = inl (cc)
  collapse_binding (suc n) (a ∷ []) (c ∷ d ∷ gs) fits pos e p q h = absurd (omega arith)
  collapse_binding (suc n) (a ∷ b ∷ hs) (c ∷ []) fits pos e p q h = absurd (omega arith)
  collapse_binding (suc n) (a ∷ b ∷ hs) (c ∷ d ∷ gs) fits pos e p q h =
      let half = length-level hasher (a ∷ b ∷ hs) in
      let half' = length-level hasher (c ∷ d ∷ gs) in
      ground (
        arith,
        collapse_binding n (level hasher (a ∷ b ∷ hs)) (level hasher (c ∷ d ∷ gs)) (omega arith)
            (omega arith) (omega arith) (level-AreHashes hasher (a ∷ b ∷ hs))
            (level-AreHashes hasher (c ∷ d ∷ gs)) h,
        level_binding (a ∷ b ∷ hs) (c ∷ d ∷ gs) e p q,
      )

  hash_vec_fuel :
      (hs : List Bytes) → hash_vec hasher hs ≡ collapse hasher (length hs) (level hasher hs)
  unfolding hash_vec
  hash_vec_fuel [] = refl
  hash_vec_fuel (a ∷ hs) = refl

  -- Two lists of equally many hashes that `hash_vec` sends to one value are the same list, or the
  -- computation shows two different texts with the same hash.
  pub hash_vec_binding :
      (xs ys : List Bytes)
      → length xs ≡ length ys
      → AreHashes xs
      → AreHashes ys
      → hash_vec hasher xs ≡ hash_vec hasher ys
      → (xs ≡ ys) ⊎ Collision
  hash_vec_binding [] [] e p q h = inl refl
  hash_vec_binding [] (y ∷ ys) e p q h = absurd (omega arith)
  hash_vec_binding (x ∷ xs) ys e p q h =
      let half = length-level hasher (x ∷ xs) in
      let half' = length-level hasher ys in
      let runs : collapse hasher (length (x ∷ xs)) (level hasher (x ∷ xs))
          ≡ collapse hasher (length (x ∷ xs)) (level hasher ys) =
        sym (hash_vec_fuel (x ∷ xs))
        ∙ h
        ∙ hash_vec_fuel ys
        ∙ ap (λ n. collapse hasher n (level hasher ys)) (sym e) in
      ground (
        arith,
        collapse_binding (length (x ∷ xs)) (level hasher (x ∷ xs)) (level hasher ys) (omega arith)
            (omega arith) (omega arith) (level-AreHashes hasher (x ∷ xs))
            (level-AreHashes hasher ys) runs,
        level_binding (x ∷ xs) ys e p q,
      )

  level_duplicate :
      (xs : List Bytes) (z : Bytes)
      → length xs % 2 ≡ 0
      → level hasher (xs ++ z ∷ []) ≡ level hasher (xs ++ z ∷ z ∷ [])
  unfolding level
  level_duplicate [] z h = refl
  level_duplicate (a ∷ []) z h = absurd (omega arith)
  level_duplicate (a ∷ b ∷ xs) z h =
      ap (λ hs. hash_twin hasher a b ∷ hs) (level_duplicate xs z (omega arith))

  -- After an even number of hashes, one more hash and the same hash twice
  -- give the same value.
  pub hash_vec_duplicate :
      (xs : List Bytes) (z : Bytes)
      → length xs % 2 ≡ 0
      → hash_vec hasher (xs ++ z ∷ []) ≡ hash_vec hasher (xs ++ z ∷ z ∷ [])
  hash_vec_duplicate xs z h =
      let once = length-append xs (z ∷ []) in
      let twice = length-append xs (z ∷ z ∷ []) in
      let half = length-level hasher (xs ++ z ∷ z ∷ []) in
      rw (hash_vec_fuel (xs ++ z ∷ []), hash_vec_fuel (xs ++ z ∷ z ∷ []), level_duplicate xs z h)
        (collapse_fuel hasher (length (xs ++ z ∷ [])) (length (xs ++ z ∷ z ∷ []))
          (level hasher (xs ++ z ∷ z ∷ [])) (omega arith) (omega arith))
