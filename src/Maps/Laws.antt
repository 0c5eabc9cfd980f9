-- ===== src/Maps/Laws.antt =====
-- What a lookup finds after an update.
use pttp.Prelude.{
  ◌≡◌, refl, arith, List, [], ◌∷◌, some, true, false, ◌||◌, Bool-cases, inl, inr, if◌then◌else◌,
}
use pttp.Bytes.{Bytes, equal, equal_sound, equal_refl}
use pttp.Maps.{Map, before, member, include, lookup, assign}

pub equal_cong : (j k l : Bytes) → equal j k ≡ true → equal l j ≡ equal l k
equal_cong j k l h = let e = equal_sound j k h in rw e refl

-- A key that equals one of two different keys does not equal the other.
pub equal_apart : (j k l : Bytes) → equal k l ≡ false → equal j l ≡ true → equal j k ≡ false
equal_apart j k l h e = elim (Bool-cases (equal j k)) [
  | inl e' ↦ absurd (cc (h, e, equal_sound j k e'))
  | inr e' ↦ e'
]

pub equal_sym : (j k : Bytes) → equal j k ≡ equal k j
unfolding equal
equal_sym [] [] = refl
equal_sym [] (y ∷ ys) = refl
equal_sym (x ∷ xs) [] = refl
equal_sym (x ∷ xs) (y ∷ ys) = ground (arith, equal_sym xs ys)

pub member-include :
    (j k : Bytes) (xs : List Bytes) → member j (include k xs) ≡ (equal j k || member j xs)
unfolding member include
member-include j k [] = refl
member-include j k (x ∷ xs) = elim (Bool-cases (equal k x)) [
  | inl e ↦ rw (e, equal_cong k x j e) (ground arith)
  | inr e ↦ elim (Bool-cases (before k x)) [
    | inl b ↦ rw (e, b) refl
    | inr b ↦ rw (e, b, member-include j k xs) (ground arith)
  ]
]

module _ {ℓ} {V : Type ℓ} where
  pub lookup-assign :
      (j k : Bytes) (v : V) (m : Map V)
      → lookup j (assign k v m) ≡ (if equal j k then some v else lookup j m)
  unfolding lookup assign
  lookup-assign j k v [] = refl
  lookup-assign j k v ((l, w) ∷ m) = elim (Bool-cases (equal k l)) [
    | inl e ↦ rw (e, equal_cong k l j e) (ground arith)
    | inr e ↦ elim (Bool-cases (before k l)) [
      | inl b ↦ rw (e, b) refl
      | inr b ↦ rw (e, b, lookup-assign j k v m) (ground (arith, equal_apart j k l e))
    ]
  ]

  pub lookup-assign_self : (k : Bytes) (v : V) (m : Map V) → lookup k (assign k v m) ≡ some v
  lookup-assign_self k v m = rw (lookup-assign k k v m, equal_refl k)

  pub lookup-assign_ne :
      (j k : Bytes) (v : V) (m : Map V) → equal j k ≡ false → lookup j (assign k v m) ≡ lookup j m
  lookup-assign_ne j k v m h = rw (lookup-assign j k v m, h)
