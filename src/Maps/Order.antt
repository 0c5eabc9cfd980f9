-- ===== src/Maps/Order.antt =====
-- The order of keys, and the lists of pairs that `std::map` keeps in that order.
use pttp.Prelude.{◌≡◌, refl, ap₂, arith, [], ◌∷◌, none, true, false, Bool-cases, inl, inr}
use pttp.Bytes.{Bytes, equal, equal_sound, equal_complete}
use pttp.Maps.{Map, before, lookup, assign}

-- Of two keys neither of which is before the other, both are the same.
pub before-total : (x y : Bytes) → before x y ≡ false → before y x ≡ false → x ≡ y
unfolding before
before-total [] [] h k = refl
before-total [] (y ∷ ys) h k = cc
before-total (x ∷ xs) [] h k = cc
before-total (x ∷ xs) (y ∷ ys) h k =
    let e : x ≡ y = ground (arith, h, k) in
    let h' : before xs ys ≡ false = ground (arith, h, k) in
    let k' : before ys xs ≡ false = ground (arith, h, k) in ap₂ ◌∷◌ e (before-total xs ys h' k')

pub before-asym : (x y : Bytes) → before x y ≡ true → before y x ≡ false
unfolding before
before-asym [] [] h = refl
before-asym [] (y ∷ ys) h = refl
before-asym (x ∷ xs) [] h = cc
before-asym (x ∷ xs) (y ∷ ys) h = ground (arith, before-asym xs ys)

-- What `z` is before, and not before `y`, has `y` before it.
pub before-cotrans : (x y z : Bytes) → before z x ≡ true → before z y ≡ false → before y x ≡ true
unfolding before
before-cotrans [] [] [] h k = cc
before-cotrans [] y (z ∷ zs) h k = cc
before-cotrans [] (y ∷ ys) [] h k = cc
before-cotrans (x ∷ xs) [] z h k = refl
before-cotrans (x ∷ xs) (y ∷ ys) [] h k = cc
before-cotrans (x ∷ xs) (y ∷ ys) (z ∷ zs) h k = ground (arith, before-cotrans xs ys zs)

pub before_trans : (x y z : Bytes) → before x y ≡ true → before y z ≡ true → before x z ≡ true
unfolding before
before_trans [] [] z h k = cc
before_trans [] (y ∷ ys) [] h k = cc
before_trans [] (y ∷ ys) (z ∷ zs) h k = refl
before_trans (x ∷ xs) [] z h k = cc
before_trans (x ∷ xs) (y ∷ ys) [] h k = cc
before_trans (x ∷ xs) (y ∷ ys) (z ∷ zs) h k = ground (arith, before_trans xs ys zs)

before_irrefl : (x : Bytes) → before x x ≡ false
unfolding before
before_irrefl [] = refl
before_irrefl (x ∷ xs) = ground (arith, before_irrefl xs)

-- A key that is not the other nor before it is after it.
pub before_otherwise : (j k : Bytes) → equal k j ≡ false → before k j ≡ false → before j k ≡ true
before_otherwise j k other h = elim (Bool-cases (before j k)) [
  | inl e ↦ e
  | inr e ↦ absurd (cc (other, equal_complete k j (before-total k j h e)))
]

pub before-equal : (j k : Bytes) → before k j ≡ true → equal k j ≡ false
before-equal j k h = elim (Bool-cases (equal k j)) [
  | inr e ↦ e
  | inl e ↦ absurd (cc (h, before_irrefl j, equal_sound k j e))
]

module _ {ℓ} {V : Type ℓ} where
  -- Every key of the map is after `k`.
  abbrev pub AreAfter : Bytes → Map V → Type 0
  AreAfter k [] = Unit
  AreAfter k (e ∷ m) = (before k e.0 ≡ true) × AreAfter k m

  -- The keys are in strict order.
  abbrev pub IsOrdered : Map V → Type 0
  IsOrdered [] = Unit
  IsOrdered (e ∷ m) = AreAfter e.0 m × IsOrdered m

  AreAfter-before : (j k : Bytes) (m : Map V) → before j k ≡ true → AreAfter k m → AreAfter j m
  AreAfter-before j k [] h after = tt
  AreAfter-before j k (e ∷ m) h after =
      (before_trans j k e.0 h after.0, AreAfter-before j k m h after.1)

  assign-AreAfter :
      (j k : Bytes) (v : V) (m : Map V)
      → before j k ≡ true
      → AreAfter j m
      → AreAfter j (assign k v m)
  unfolding assign
  assign-AreAfter j k v [] h after = (h, tt)
  assign-AreAfter j k v (e ∷ m) h after = elim (Bool-cases (equal k e.0)) [
    | inl same ↦ rw same (h, after.1)
    | inr other ↦ elim (Bool-cases (before k e.0)) [
      | inl b ↦ rw (other, b) (h, after)
      | inr b ↦ rw (other, b) (after.0, assign-AreAfter j k v m h after.1)
    ]
  ]

  pub assign-IsOrdered : (k : Bytes) (v : V) (m : Map V) → IsOrdered m → IsOrdered (assign k v m)
  unfolding assign
  assign-IsOrdered k v [] o = (tt, tt)
  assign-IsOrdered k v (e ∷ m) o = elim (Bool-cases (equal k e.0)) [
    | inl same ↦ rw (same, equal_sound k e.0 same) o
    | inr other ↦ elim (Bool-cases (before k e.0)) [
      | inl b ↦ rw (other, b) ((b, AreAfter-before k e.0 m b o.0), o)
      | inr b ↦
          rw (other, b)
            (
              assign-AreAfter e.0 k v m (before_otherwise e.0 k other b) o.0,
              assign-IsOrdered k v m o.1,
            )
    ]
  ]

  lookup-AreAfter : (k : Bytes) (m : Map V) → AreAfter k m → lookup k m ≡ none
  unfolding lookup
  lookup-AreAfter k [] after = refl
  lookup-AreAfter k (e ∷ m) after =
      rw (before-equal e.0 k after.0, lookup-AreAfter k m after.1) refl

  -- A key before the first of an ordered map is not in it.
  pub lookup-before :
      (j k : Bytes) (m : Map V) → before j k ≡ true → AreAfter k m → lookup j m ≡ none
  lookup-before j k m h after = lookup-AreAfter j m (AreAfter-before j k m h after)
