-- ===== src/Reconsiler/Sorting.antt =====
-- `SetReconsiler::check`: its sorting, and what its answer means.
use mathlib.Core.List.{Perm, Permᴰ, cons≢nil}
use mathlib.Core.List.Perm
use mathlib.Core.Logic.{∥∥₁_elim}
use pttp.Prelude.{
  >>=-eq-some, suc, length, ◌⊎◌, ℕ_discrete, ◌≡◌, refl, sym, ap, ap₂, arith, ◌∙◌, List, [], ◌∷◌,
  some, true, Bool-cases, inl, inr,
}
use pttp.Bytes.{Bytes, equal, equal_sound}
use pttp.Merkle.{GenericHasher, hash_vec}
use pttp.Merkle.Levels.{AreHashes}
use pttp.Merkle.Binding.{Collision, hash_vec_binding}
use pttp.Maps.{before}
use pttp.Maps.Order.{before-total, before-asym, before-cotrans}
use pttp.Reconsiler.{SetReconsiler, insert, sort, check}

insert_comm : (x y : Bytes) (zs : List Bytes) → insert x (insert y zs) ≡ insert y (insert x zs)
unfolding insert
insert_comm x y [] = ground (arith, before-asym x y, before-asym y x, before-total x y)
insert_comm x y (z ∷ zs) = ground (
  arith,
  insert_comm x y zs,
  before-asym x y,
  before-asym y x,
  before-total x y,
  before-cotrans x y z,
  before-cotrans y x z,
)

sort_permuted : {xs ys : List Bytes} → Permᴰ xs ys → sort xs ≡ sort ys
unfolding sort
sort_permuted Permᴰ.nil = refl
sort_permuted (Permᴰ.cons e p) = ap₂ insert e (sort_permuted p)
sort_permuted (Permᴰ.swap {a} {b} {a'} {b'} {l} e e') = rw (e, e') (insert_comm b' a' (sort l))
sort_permuted (Permᴰ.trans p q) = sort_permuted p ∙ sort_permuted q

texts_set : IsSet (List Bytes)
texts_set = hlevel ℕ_discrete

-- The elements in any order give the same sorted vector.
pub sort-Perm : (xs ys : List Bytes) → Perm xs ys → sort xs ≡ sort ys
sort-Perm xs ys p = ∥∥₁_elim p (texts_set (sort xs) (sort ys)) sort_permuted

-- `check` does not depend on the order of the elements of the current set.
pub check-Perm :
    (hasher : GenericHasher) (r : SetReconsiler) (xs ys : List Bytes)
    → Perm xs ys
    → check hasher (record r { current_set = xs }) ≡ check hasher (record r { current_set = ys })
unfolding check
check-Perm hasher r [] [] p = refl
check-Perm hasher r [] (y ∷ ys) p = absurd (cons≢nil (sym (Perm.nil-eq p)))
check-Perm hasher r (x ∷ xs) [] p = absurd (cons≢nil (Perm.eq-nil p))
check-Perm hasher r (x ∷ xs) (y ∷ ys) p = rw (sort-Perm (x ∷ xs) (y ∷ ys) p)

insert-Perm : (x : Bytes) (zs : List Bytes) → Perm (x ∷ zs) (insert x zs)
unfolding insert
insert-Perm x [] = Perm.refl _
insert-Perm x (z ∷ zs) = elim (Bool-cases (before z x)) [
  | inl e ↦ rw e (Perm.trans (Perm.swap z x zs) (Perm.cons z (insert-Perm x zs)))
  | inr e ↦ rw e (Perm.refl _)
]

permutes-sort : (xs : List Bytes) → Perm xs (sort xs)
unfolding sort
permutes-sort [] = Perm.refl _
permutes-sort (x ∷ xs) = Perm.trans (Perm.cons x (permutes-sort xs)) (insert-Perm x (sort xs))

insert-AreHashes :
    (x : Bytes) (zs : List Bytes)
    → AreHashes (x ∷ zs)
    → AreHashes (insert x zs) × (length (insert x zs) ≡ suc (length zs))
unfolding insert
insert-AreHashes x [] h = (h, refl)
insert-AreHashes x (z ∷ zs) h = elim (Bool-cases (before z x)) [
  | inl e ↦
      let (rest, count) = insert-AreHashes x zs (h.0, h.1.1) in rw e ((h.1.0, rest), ap suc count)
  | inr e ↦ rw e (h, refl)
]

sort-AreHashes :
    (xs : List Bytes) → AreHashes xs → AreHashes (sort xs) × (length (sort xs) ≡ length xs)
unfolding sort
sort-AreHashes [] h = (tt, refl)
sort-AreHashes (x ∷ xs) h =
    let (rest, count) = sort-AreHashes xs h.1 in
    let (all, more) = insert-AreHashes x (sort xs) (h.0, rest) in (all, omega (arith, more, count))

-- A true answer means that the hash of the sorted current set is the one sought.
check-hash_vec :
    (hasher : GenericHasher) (r : SetReconsiler) (xs : List Bytes)
    → check hasher (record r { current_set = xs }) ≡ some true
    → hash_vec hasher (sort xs) ≡ some r.hash
unfolding check
check-hash_vec hasher r [] ok = cc
check-hash_vec hasher r (x ∷ xs) ok =
    let (h, ran, e) =
      >>=-eq-some (hash_vec hasher (sort (x ∷ xs)))
        (λ current_hash. some (equal r.hash current_hash)) ok in
    let same : r.hash ≡ h = equal_sound r.hash h (cc e) in ran ∙ ap some (sym same)

-- When `check` answers true for the hash of a peer's set, whose elements are hashes, as many as those of
-- the current set, the current set holds the elements of the peer's, or the computation shows two
-- different texts with the same hash.
pub check-binding :
    (hasher : GenericHasher) (r : SetReconsiler) (theirs : List Bytes)
    → AreHashes r.current_set
    → AreHashes theirs
    → length r.current_set ≡ length theirs
    → hash_vec hasher (sort theirs) ≡ some r.hash
    → check hasher r ≡ some true
    → Perm r.current_set theirs ⊎ Collision hasher
check-binding hasher r theirs ours_sized theirs_sized count agreed ok =
    let (sized, n) = sort-AreHashes r.current_set ours_sized in
    let (sized', n') = sort-AreHashes theirs theirs_sized in
    let same : hash_vec hasher (sort r.current_set) ≡ hash_vec hasher (sort theirs) =
      check-hash_vec hasher r r.current_set ok ∙ sym agreed in
    elim (hash_vec_binding hasher (sort r.current_set) (sort theirs) (omega arith) sized sized'
      same) [
        | inl e ↦ inl (
            Perm.trans (permutes-sort r.current_set)
              (rw (← e) at (Perm.symm (permutes-sort theirs))))
        | inr c ↦ inr c
      ]
