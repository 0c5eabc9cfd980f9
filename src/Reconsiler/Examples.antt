-- ===== src/Reconsiler/Examples.antt =====
-- The theorems on set reconciliation at small sets.
use mathlib.Core.List.{Perm}
use pttp.Prelude.{ℕ, ◌≡◌, refl, arith, ◌⊎◌, inl, inr, List, [], ◌∷◌, replicate, some}
use pttp.Bytes.{Bytes, equal}
use pttp.Bloom
use pttp.Bloom.{Bloom, put_all}
use pttp.Bloom.Membership.{IsValid, Counts, put_all-SetsAll, new-IsValid}
use pttp.Merkle.{hash_vec, level}
use pttp.Merkle.Binding.{Collision}
use pttp.Maps.{before}
use pttp.Reconsiler.{SetReconsiler, insert, sort, filter, check}
use pttp.Reconsiler.Sorting.{check-binding}
use pttp.Reconsiler.Filtering.{IsIn, filter-IsIn}
use pttp.Samples.{sum_hasher, digest_hasher}

abbrev leaf : ℕ → Bytes
leaf n = replicate 32 n

abbrev ours : List Bytes
ours = leaf 2 ∷ leaf 1 ∷ []

abbrev theirs : List Bytes
theirs = leaf 1 ∷ leaf 2 ∷ []

-- 163 is what the sample hasher makes of the two leaves in their order.
abbrev agreed : SetReconsiler
agreed = record { hash = leaf 163; n = 2; filters = []; current_set = ours; start_time = 0 }

check-binding_example : Perm ours theirs ⊎ Collision digest_hasher
unfolding hash_vec level sort insert before check equal
check-binding_example =
    check-binding digest_hasher agreed theirs (refl, (refl, tt)) (refl, (refl, tt)) refl refl refl

abbrev empty : Bloom
empty = Bloom.new 11 (5 ∷ [])

empty-IsValid : IsValid empty × Counts empty
empty-IsValid = new-IsValid 11 (5 ∷ []) (omega arith) (omega arith)

-- The peer's filter.
abbrev filled : Bloom
filled = (put_all-SetsAll sum_hasher empty theirs empty-IsValid.0 empty-IsValid.1).0

abbrev waiting : SetReconsiler
waiting = record { hash = leaf 163; n = 2; filters = filled ∷ []; current_set = []; start_time = 0 }

filter-IsIn_example :
    (r' : SetReconsiler) × (filter sum_hasher waiting ours ≡ some r') × IsIn (leaf 1) r'.current_set
filter-IsIn_example =
    filter-IsIn sum_hasher waiting ours theirs (leaf 1)
      (
        (
          empty,
          empty-IsValid.0,
          empty-IsValid.1,
          (put_all-SetsAll sum_hasher empty theirs empty-IsValid.0 empty-IsValid.1).1,
        ),
        tt,
      )
      (inl refl) (inr (inl refl))
