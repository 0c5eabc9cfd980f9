-- ===== src/Reconsiler/Seeking.antt =====
-- bin/p2p.cc, `BlockChainReconsiler`: what there is for a hash after `init_hash`, and that the calls on it end.
use pttp.Prelude.{
  ℕ, ◌≡◌, refl, List, [], ◌∷◌, length, none, some, Bool, false, ltb, ◌==◌, ◌≢◌, Option-cases,
  Bool-cases, inl, inr, if◌then◌else◌,
}
use pttp.Bytes.{Bytes, equal}
use pttp.Maps.{before, lookup}
use pttp.Maps.Laws.{lookup-assign_self, lookup-assign_ne}
use pttp.Bloom.{Bloom}
use pttp.Merkle.{GenericHasher}
use pttp.Merkle.Levels.{hash_vec_total}
use pttp.Reconsiler
use pttp.Reconsiler.{SetReconsiler, insert, sort}
use pttp.Reconsiler.Table.{
  BlockChainReconsiler, Endings, init_hash, check, filters, get_set_or_filter,
}

-- The reconsiler that is to stand for a hash: the one that is there, or a new one.
abbrev pub sought : Bytes → ℕ → BlockChainReconsiler → SetReconsiler
sought hash now r = elim (lookup hash r.hash_reconsilers) [
  | none ↦ record { hash = hash; n = 0; filters = []; current_set = []; start_time = now }
  | some old ↦ old
]

sought-absent :
    (hash : Bytes) (now : ℕ) (r : BlockChainReconsiler)
    → lookup hash r.hash_reconsilers ≡ none
    → Reconsiler.new hash now ≡ sought hash now r
unfolding Reconsiler.new
sought-absent hash now r e = rw (e, sought) refl

sought-present :
    (hash : Bytes) (now : ℕ) (r : BlockChainReconsiler) (s : SetReconsiler)
    → lookup hash r.hash_reconsilers ≡ some s
    → s ≡ sought hash now r
sought-present hash now r s e = rw (e, sought) refl

pub lookup-init_hash :
    (hash : Bytes) (now : ℕ) (r : BlockChainReconsiler)
    → lookup hash (init_hash hash now r).hash_reconsilers ≡ some (sought hash now r)
unfolding init_hash
lookup-init_hash hash now r = elim (Option-cases (lookup hash r.hash_reconsilers)) [
  | inl e ↦
      rw (e, init_hash, ← sought-absent hash now r e) (lookup-assign_self hash _ r.hash_reconsilers)
  | inr (s, e) ↦ rw (e, init_hash, ← sought-present hash now r s e) e
]

pub lookup-init_hash_ne :
    (hash other : Bytes) (now : ℕ) (r : BlockChainReconsiler)
    → equal other hash ≡ false
    → lookup other (init_hash hash now r).hash_reconsilers ≡ lookup other r.hash_reconsilers
unfolding init_hash
lookup-init_hash_ne hash other now r apart = elim (Option-cases (lookup hash r.hash_reconsilers)) [
  | inl e ↦ rw (e, init_hash) (lookup-assign_ne other hash _ r.hash_reconsilers apart)
  | inr (s, e) ↦ rw (e, init_hash) refl
]

insert_some : (x : Bytes) (xs : List Bytes) → insert x xs ≢ []
unfolding insert
insert_some x [] h = cc h
insert_some x (y ∷ ys) h = elim (Bool-cases (before y x)) [
  | inl e ↦ cc (rw e at h)
  | inr e ↦ cc (rw e at h)
]

pub check_total :
    (hasher : GenericHasher) (hash : Bytes) (n start : ℕ) (fs : List Bloom) (set : List Bytes)
    → (c : Bool) × (Reconsiler.check hasher
          (record { hash = hash; n = n; filters = fs; current_set = set; start_time = start })
        ≡ some c)
unfolding Reconsiler.check sort
check_total hasher hash n start fs [] = (false, refl)
check_total hasher hash n start fs (x ∷ xs) =
    let (h, ran, size) = hash_vec_total hasher (insert x (sort xs)) (insert_some x (sort xs)) in
    (equal hash h, rw ran refl)

pub check-found :
    (endings : Endings) (hasher : GenericHasher) (hash : Bytes) (r : BlockChainReconsiler)
    (s : SetReconsiler) (c : Bool)
    → lookup hash r.hash_reconsilers ≡ some s
    → Reconsiler.check hasher s ≡ some c
    → check endings hasher hash r ≡ endings.of_check c
unfolding check
check-found endings hasher hash r s c e ran = rw (check, e, ran) refl

pub get_set_or_filter-found :
    (endings : Endings) (hash : Bytes) (r : BlockChainReconsiler) (s : SetReconsiler)
    (fs : List Bloom)
    → lookup hash r.hash_reconsilers ≡ some s
    → endings.of_filters s.filters ≡ some fs
    → get_set_or_filter endings hash r
      ≡ some (if length fs == 0 then false else ltb (length s.current_set) s.n)
unfolding get_set_or_filter filters
get_set_or_filter-found endings hash r s fs e left = rw (e, left) refl
