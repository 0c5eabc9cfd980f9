-- ===== src/Db/Sessions.antt =====
-- inc/db.h: the calls on a `CachedDB` from the moment that it is opened.
use pttp.Prelude.{
  ℕ, zero, suc, ◌<◌, ◌≡◌, ◌^◌, refl, arith, List, [], ◌∷◌, replicate, get_elem?, Option, none, some,
  false, ◌>>=◌, Option-cases, inl, inr,
}
use pttp.Bytes.{Bytes}
use pttp.Bloom
use pttp.Bloom.{ShortHasher}
use pttp.Bloom.Membership.{new-IsValid, hash-lt}
use pttp.Cuckoo
use pttp.Cuckoo.{new}
use pttp.Cuckoo.Lookup.{store-new}
use pttp.Db.Results.{cached_get_faults}
use pttp.Db.{
  Rocks, Fetched, CachedDb, open_db, open_cached, get, write_to, cached_put, cached_del, cached_get,
}

-- A call of the cached database; what the caller's pointer points to at a `get` is its second argument.
pub data Call : Type 0 where
  put_call get_call : Bytes → Bytes → Call
  del_call : Bytes → Call

module _ {S : Type 0} (hasher : ShortHasher) (rocks : Rocks S) where
  -- What the calls answer to each `get`.
  abbrev pub session : List Call → CachedDb S → Option (List Fetched)
  session [] c = some []
  session (put_call id bytes ∷ calls) c =
      cached_put hasher rocks c id bytes >>= λ c'. session calls c'
  session (del_call id ∷ calls) c = session calls (cached_del hasher rocks c id)
  session (get_call id out ∷ calls) c =
      cached_get hasher rocks c id out >>= λ r. session calls r.1 >>= λ rest. some (r.0 ∷ rest)

  -- The same of a database that can delete, that must not be given anything, and that must not be asked for what it has.
  abbrev pub absent : List Call → S → Option (List Fetched)
  absent [] db = some []
  absent (put_call id bytes ∷ calls) db = none
  absent (del_call id ∷ calls) db = absent calls (rocks.delete db id).1
  absent (get_call id out ∷ calls) db = elim (rocks.get db id) [
    | some value ↦ none
    | none ↦ absent calls db >>= λ rest. some (record { found = false; out = out } ∷ rest)
  ]

  cached_get_misses :
      (c : CachedDb S) (id out : Bytes)
      → Cuckoo.get hasher c.cache id ≡ some none
      → rocks.get c.db id ≡ none
      → cached_get hasher rocks c id out ≡ some (record { found = false; out = out }, c)
  unfolding cached_get get write_to
  cached_get_misses c id out e e' = ground arith

  get_elem?-empty :
      (n i : ℕ) → i < n → get_elem? {A = Option Bytes} (replicate n none) i ≡ some none
  get_elem?-empty zero i h = absurd (omega (arith, h))
  get_elem?-empty (suc n) zero h = refl
  get_elem?-empty (suc n) (suc i) h = get_elem?-empty n i (omega (arith, h))

  module _ (n : ℕ) (key1 key2 : Bytes) (pos : 0 < n) (small : n < 2 ^ 31) where
    get-new : (id : Bytes) → Cuckoo.get hasher (new n key1 key2) id ≡ some none
    unfolding Cuckoo.get new Bloom.new
    get-new id =
        let first = hash-lt hasher (Bloom.new n key1) id (new-IsValid n key1 pos small).0 in
        let second = hash-lt hasher (Bloom.new n key2) id (new-IsValid n key2 pos small).0 in
        rw
          (
            get_elem?-empty n (Bloom.hash hasher (Bloom.new n key1) id) first,
            get_elem?-empty n (Bloom.hash hasher (Bloom.new n key2) id) second,
          )
          refl

    pub session-absent :
        (calls : List Call) (db : S)
        → session calls (record { db = db; cache = new n key1 key2 }) ≡ absent calls db
    unfolding cached_put cached_del
    session-absent [] db = refl
    session-absent (put_call id bytes ∷ calls) db = rw (store-new hasher n key1 key2 id bytes) refl
    session-absent (del_call id ∷ calls) db = session-absent calls (rocks.delete db id).1
    session-absent (get_call id out ∷ calls) db =
        let c : CachedDb S = record { db = db; cache = new n key1 key2 } in
        elim (Option-cases (rocks.get db id)) [
          | inl e ↦
              rw (cached_get_misses c id out (get-new id) e, absent, e, session-absent calls db)
                refl
          | inr (v, e) ↦
              rw ((cached_get_faults hasher rocks c id out).1 (inr (get-new id, (v, e))), absent, e)
                refl
        ]

-- A `CachedDB` that has been opened, with room for one entry or more and fewer than 2^31, never hands out a value, for
-- all sequences of calls: the sequence is undefined where it has a `put`, or a `get` of a key that the database then
-- has; else each `get` reports that nothing was found, and leaves what its caller points to as it was.
pub session-open_cached :
    {S : Type 0} (hasher : ShortHasher) (rocks : Rocks S) (opens : Bytes → Option S) (path : Bytes)
    (n : ℕ) (key1 key2 : Bytes) (calls : List Call)
    → 0 < n
    → n < 2 ^ 31
    → (open_cached opens path n key1 key2 >>= λ c. session hasher rocks calls c)
      ≡ (opens path >>= λ db. absent hasher rocks calls db)
unfolding open_cached open_db
session-open_cached hasher rocks opens path n key1 key2 calls pos small =
    elim (Option-cases (opens path)) [
      | inl e ↦ rw e refl
      | inr (db, e) ↦ rw e (session-absent hasher rocks n key1 key2 pos small calls db)
    ]
