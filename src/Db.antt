-- ===== src/Db.antt =====
-- inc/db.h: `DB` over RocksDB, and `CachedDB`, which puts a `Cuckoo` in front of it.
pub mod Results
pub mod Sessions
mod Examples
use pttp.Prelude.{ℕ, ◌≡◌, Option, none, some, Bool, true, false, if◌then◌else◌, ◌>>=◌}
use pttp.Bytes.{Bytes}
use pttp.Bloom.{ShortHasher}
use pttp.Cuckoo
use pttp.Cuckoo.{Cuckoo}

-- RocksDB over its states `S`. A status that is not ok is `false`, or `none` for `Get`. A `Put` that
-- reports success is seen by the next `Get` of its key.
pub record Rocks (S : Type 0) : Type 0 where
  pub put : S → Bytes → Bytes → Bool × S
  pub delete : S → Bytes → Bool × S
  pub get : S → Bytes → Option Bytes
  pub get-put : (s : S) (k v : Bytes) → (put s k v).0 ≡ true → get (put s k v).1 k ≡ some v

-- `DB(path_)`, with what `rocksdb::DB::Open` gives for the path: nothing where its status is not ok, which an
-- assertion refuses.
unfoldable pub open_db {ℓ} : {S : Type ℓ} → (Bytes → Option S) → Bytes → Option S
open_db opens path = opens path

-- A pointer to bytes: null, or what it points to.
abbrev pub Pointer : Type 0
Pointer = Option Bytes

-- `*to = value`, which a null pointer does not allow.
unfoldable pub write_to : Pointer → Bytes → Option Pointer
write_to to value = to >>= λ old. some (some value)

-- A Boolean that is returned, and what the caller's `Bytes *data` points to then.
pub record Fetched : Type 0 where
  pub found : Bool
  pub out : Bytes

module _ {S : Type 0} (rocks : Rocks S) where
  -- `DB::put`
  unfoldable pub put : S → Bytes → Bytes → Bool × S
  put db id bytes = rocks.put db id bytes

  -- `DB::del`
  unfoldable pub del : S → Bytes → Bool × S
  del db id = rocks.delete db id

  -- `DB::get`, with the pointer after it.
  unfoldable pub get : S → Bytes → Pointer → Option (Bool × Pointer)
  unfolding write_to
  get db id to = elim (rocks.get db id) [
    | none ↦ some (false, to)
    | some value ↦ write_to to value >>= λ written. some (true, written)
  ]

pub record CachedDb (S : Type 0) : Type 0 where
  pub db : S
  pub cache : Cuckoo

-- `CachedDB(path, P)`; the cache draws the keys of its two filters.
unfoldable pub open_cached :
    {S : Type 0} → (Bytes → Option S) → Bytes → ℕ → Bytes → Bytes → Option (CachedDb S)
unfolding open_db
open_cached opens path n key1 key2 =
    open_db opens path >>= λ db. some (record { db = db; cache = Cuckoo.new n key1 key2 })

module _ {S : Type 0} (hasher : ShortHasher) (rocks : Rocks S) where
  -- `CachedDB::put`; it has no `return` statement, so nothing is said of its result.
  unfoldable pub cached_put : CachedDb S → Bytes → Bytes → Option (CachedDb S)
  unfolding put
  cached_put c id bytes = do
    cache ← Cuckoo.store hasher c.cache id bytes
    some (record { db = (put rocks c.db id bytes).1; cache = cache })

  -- `CachedDB::del`; it has no `return` statement either, and leaves the cache alone.
  unfoldable pub cached_del : CachedDb S → Bytes → CachedDb S
  unfolding del
  cached_del c id = record c { db = (del rocks c.db id).1 }

  -- `CachedDB::get`. The answer of the cache replaces the local pointer `data`, so what the caller's points to
  -- is not written. Where that answer is null, the null pointer is what `db.get` has to write through.
  unfoldable pub cached_get : CachedDb S → Bytes → Bytes → Option (Fetched × CachedDb S)
  unfolding get
  cached_get c id out = Cuckoo.get hasher c.cache id >>= λ cached. elim cached [
    | some _ ↦ some (record { found = true; out = out }, c)
    | none ↦ get rocks c.db id none >>= λ r.
        let stored = r.1 >>= λ value. Cuckoo.store hasher c.cache id value >>= λ cache.
        some (record { found = true; out = out }, record c { cache = cache }) in
        if r.0 then stored else some (record { found = false; out = out }, c)
  ]
