-- ===== src/Db/Results.antt =====
-- What the calls deliver to their caller.
use pttp.Prelude.{◌≡◌, arith, ◌↔◌, ◌⊎◌, none, some, Option-cases, inl, inr}
use pttp.Bytes.{Bytes}
use pttp.Bloom.{ShortHasher}
use pttp.Cuckoo
use pttp.Db.{Rocks, Fetched, CachedDb, get, write_to, cached_get}

module _ {S : Type 0} (hasher : ShortHasher) (rocks : Rocks S) (c : CachedDb S)
    (id out : Bytes) where
  -- Where `CachedDB::get` returns, it has delivered no value: the caller's bytes and the state are as
  -- before.
  pub cached_get_delivers :
      (r : Fetched) (c' : CachedDb S)
      → cached_get hasher rocks c id out ≡ some (r, c')
      → (r.out ≡ out) × (c' ≡ c)
  unfolding cached_get get write_to
  cached_get_delivers r c' h = ground arith

  -- `CachedDB::get` is undefined exactly where the cache faults, and where the cache has no answer while
  -- the database has one.
  pub cached_get_faults : (cached_get hasher rocks c id out ≡ none) ↔ (
      (Cuckoo.get hasher c.cache id ≡ none)
      ⊎ ((Cuckoo.get hasher c.cache id ≡ some none) × ((v : Bytes) × (rocks.get c.db id ≡ some v))))
  unfolding cached_get get write_to
  cached_get_faults = (
    (λ h. elim (Option-cases (Cuckoo.get hasher c.cache id)) [
      | inl e ↦ inl e
      | inr (o, e) ↦ elim (Option-cases o) [
        | inr (v, e') ↦ absurd (ground arith)
        | inl e' ↦ elim (Option-cases (rocks.get c.db id)) [
          | inl e'' ↦ absurd (ground arith)
          | inr (v, e'') ↦ inr (rw e' at e, (v, e''))
        ]
      ]
    ]),
    (λ h. ground arith),
  )
