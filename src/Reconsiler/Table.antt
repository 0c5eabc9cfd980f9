-- ===== src/Reconsiler/Table.antt =====
-- bin/p2p.cc, `pttp::BlockChainReconsiler`: one `SetReconsiler` for each hash that is sought.
-- A run is `none` where a null pointer is followed.
use pttp.Prelude.{ℕ, List, length, Option, none, some, Bool, false, ltb, ◌==◌, if◌then◌else◌, ◌>>=◌}
use pttp.Bytes.{Bytes}
use pttp.Maps.{Map, lookup, assign}
use pttp.Bloom.{Bloom}
use pttp.Merkle.{GenericHasher}
use pttp.Reconsiler
use pttp.Reconsiler.{SetReconsiler}

-- `BlockChainReconsiler`, without the pointer to the chain and the headers, which nothing uses.
pub record BlockChainReconsiler : Type 0 where
  pub hash_reconsilers : Map SetReconsiler

-- Two of the functions end without a `return`. C++ leaves open what the caller then has, or whether the program goes
-- on at all (`none`): after `check`, on the result that it drops, and after `filters`, on the filters that it names.
pub record Endings : Type 0 where
  pub of_check : Bool → Option Bool
  pub of_filters : List Bloom → Option (List Bloom)

-- `init_hash`, at the clock's reading.
unfoldable pub init_hash : Bytes → ℕ → BlockChainReconsiler → BlockChainReconsiler
init_hash hash now r = elim (lookup hash r.hash_reconsilers) [
  | none ↦ record { hash_reconsilers = assign hash (Reconsiler.new hash now) r.hash_reconsilers }
  | some old ↦ r
]

-- `add_filter`, which does not use the filter and its size.
unfoldable pub add_filter : Bytes → ℕ → Bloom → ℕ → BlockChainReconsiler → BlockChainReconsiler
unfolding init_hash
add_filter hash n bloom now r = init_hash hash now r

-- `check`: where there is a reconsiler, the result of its own `check` is not returned.
unfoldable pub check : Endings → GenericHasher → Bytes → BlockChainReconsiler → Option Bool
check endings hasher hash r = elim (lookup hash r.hash_reconsilers) [
  | none ↦ some false
  | some s ↦ Reconsiler.check hasher s >>= λ result. endings.of_check result
]

-- `filters`, which has no `return`.
unfoldable pub filters : Endings → Bytes → BlockChainReconsiler → Option (List Bloom)
filters endings hash r = lookup hash r.hash_reconsilers >>= λ s. endings.of_filters s.filters

-- `get_set_or_filter`
unfoldable pub get_set_or_filter : Endings → Bytes → BlockChainReconsiler → Option Bool
unfolding filters
get_set_or_filter endings hash r = do
  fs ← filters endings hash r
  s ← lookup hash r.hash_reconsilers
  some (if length fs == 0 then false else ltb (length s.current_set) s.n)
