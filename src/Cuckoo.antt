-- ===== src/Cuckoo.antt =====
-- inc/bloom_filter.h, `Cuckoo`: a cache with two possible places for a hash.
-- A null pointer is `none`; a run is `none` where an index is out of range.
pub mod Lookup
use pttp.Prelude.{
  ℕ, ◌≡◌, List, [], length, get_elem?, replicate, Option, none, some, Bool, true, false,
  if◌then◌else◌, ◌>>=◌, ◌>>◌,
}
use pttp.Bytes.{Bytes, equal, update_at}
use pttp.Bloom
use pttp.Bloom.{ShortHasher, Bloom}

pub record Cuckoo : Type 0 where
  pub filter1 : Bloom
  pub filter2 : Bloom
  pub hashes : List (Option Bytes)
  pub payloads : List (Option Bytes)
  pub n : ℕ

-- `Cuckoo(size_t N_)`, with the keys that the two filters draw. It gives `hashes` its size, and leaves
-- `data` empty.
unfoldable pub new : ℕ → Bytes → Bytes → Cuckoo
new n key1 key2 = record {
  filter1 = Bloom.new n key1;
  filter2 = Bloom.new n key2;
  hashes = replicate n none;
  payloads = [];
  n = n;
}

module _ (hasher : ShortHasher) where
  -- The place that `store` writes: the first, or if it is taken the second. A taken second place is
  -- freed, for which `data` is read there.
  unfoldable pub place : Cuckoo → Bytes → Option ℕ
  place c hash =
      let first = Bloom.hash hasher c.filter1 hash in
      let second = Bloom.hash hasher c.filter2 hash in
      get_elem? c.hashes first >>= λ h1. elim h1 [
        | none ↦ some first
        | some _ ↦ get_elem? c.hashes second >>= λ h2. elim h2 [
          | none ↦ some second
          | some _ ↦ get_elem? c.payloads second >> some second
        ]
      ]

  -- `Cuckoo::store`
  unfoldable pub store : Cuckoo → Bytes → Bytes → Option Cuckoo
  store c hash new_data = do
    p ← place c hash
    hashes ← update_at c.hashes p (λ _. some hash)
    payloads ← update_at c.payloads p (λ _. some new_data)
    some (record c { hashes = hashes; payloads = payloads })

  -- `if (*hashes[p] != hash) return 0; return data[p];`
  answer : Cuckoo → Bytes → ℕ → Bytes → Option (Option Bytes)
  answer c hash p stored = if equal stored hash then get_elem? c.payloads p else some none

  -- `Cuckoo::get`
  unfoldable pub get : Cuckoo → Bytes → Option (Option Bytes)
  unfolding answer
  get c hash =
      let first = Bloom.hash hasher c.filter1 hash in
      let second = Bloom.hash hasher c.filter2 hash in
      get_elem? c.hashes first >>= λ h1. elim h1 [
        | some stored ↦ answer c hash first stored
        | none ↦ get_elem? c.hashes second >>= λ h2. elim h2 [
          | none ↦ some none
          | some stored ↦ answer c hash second stored
        ]
      ]
