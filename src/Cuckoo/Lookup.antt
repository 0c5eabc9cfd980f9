-- ===== src/Cuckoo/Lookup.antt =====
-- What `get` finds after `store`.
use pttp.Prelude.{
  ℕ, zero, suc, ◌<◌, ◌≡◌, refl, sym, arith, ◌≢◌, ◌∙◌, List, [], ◌∷◌, length, get_elem?, set,
  length-set, get_elem?-set_self, get_elem?-set_ne, none, some, Option-cases, inl, inr, ◌⊎◌,
}
use pttp.Bytes.{Bytes, equal_refl, update_at}
use pttp.Bloom
use pttp.Bloom.{ShortHasher, Bloom}
use pttp.Bloom.Membership.{IsValid, hash-lt}
use pttp.Cuckoo.{Cuckoo, new, place, store, answer, get}

module _ {ℓ} {A : Type ℓ} where
  pub update_at-set :
      (xs : List A) (i : ℕ) (v : A) → i < length xs → update_at xs i (λ _. v) ≡ some (set xs i v)
  unfolding update_at
  update_at-set [] i v h = absurd (omega arith)
  update_at-set (x ∷ xs) zero v h = refl
  update_at-set (x ∷ xs) (suc i) v h = rw (update_at-set xs i v (omega arith))

  pub get_elem?-some : (xs : List A) (i : ℕ) → i < length xs → (x : A) × (get_elem? xs i ≡ some x)
  get_elem?-some [] i h = absurd (omega arith)
  get_elem?-some (x ∷ xs) zero h = (x, refl)
  get_elem?-some (x ∷ xs) (suc i) h = get_elem?-some xs i (omega arith)

-- Both vectors have `N` places, as the filters do.
pub record IsSized (c : Cuckoo) : Type 0 where
  pub first : IsValid c.filter1
  pub second : IsValid c.filter2
  pub first_n : c.filter1.p ≡ c.n
  pub second_n : c.filter2.p ≡ c.n
  pub hashes_n : length c.hashes ≡ c.n
  pub payloads_n : length c.payloads ≡ c.n

module _ (hasher : ShortHasher) where
  -- The cache as its constructor leaves it cannot store anything: the write to `data` is out of range.
  pub store-new :
      (n : ℕ) (key1 key2 hash new_data : Bytes)
      → store hasher (new n key1 key2) hash new_data ≡ none
  unfolding store new update_at
  store-new n key1 key2 hash new_data = ground arith

  abbrev pub first_place : Cuckoo → Bytes → ℕ
  first_place c hash = Bloom.hash hasher c.filter1 hash

  abbrev pub second_place : Cuckoo → Bytes → ℕ
  second_place c hash = Bloom.hash hasher c.filter2 hash

  module _ (c : Cuckoo) (sized : IsSized c) (hash : Bytes) where
    first_inside : first_place c hash < c.n
    first_inside = rw (← sized.first_n) (hash-lt hasher c.filter1 hash sized.first)

    second_inside : second_place c hash < c.n
    second_inside = rw (← sized.second_n) (hash-lt hasher c.filter2 hash sized.second)

    place_free :
        get_elem? c.hashes (first_place c hash) ≡ some none
        → place hasher c hash ≡ some (first_place c hash)
    unfolding place
    place_free e = ground arith

    place_taken :
        (stored : Bytes)
        → get_elem? c.hashes (first_place c hash) ≡ some (some stored)
        → place hasher c hash ≡ some (second_place c hash)
    unfolding place
    place_taken stored e =
        let (h2, e2) =
          get_elem?-some c.hashes (second_place c hash) (rw sized.hashes_n second_inside) in
        let (d2, e3) =
          get_elem?-some c.payloads (second_place c hash) (rw sized.payloads_n second_inside) in
        ground arith

    module _ (new_data : Bytes) where
      written : ℕ → Cuckoo
      written p = record c {
        hashes = set c.hashes p (some hash);
        payloads = set c.payloads p (some new_data);
      }

      store-written :
          (p : ℕ)
          → p < c.n
          → place hasher c hash ≡ some p
          → store hasher c hash new_data ≡ some (written p)
      unfolding store written
      store-written p inside e = rw (
        e,
        update_at-set c.hashes p (some hash) (rw sized.hashes_n inside),
        update_at-set c.payloads p (some new_data) (rw sized.payloads_n inside),
      )

      written-IsSized : (p : ℕ) → IsSized (written p)
      unfolding written
      written-IsSized p = record {
        first = sized.first;
        second = sized.second;
        first_n = sized.first_n;
        second_n = sized.second_n;
        hashes_n = length-set c.hashes p (some hash) ∙ sized.hashes_n;
        payloads_n = length-set c.payloads p (some new_data) ∙ sized.payloads_n;
      }

      -- The new entry is found where its place is the first.
      get-written :
          (p : ℕ)
          → p < c.n
          → first_place c hash ≡ p
          → get hasher (written p) hash ≡ some (some new_data)
      unfolding get written answer
      get-written p inside e = ground (
        arith,
        get_elem?-set_self c.hashes p (some hash) (rw sized.hashes_n inside),
        equal_refl hash,
        get_elem?-set_self c.payloads p (some new_data) (rw sized.payloads_n inside),
      )

      -- An entry elsewhere is not looked for while the first place is taken.
      get-written_elsewhere :
          (p : ℕ) (stored : Bytes)
          → p ≢ first_place c hash
          → get_elem? c.hashes (first_place c hash) ≡ some (some stored)
          → get hasher (written p) hash ≡ get hasher c hash
      unfolding get written answer
      get-written_elsewhere p stored apart e = ground (
        arith,
        get_elem?-set_ne c.hashes (some hash) apart,
        get_elem?-set_ne c.payloads (some new_data) apart,
      )

      get-store_free :
          get_elem? c.hashes (first_place c hash) ≡ some none
          → (c' : Cuckoo) × (store hasher c hash new_data ≡ some c')
            × IsSized c'
            × (get hasher c' hash ≡ some (some new_data))
      get-store_free free = (
        written (first_place c hash),
        store-written (first_place c hash) first_inside (place_free free),
        written-IsSized (first_place c hash),
        get-written (first_place c hash) first_inside refl,
      )

      -- In a cache whose filters and vectors have `N` places, `store` succeeds and keeps the sizes, and a
      -- following `get` finds the new data: when the first place of the hash is free, and when it is the
      -- second place too.
      pub get-store :
          (get_elem? c.hashes (first_place c hash) ≡ some none)
            ⊎ (first_place c hash ≡ second_place c hash)
          → (c' : Cuckoo) × (store hasher c hash new_data ≡ some c')
            × IsSized c'
            × (get hasher c' hash ≡ some (some new_data))
      get-store (inl free) = get-store_free free
      get-store (inr same) =
          let inside : first_place c hash < length c.hashes = rw sized.hashes_n first_inside in
          let (h1, e) = get_elem?-some c.hashes (first_place c hash) inside in
          elim (Option-cases h1) [
            | inl free ↦ get-store_free (rw free at e)
            | inr (stored, busy) ↦ (
              written (second_place c hash),
              store-written (second_place c hash) second_inside (place_taken stored (rw busy at e)),
              written-IsSized (second_place c hash),
              get-written (second_place c hash) second_inside same,
            )
          ]

      -- In a cache whose filters and vectors have `N` places, when the first place of the hash is taken
      -- and is not its second place, `store` succeeds and keeps the sizes, and a following `get` answers as
      -- before it.
      pub get-store_taken :
          (stored : Bytes)
          → get_elem? c.hashes (first_place c hash) ≡ some (some stored)
          → first_place c hash ≢ second_place c hash
          → (c' : Cuckoo) × (store hasher c hash new_data ≡ some c')
            × IsSized c'
            × (get hasher c' hash ≡ get hasher c hash)
      get-store_taken stored e apart = (
        written (second_place c hash),
        store-written (second_place c hash) second_inside (place_taken stored e),
        written-IsSized (second_place c hash),
        get-written_elsewhere (second_place c hash) stored (λ q. apart (sym q)) e,
      )
