-- ===== src/Peers/Filters.antt =====
-- bin/p2p.cc: the filter of all that a node has, as its peer reads it.
use pttp.Prelude.{
  ℕ, ◌≡◌, refl, ◌∙◌, arith, List, [], ◌∷◌, map, some, true, Bool-cases, inl, inr, >>=-eq-some,
  ◌>>=◌,
}
use pttp.Bytes.{Bytes, equal, equal_sound}
use pttp.Maps.{member}
use pttp.Bloom
use pttp.Bloom.{ShortHasher, Bloom, new, from_bytes, hash, has, put_all}
use pttp.Bloom.Sizes.{put_all-p, new-p}
use pttp.Bloom.Membership.{IsValid, elem, put_all-SetsAll, new-IsValid, has-get_or}
use pttp.Bloom.Encoding.{from_bytes-bytes_odd}
use pttp.Peers.{BloomSet, Libs}
use pttp.Peers.Serving.{filter_all, bloom_set, bloom_of}

-- The filter answers true for every element of the set.
abbrev pub HasAll : ShortHasher → Bloom → List Bytes → Type 0
HasAll short f set = (s : Bytes) → member s set ≡ true → has short f s ≡ some true

elem-member :
    (h : Bytes → ℕ) (s : Bytes) (bs : List Bytes)
    → member s bs ≡ true
    → elem (h s) (map h bs) ≡ true
unfolding elem member
elem-member h s [] m = absurd (cc m)
elem-member h s (b ∷ bs) m = elim (Bool-cases (equal s b)) [
  | inl e ↦ let e' : s ≡ b = equal_sound s b e in rw e' (ground arith)
  | inr e ↦ let rest = elem-member h s bs (ground (arith, m, e)) in ground (arith, rest)
]

-- The filter of everything, filled.
pub filter_all-HasAll :
    (libs : Libs) (key : Bytes) (set : List Bytes)
    → (g : Bloom) × (filter_all libs key set ≡ some g)
      × (g.p ≡ 4999)
      × IsValid g
      × HasAll libs.short g set
unfolding filter_all
filter_all-HasAll libs key set =
    let valid = new-IsValid 4999 key (omega arith) (omega arith) in
    let (g, ran, v, same, counts, means) =
      put_all-SetsAll libs.short (new 4999 key) set valid.0 valid.1 in
    (
      g,
      ran,
      put_all-p libs.short (new 4999 key) g set ran ∙ new-p 4999 key,
      v,
      (λ s m.
          means s
          ∙ rw
              (
                has-get_or libs.short (new 4999 key) s valid.0,
                elem-member (hash libs.short (new 4999 key)) s set m,
              )
              refl),
    )

-- The fields hold a filter with every element of the set.
abbrev pub Carries : Libs → List Bytes → BloomSet → Type 0
Carries libs set b = (f : Bloom) × (bloom_of libs b ≡ some f) × IsValid f × HasAll libs.short f set

decoded : Bloom → Bloom
decoded g = record { p = g.p; hits = g.hits; key = g.key; n_on = 0 }

has-decoded :
    (short : ShortHasher) (g : Bloom) (s : Bytes) → has short (decoded g) s ≡ has short g s
unfolding has hash decoded
has-decoded short g s = refl

decoded-IsValid : (g : Bloom) → IsValid g → IsValid (decoded g)
unfolding decoded
decoded-IsValid g v = record { sized = v.sized; positive = v.positive; is_int = v.is_int }

-- The filter of everything that a node has goes through a message whole: the fields that it writes are read as
-- a filter that answers true for each of those elements. Neither the size 4999 nor a drawn key spoils it.
pub filter_all-Carries :
    (libs : Libs) (key : Bytes) (set : List Bytes)
    → (b : BloomSet) × ((filter_all libs key set >>= λ g. bloom_set libs g) ≡ some b)
      × (b.p ≡ 4999)
      × Carries libs set b
unfolding bloom_set bloom_of decoded
filter_all-Carries libs key set =
    let (g, ran, p_is, v, all) = filter_all-HasAll libs key set in
    let back =
      >>=-eq-some (Bloom.bytes g) _
        (from_bytes-bytes_odd g g.key v.sized (λ e. omega (arith, e, p_is))) in
    (
      record { p = g.p; payload = back.0; hash_key = g.key },
      rw (ran, back.1) refl,
      p_is,
      (decoded g, back.2, decoded-IsValid g v, λ s m. has-decoded libs.short g s ∙ all s m),
    )
