-- ===== src/Peers/Faults.antt =====
-- bin/p2p.cc, `serve`: which messages end the program.
use pttp.Prelude.{
  ℕ, zero, suc, ◌+◌, ◌-◌, ◌*◌, ◌^◌, bit_and, not, ◌≤◌, ◌<◌, ◌≡◌, refl, ap, arith, List, [], ◌∷◌,
  length, get_elem?, none, some, Bool, false, ◌==◌, Bool-cases, Option-cases, inl, inr,
}
use pttp.Bytes.{Bytes}
use pttp.Maps.{Map}
use pttp.Ledger
use pttp.Ledger.{Transaction}
use pttp.Bloom.{ShortHasher, Bloom, read_hits, from_bytes, has}
use pttp.Bloom.Membership.{IsValid, has-get_or}
use pttp.Peers.{BloomSet, Req, req_set, Libs, Node}
use pttp.Peers.Serving.{lacking, bloom_of, serve_set, answer, serve}
use pttp.Peers.Requests.{envelope, AreKept}

get_elem?-lt : (b : Bytes) (i : ℕ) {x : ℕ} → get_elem? b i ≡ some x → i < length b
get_elem?-lt [] i h = absurd (cc h)
get_elem?-lt (y ∷ b) zero h = omega arith
get_elem?-lt (y ∷ b) (suc i) h = omega (arith, get_elem?-lt b i h)

lt-get_elem? : (b : Bytes) (i : ℕ) → i < length b → (x : ℕ) × (get_elem? b i ≡ some x)
lt-get_elem? [] i h = absurd (omega (arith, h))
lt-get_elem? (y ∷ b) zero h = (y, refl)
lt-get_elem? (y ∷ b) (suc i) h = lt-get_elem? b i (omega (arith, h))

-- More hits than the bytes have from here on cannot be read.
read_hits-short :
    (left idx n : ℕ) (b : Bytes)
    → n < 8
    → 8 * idx + n ≤ 8 * length b
    → 8 * length b < 8 * idx + n + left
    → read_hits left idx n b ≡ none
unfolding read_hits
read_hits-short zero idx n b digit inside short = absurd (omega (arith, inside, short))
read_hits-short (suc left) idx n b digit inside short = elim (Option-cases (get_elem? b idx)) [
  | inl gone ↦ rw gone refl
  | inr (x, there) ↦
      let room = get_elem?-lt b idx there in
      elim (Bool-cases (n + 1 == 8)) [
        | inl full ↦
            let last : n ≡ 7 = ground (arith, full) in
            rw
              (
                there,
                full,
                read_hits-short left (idx + 1) 0 b (omega arith) (omega (arith, room))
                    (omega (arith, short, last)),
              )
              refl
        | inr more ↦
            let early : n < 7 = ground (arith, digit, more) in
            rw
              (
                there,
                more,
                read_hits-short left (idx + 0) (n + 1) b (omega (arith, early))
                    (omega (arith, room, early)) (omega (arith, short)),
              )
              refl
      ]
]

bloom_of-short : (libs : Libs) (b : BloomSet) → 8 * length b.payload < b.p → bloom_of libs b ≡ none
unfolding bloom_of from_bytes
bloom_of-short libs b short =
    rw (read_hits-short b.p 0 0 b.payload (omega arith) (omega arith) (omega (arith, short))) refl

-- A request for a set whose filter claims more hits, up to 2 ^ 32, than its bytes hold makes the node
-- read past their end, whatever the node, the set and the key.
pub serve-short_filter :
    (libs : Libs) (sender key : Bytes) (req : Req) (b : BloomSet) (q : Node)
    → b.p < 2 ^ 32
    → 8 * length b.payload < b.p
    → serve libs key (envelope sender (libs.messages.write (req_set req b))) q ≡ none
unfolding serve answer serve_set
serve-short_filter libs sender key req b q fits short =
    rw (libs.messages.read-write (req_set req b) fits, bloom_of-short libs b short) refl

-- As many hits as the bytes have can be read.
read_hits-enough :
    (left idx n : ℕ) (b : Bytes)
    → n < 8
    → 8 * idx + n + left ≤ 8 * length b
    → (hits : List Bool) × (read_hits left idx n b ≡ some hits) × (length hits ≡ left)
unfolding read_hits
read_hits-enough zero idx n b digit room = ([], refl, refl)
read_hits-enough (suc left) idx n b digit room =
    let (x, there) = lt-get_elem? b idx (omega (arith, room)) in
    elim (Bool-cases (n + 1 == 8)) [
      | inl full ↦
          let last : n ≡ 7 = ground (arith, full) in
          let (hits, ran, size) =
            read_hits-enough left (idx + 1) 0 b (omega arith) (omega (arith, room, last)) in
          (not (bit_and x (2 ^ (7 - n)) == 0) ∷ hits, rw (there, full, ran) refl, ap suc size)
      | inr more ↦
          let early : n < 7 = ground (arith, digit, more) in
          let (hits, ran, size) =
            read_hits-enough left (idx + 0) (n + 1) b (omega (arith, early))
              (omega (arith, room)) in
          (not (bit_and x (2 ^ (7 - n)) == 0) ∷ hits, rw (there, more, ran) refl, ap suc size)
    ]

pub bloom_of-enough :
    (libs : Libs) (b : BloomSet)
    → b.p ≤ 8 * length b.payload
    → (f : Bloom) × (bloom_of libs b ≡ some f) × (f.p ≡ b.p) × (length f.hits ≡ f.p)
unfolding bloom_of from_bytes
bloom_of-enough libs b room =
    let (hits, ran, size) =
      read_hits-enough b.p 0 0 b.payload (omega arith) (omega (arith, room)) in
    (record { p = b.p; hits = hits; key = b.hash_key; n_on = 0 }, rw ran refl, refl, size)

-- A filter without hits has nothing; one with hits has a place for every hash.
has-total :
    (short : ShortHasher) (f : Bloom) (s : Bytes)
    → f.p < 2 ^ 31
    → length f.hits ≡ f.p
    → (hit : Bool) × (has short f s ≡ some hit)
unfolding has
has-total short f s small sized = elim (Bool-cases (f.p == 0)) [
  | inl none_at_all ↦ (false, rw none_at_all refl)
  | inr some_hits ↦
      let valid : IsValid f = record {
        sized = sized;
        positive = ground (arith, some_hits);
        is_int = small;
      } in
      (_, has-get_or short f s valid)
]

pub lacking-total :
    (libs : Libs) (txs : Map Transaction) (f : Bloom) (hashes : List Bytes)
    → f.p < 2 ^ 31
    → length f.hits ≡ f.p
    → AreKept txs hashes
    → (bs : List Bytes) × (lacking libs txs f hashes ≡ some bs)
unfolding lacking
lacking-total libs txs f [] small sized known = ([], refl)
lacking-total libs txs f (s ∷ hashes) small sized ((tx, found), known) =
    let (bs, rest) = lacking-total libs txs f hashes small sized known in
    let (hit, answered) = has-total libs.short f s small sized in
    elim (Bool-cases hit) [
      | inl e ↦ (bs, rw (answered, e, rest) refl)
      | inr e ↦ (Ledger.bytes libs.wire tx ∷ bs, rw (answered, e, rest, found) refl)
    ]
