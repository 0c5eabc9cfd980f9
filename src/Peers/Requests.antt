-- ===== src/Peers/Requests.antt =====
-- bin/p2p.cc: a request for the transactions of a set, and its answer.
use pttp.Prelude.{
  ◌^◌, ◌<◌, ◌≡◌, refl, arith, List, [], ◌∷◌, map, get_or, Option, none, some, false, if◌then◌else◌,
  Bool-cases, inl, inr, All, >>=-eq-some, ◌>>=◌,
}
use pttp.Bytes.{Bytes, update_at}
use pttp.Maps.{Map, member, lookup}
use pttp.Bloom.{ShortHasher, Bloom, hash}
use pttp.Bloom.Membership.{IsValid, has-get_or}
use pttp.Gtd.{TaskType}
use pttp.Ledger
use pttp.Ledger.{Transaction}
use pttp.Peers.{BloomSet, tx_set_hash, Content, req_set, Libs, Node, task_with}
use pttp.Peers.Serving.{bloom_of, lacking, filter_all, bloom_set, serve_set, answer, serve}
use pttp.Peers.Managing.{ask}
use pttp.Peers.Filters.{HasAll, filter_all-Carries}

-- The parts in which a message reaches a router socket: its sender, and the empty part that a request socket
-- puts before it.
abbrev pub envelope : Bytes → Bytes → List Bytes
envelope sender m = sender ∷ [] ∷ m ∷ []

abbrev pub AreKept : Map Transaction → List Bytes → Type 0
AreKept txs hashes = All (λ s. (tx : Transaction) × (lookup s txs ≡ some tx)) hashes

-- The bytes of a kept transaction.
abbrev pub bytes_or_empty : Libs → Option Transaction → Bytes
bytes_or_empty libs none = []
bytes_or_empty libs (some tx) = Ledger.bytes libs.wire tx

-- The hashes that the filter has not.
abbrev pub wanted : ShortHasher → Bloom → List Bytes → List Bytes
wanted short f [] = []
wanted short f (s ∷ hashes) =
    if get_or f.hits (hash short f s) false
    then wanted short f hashes
    else s ∷ wanted short f hashes

abbrev pub tx_bytes : Libs → Map Transaction → Bytes → Bytes
tx_bytes libs txs s = bytes_or_empty libs (lookup s txs)

lacking-wanted :
    (libs : Libs) (txs : Map Transaction) (f : Bloom) (hashes : List Bytes)
    → IsValid f
    → AreKept txs hashes
    → lacking libs txs f hashes ≡ some (map (tx_bytes libs txs) (wanted libs.short f hashes))
unfolding lacking
lacking-wanted libs txs f [] v known = refl
lacking-wanted libs txs f (s ∷ hashes) v ((tx, found), known) =
    let rest = lacking-wanted libs txs f hashes v known in
    elim (Bool-cases (get_or f.hits (hash libs.short f s) false)) [
      | inl hit ↦ rw (has-get_or libs.short f s v, hit, rest) refl
      | inr miss ↦ rw (has-get_or libs.short f s v, miss, rest, found) refl
    ]

-- None of them is in a set that the filter has.
wanted-new :
    (short : ShortHasher) (f : Bloom) (known hashes : List Bytes)
    → IsValid f
    → HasAll short f known
    → All (λ s. member s known ≡ false) (wanted short f hashes)
wanted-new short f known [] v all = tt
wanted-new short f known (s ∷ hashes) v all =
    elim (Bool-cases (get_or f.hits (hash short f s) false)) [
      | inl hit ↦ rw hit (wanted-new short f known hashes v all)
      | inr miss ↦ rw miss (
        elim (Bool-cases (member s known)) [
          | inl m ↦ absurd (cc (all s m, has-get_or short f s v, miss))
          | inr m ↦ m
        ],
        wanted-new short f known hashes v all,
      )
    ]

-- What the answer to a request for a set carries: the transactions that the asking node's filter lacks.
abbrev pub AnswersWith : Libs → Bytes → List Bytes → Node → Node → Bytes → Bytes → Type 0
AnswersWith libs target hashes p q key m =
    (b : BloomSet) × (m ≡ libs.messages.write (req_set (tx_set_hash target) b))
    × (f : Bloom) × (bloom_of libs b ≡ some f)
    × All (λ s. member s p.full_set ≡ false) (wanted libs.short f hashes)
    × ((sender key' : Bytes)
        → serve libs key' (envelope sender m) q
          ≡ some (
            envelope sender (
                libs.messages.write (
                  Content.set
                    (map (tx_bytes libs q.block_chain.txs) (wanted libs.short f hashes)))),
            q,
          ))

serve_set-wanted :
    (libs : Libs) (target : Bytes) (hashes : List Bytes) (q : Node) (b : BloomSet) (f : Bloom)
    → lookup target q.block_chain.hash_sets ≡ some hashes
    → AreKept q.block_chain.txs hashes
    → bloom_of libs b ≡ some f
    → IsValid f
    → serve_set libs (tx_set_hash target) b q
      ≡ some (Content.set (map (tx_bytes libs q.block_chain.txs) (wanted libs.short f hashes)))
unfolding serve_set
serve_set-wanted libs target hashes q b f found known made v =
    rw (made, found, lacking-wanted libs q.block_chain.txs f hashes v known) refl

ask_set :
    (libs : Libs) (target key : Bytes) (p : Node) (b : BloomSet)
    → (filter_all libs key p.full_set >>= λ g. bloom_set libs g) ≡ some b
    → ask libs key (task_with TaskType.req_hashset target) p
      ≡ some (some (libs.messages.write (req_set (tx_set_hash target) b)))
unfolding ask
ask_set libs target key p b h =
    let g = >>=-eq-some (filter_all libs key p.full_set) _ h in rw (g.1, g.2) refl

serve-req_set :
    (libs : Libs) (target sender key : Bytes) (q : Node) (b : BloomSet) (reply : Content)
    → b.p < 2 ^ 32
    → serve_set libs (tx_set_hash target) b q ≡ some reply
    → serve libs key (envelope sender (libs.messages.write (req_set (tx_set_hash target) b))) q
      ≡ some (envelope sender (libs.messages.write reply), q)
unfolding serve answer update_at
serve-req_set libs target sender key q b reply fits h =
    rw (libs.messages.read-write (req_set (tx_set_hash target) b) fits, h) refl

-- A node asks for a set of transactions, by its hash, with a filter of all that it has. A peer that
-- has the set, and its transactions, reads the filter and answers with exactly those transactions,
-- each whole, whose hashes the filter lacks, and keeps its state; the hash of none of them is among
-- what the asking node has.
pub ask-serve_set :
    (libs : Libs) (target key : Bytes) (hashes : List Bytes) (p q : Node)
    → lookup target q.block_chain.hash_sets ≡ some hashes
    → AreKept q.block_chain.txs hashes
    → (m : Bytes) × (ask libs key (task_with TaskType.req_hashset target) p ≡ some (some m))
      × AnswersWith libs target hashes p q key m
ask-serve_set libs target key hashes p q found known =
    let (b, made, size, (f, read, v, all)) = filter_all-Carries libs key p.full_set in
    (
      libs.messages.write (req_set (tx_set_hash target) b),
      ask_set libs target key p b made,
      (
        b,
        refl,
        f,
        read,
        wanted-new libs.short f p.full_set hashes v all,
        λ sender key'.
            serve-req_set libs target sender key' q b _ (omega (arith, size))
              (serve_set-wanted libs target hashes q b f found known read v),
      ),
    )
