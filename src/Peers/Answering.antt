-- ===== src/Peers/Answering.antt =====
-- bin/p2p.cc, `serve`: which messages are answered.
use pttp.Prelude.{
  subst, ℕ, ◌*◌, ◌^◌, ◌≤◌, ◌<◌, ◌≡◌, refl, arith, List, [], ◌∷◌, length, get_elem?, Option, none,
  some, ◌&&◌, ◌==◌, if◌then◌else◌, Option-cases, Bool-cases, inl, inr, >>=-eq-some,
}
use pttp.Bytes.{Bytes, update_at}
use pttp.Maps.{Map, member, lookup}
use pttp.Ledger.{Transaction}
use pttp.Chain.{BlockChain}
use pttp.Merkle.{hash_size}
use pttp.Process
use pttp.Process.{Credit, check_all, process}
use pttp.Ledger.Header.{hard_hash}
use pttp.Peers.{
  BloomSet, Req, tx_set_hash, utxo_set_hash, block_range, Content, hello, welcome, get_peers,
  ip_list, ok, reject, transaction, block, text, req_set, req_set_filter, set_filter, Libs, Node,
}
use pttp.Peers.Serving.{
  filter_all, serve_text, serve_block, serve_transaction, serve_set, serve_set_filter, answer,
  serve,
}
use pttp.Peers.Filters.{filter_all-Carries}
use pttp.Peers.Requests.{envelope, AreKept}
use pttp.Peers.Faults.{bloom_of-enough, lacking-total}

-- The node has the transactions of the set, if it has the set.
abbrev pub HasSet : Map Transaction → Option (List Bytes) → Type 0
HasSet txs none = Unit
HasSet txs (some hashes) = AreKept txs hashes

abbrev pub IsReady : Node → Req → Type 0
IsReady q (tx_set_hash target) = HasSet q.block_chain.txs (lookup target q.block_chain.hash_sets)
IsReady q (utxo_set_hash hash) = Unit
IsReady q (block_range from to) = Unit

-- What a message is not to have wrong: the credit set of a transaction can be read, and the filter of a request
-- for a set has the bytes for its hits, whose number is an `int`.
abbrev pub IsServable : Libs → Node → Content → Type 0
IsServable libs q (transaction tx) =
    (cs : List Credit) × (libs.wire.read_credits tx.credit_set ≡ some cs)
IsServable libs q (req_set req b) = (b.p ≤ 8 * length b.payload) × (b.p < 2 ^ 31) × IsReady q req
IsServable libs q _ = Unit

-- Only the node's chain matters to what it can serve.
IsReady-same :
    (q q' : Node) (req : Req) → q.block_chain ≡ q'.block_chain → IsReady q req → IsReady q' req
IsReady-same q q' (tx_set_hash target) e ready =
    subst (λ (c : BlockChain). HasSet c.txs (lookup target c.hash_sets)) e ready
IsReady-same q q' (utxo_set_hash hash) e ready = tt
IsReady-same q q' (block_range from to) e ready = tt

pub IsServable-same :
    (libs : Libs) (q q' : Node) (content : Content)
    → q.block_chain ≡ q'.block_chain
    → IsServable libs q content
    → IsServable libs q' content
IsServable-same libs q q' (req_set req b) e (room, small, ready) =
    (room, small, IsReady-same q q' req e ready)
IsServable-same libs q q' (transaction tx) e good = good
IsServable-same libs q q' (hello ip) e good = tt
IsServable-same libs q q' get_peers e good = tt
IsServable-same libs q q' (text line) e good = tt
IsServable-same libs q q' welcome e good = tt
IsServable-same libs q q' (ip_list addrs) e good = tt
IsServable-same libs q q' ok e good = tt
IsServable-same libs q q' reject e good = tt
IsServable-same libs q q' (Content.set hashes) e good = tt
IsServable-same libs q q' (set_filter n b) e good = tt
IsServable-same libs q q' (block b) e good = tt
IsServable-same libs q q' (req_set_filter req) e good = tt

-- The password hash has its 32 bytes.
abbrev pub IsFull : Libs → Type 0
IsFull libs = (m salt : Bytes) → length (libs.pwhash m salt) ≡ 32

two_bytes :
    (h : Bytes) → length h ≡ 32 → (a b : ℕ) × (get_elem? h 0 ≡ some a) × (get_elem? h 1 ≡ some b)
two_bytes [] e = absurd (omega (arith, e))
two_bytes (a ∷ []) e = absurd (omega (arith, e))
two_bytes (a ∷ b ∷ h) e = (a, b, refl, refl)

serve_block-total :
    (libs : Libs) (m : Bytes) → IsFull libs → (c : Content) × (serve_block libs m ≡ some c)
unfolding serve_block hard_hash
serve_block-total libs m full =
    let (a, b, first, second) = two_bytes (hard_hash libs.hasher libs.pwhash m) (full m _) in
    (if a == 0 && b == 0 then ok else reject, rw (first, second) refl)

serve_transaction-total :
    (libs : Libs) (tx : Process.Transaction) (cs : List Credit)
    → libs.wire.read_credits tx.credit_set ≡ some cs
    → (c : Content) × (serve_transaction libs tx ≡ some c)
unfolding serve_transaction process
serve_transaction-total libs tx cs found = rw found (_, refl)

serve_set_filter-total :
    (libs : Libs) (key : Bytes) (q : Node) → (c : Content) × (serve_set_filter libs key q ≡ some c)
unfolding serve_set_filter
serve_set_filter-total libs key q =
    let (b, made, size, carries) = filter_all-Carries libs key q.full_set in
    let g = >>=-eq-some (filter_all libs key q.full_set) _ made in
    (set_filter (length q.full_set) b, rw (g.1, g.2) refl)

serve_set-total :
    (libs : Libs) (req : Req) (b : BloomSet) (q : Node)
    → b.p ≤ 8 * length b.payload
    → b.p < 2 ^ 31
    → IsReady q req
    → (c : Content) × (serve_set libs req b q ≡ some c)
unfolding serve_set
serve_set-total libs (utxo_set_hash hash) b q room small ready =
    let (f, made, size, sized) = bloom_of-enough libs b room in rw made (_, refl)
serve_set-total libs (block_range from to) b q room small ready =
    let (f, made, size, sized) = bloom_of-enough libs b room in rw made (_, refl)
serve_set-total libs (tx_set_hash target) b q room small ready =
    let (f, made, size, sized) = bloom_of-enough libs b room in
    elim (Option-cases (lookup target q.block_chain.hash_sets)) [
      | inl gone ↦ (reject, rw (made, gone) refl)
      | inr (hashes, there) ↦
          let kept : AreKept q.block_chain.txs hashes = rw there at ready in
          let (bs, ran) =
            lacking-total libs q.block_chain.txs f hashes (omega (arith, small, size)) sized kept in
          (Content.set bs, rw (made, there, ran) refl)
    ]

-- An answer beside an unchanged node.
AnswersTo : Libs → Bytes → Bytes → Content → Node → Type 0
AnswersTo libs key m content q =
    (response : Content) × (q' : Node) × (answer libs key m content q ≡ some (response, q'))
    × (q'.block_chain ≡ q.block_chain)

serve_text-block_chain :
    (libs : Libs) (m : Bytes) (q : Node) → (serve_text libs m q).block_chain ≡ q.block_chain
unfolding serve_text
serve_text-block_chain libs m q =
    elim (Bool-cases (member (libs.hasher.digest hash_size m) q.seen)) [
      | inl e ↦ rw (e, serve_text) refl
      | inr e ↦ rw (e, serve_text) refl
    ]

answer-total :
    (libs : Libs) (key m : Bytes) (content : Content) (q : Node)
    → IsFull libs
    → IsServable libs q content
    → AnswersTo libs key m content q
unfolding answer AnswersTo
answer-total libs key m (hello ip) q full good = (_, _, refl, refl)
answer-total libs key m get_peers q full good = (_, _, refl, refl)
answer-total libs key m (text line) q full good = (_, _, refl, serve_text-block_chain libs m q)
answer-total libs key m welcome q full good = (_, _, refl, refl)
answer-total libs key m (ip_list addrs) q full good = (_, _, refl, refl)
answer-total libs key m ok q full good = (_, _, refl, refl)
answer-total libs key m reject q full good = (_, _, refl, refl)
answer-total libs key m (Content.set hashes) q full good = (_, _, refl, refl)
answer-total libs key m (set_filter size b) q full good = (_, _, refl, refl)
answer-total libs key m (block b) q full good =
    let (c, ran) = serve_block-total libs m full in (c, q, rw ran refl, refl)
answer-total libs key m (transaction tx) q full (cs, found) =
    let (c, ran) = serve_transaction-total libs tx cs found in (c, q, rw ran refl, refl)
answer-total libs key m (req_set_filter req) q full good =
    let (c, ran) = serve_set_filter-total libs key q in (c, q, rw ran refl, refl)
answer-total libs key m (req_set req b) q full (room, small, ready) =
    let (c, ran) = serve_set-total libs req b q room small ready in (c, q, rw ran refl, refl)

-- Where the password hash has 32 bytes, a message that can be read is answered, and the chain is left as it is,
-- provided that it is servable.
pub serve-total :
    (libs : Libs) (sender key m : Bytes) (content : Content) (q : Node)
    → IsFull libs
    → libs.messages.read m ≡ some content
    → IsServable libs q content
    → (response : Content) × (q' : Node) × (serve libs key (envelope sender m) q
        ≡ some (envelope sender (libs.messages.write response), q'))
      × (q'.block_chain ≡ q.block_chain)
unfolding serve update_at AnswersTo
serve-total libs sender key m content q full read good =
    let (response, q', ran, same) = answer-total libs key m content q full good in
    (response, q', rw (read, ran) refl, same)
