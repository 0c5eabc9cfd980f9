-- ===== src/Peers/Serving.antt =====
-- bin/p2p.cc, `serve`: the answer to a message.
use pttp.Prelude.{
  List, [], ◌∷◌, length, get_elem?, Option, none, some, ◌&&◌, ◌==◌, if◌then◌else◌, ◌>>=◌,
}
use pttp.Bytes.{Bytes, update_at}
use pttp.Maps.{Map, member, include, lookup}
use pttp.Bloom
use pttp.Bloom.{Bloom, from_bytes, has, put_all}
use pttp.Merkle.{hash_size}
use pttp.Gtd.{TaskType}
use pttp.Process
use pttp.Process.{Wire, Outcome, process}
use pttp.Ledger
use pttp.Ledger.{Transaction}
use pttp.Ledger.Header.{hard_hash}
use pttp.Peers.{
  BloomSet, Req, tx_set_hash, utxo_set_hash, block_range, Content, hello, welcome, get_peers,
  ip_list, ok, reject, transaction, block, text, req_set, req_set_filter, set_filter, Libs, Node,
  add_to_all, task_with,
}

-- A message that the code leaves as it was made: a union that is not set reads as its first member.
abbrev pub unset : Content
unset = hello []

module _ (libs : Libs) where
  -- `Bloom(4999)` with every element of `full_set`; the key is drawn.
  unfoldable pub filter_all : Bytes → List Bytes → Option Bloom
  filter_all key set = put_all libs.short (Bloom.new 4999 key) set

  -- The fields of a `BloomSet` from a filter.
  unfoldable pub bloom_set : Bloom → Option BloomSet
  bloom_set f = Bloom.bytes f >>= λ bloom_bytes.
      some (record { p = f.p; payload = bloom_bytes; hash_key = f.key })

  -- A filter from the fields of a `BloomSet`. A size that no `int` holds needs more bytes than Cap'n Proto reads.
  unfoldable pub bloom_of : BloomSet → Option Bloom
  bloom_of b = from_bytes b.payload b.p b.hash_key

  -- The bytes of those transactions of the set whose hashes the filter has not.
  unfoldable pub lacking : Map Transaction → Bloom → List Bytes → Option (List Bytes)
  lacking txs bloom [] = some []
  lacking txs bloom (s ∷ set) =
      let rest = lacking txs bloom set in
      let sent = lookup s txs >>= λ tx. rest >>= λ bs. some (Ledger.bytes libs.wire tx ∷ bs) in
      has libs.short bloom s >>= λ hit. if hit then rest else sent

  -- `case TEXT`, for the message's bytes.
  unfoldable pub serve_text : Bytes → Node → Node
  serve_text m node =
      let msg_hash = libs.hasher.digest hash_size m in
      if member msg_hash node.seen then node else record node {
        seen = include msg_hash node.seen;
        connections = add_to_all (task_with TaskType.send m) node.connections;
      }

  -- `case BLOCK`
  unfoldable pub serve_block : Bytes → Option Content
  serve_block m =
      let hash = hard_hash libs.hasher libs.pwhash m in
      get_elem? hash 0 >>= λ a.
      get_elem? hash 1 >>= λ b. some (if a == 0 && b == 0 then ok else reject)

  -- `case TRANSACTION`
  unfoldable pub serve_transaction : Process.Transaction → Option Content
  serve_transaction tx =
      process libs.signer libs.wire tx (record { accounts = []; amounts = []; sigs = [] }) >>= λ r.
      some (if r.0 then ok else reject)

  -- `case REQ_SET_FILTER`
  unfoldable pub serve_set_filter : Bytes → Node → Option Content
  unfolding filter_all bloom_set
  serve_set_filter key node = do
    bloom ← filter_all key node.full_set
    fields ← bloom_set bloom
    some (set_filter (length node.full_set) fields)

  -- `case REQ_SET`
  unfoldable pub serve_set : Req → BloomSet → Node → Option Content
  unfolding bloom_of lacking
  serve_set req b node = bloom_of b >>= λ bloom. elim req [
    | tx_set_hash target_hash ↦ elim (lookup target_hash node.block_chain.hash_sets) [
      | none ↦ some reject
      | some hashes ↦ lacking node.block_chain.txs bloom hashes >>= λ bs. some (Content.set bs)
    ]
    | utxo_set_hash hash ↦ some unset
    | block_range from to ↦ some unset
  ]

  -- The `switch` of `serve`, on the content that the bytes `m` hold. The key is that of a filter it may make.
  unfoldable pub answer : Bytes → Bytes → Content → Node → Option (Content × Node)
  unfolding serve_text serve_block serve_transaction serve_set_filter serve_set
  answer key m (hello ip) node = some (welcome, record node { ips = include ip node.ips })
  answer key m get_peers node = some (ip_list node.ips, node)
  answer key m (block b) node = serve_block m >>= λ response. some (response, node)
  answer key m (transaction tx) node = serve_transaction tx >>= λ response. some (response, node)
  answer key m (text line) node = some (ok, serve_text m node)
  answer key m (req_set_filter req) node =
      serve_set_filter key node >>= λ response. some (response, node)
  answer key m (req_set req b) node = serve_set req b node >>= λ response. some (response, node)
  answer key m welcome node = some (unset, node)
  answer key m (ip_list addrs) node = some (unset, node)
  answer key m ok node = some (unset, node)
  answer key m reject node = some (unset, node)
  answer key m (Content.set hashes) node = some (unset, node)
  answer key m (set_filter n b) node = some (unset, node)

  -- One round of the loop of `serve`, on the parts of a message: the parts that it sends back.
  unfoldable pub serve : Bytes → List Bytes → Node → Option (List Bytes × Node)
  unfolding answer
  serve key msg node = do
    m ← get_elem? msg 2
    content ← libs.messages.read m
    (response, node') ← answer key m content node
    msg' ← update_at msg 2 (λ _. libs.messages.write response)
    some (msg', node')
