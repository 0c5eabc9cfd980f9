-- ===== src/Peers/Mining.antt =====
-- bin/p2p.cc, `mine`, whose thread `main` does not start; and `BlockChain::add_block_if_ok`.
use pttp.Prelude.{
  ℕ, ◌<◌, ◌≡◌, refl, [], get_elem?, Option, none, some, Bool, false, ◌==◌, if◌then◌else◌, ◌>>=◌,
}
use pttp.Bytes.{Bytes}
use pttp.Gtd.{Task, TaskType, Gtd, poll}
use pttp.Gtd.Priority.{AreLower, priority, poll-add_first}
use pttp.Merkle.{GenericHasher}
use pttp.Ledger.Header.{BlockWire, BlockHeader, hard_hash, calculate_hash}
use pttp.Peers.{Libs, Connection, Node, add_to, add_to_all}
use pttp.Peers.Managing.{ask}
use pttp.Peers.Flooding.{get_elem?-add_to_all}

-- The block of a round, from the clock's reading and the 32 drawn bytes; its hashes are left empty.
unfoldable pub mined : BlockWire → ℕ → Bytes → Bytes
mined blocks now_ms rnd =
    blocks.write_block
      (record { prev_hash = []; transaction_hash = []; utxo_hash = []; nonce = rnd; time = now_ms })

-- One round of the loop of `mine`.
unfoldable pub mine : Libs → BlockWire → ℕ → Bytes → Node → Option Node
unfolding mined
mine libs blocks now_ms rnd node =
    let b = mined blocks now_ms rnd in
    let found = record node {
      connections =
          add_to_all (record { kind = TaskType.send_priority; payload = b; time = 0 })
            node.connections;
    } in
    get_elem? (hard_hash libs.hasher libs.pwhash b) 0 >>= λ first.
    some (if first == 0 then found else node)

-- `add_block_if_ok`, which ends without a result where it does not return false.
unfoldable pub add_block_if_ok :
    GenericHasher → (Bytes → Bytes → Bytes) → BlockWire → BlockHeader → Option Bool
add_block_if_ok hasher pwhash blocks header =
    get_elem? (calculate_hash blocks hasher pwhash header) 0 >>= λ first.
    if first == 0 then none else some false

module _ (libs : Libs) (blocks : BlockWire) (now_ms : ℕ) (rnd : Bytes) (node : Node) where
  -- The node after a round that has found a block.
  abbrev pub with_block : Node
  with_block = record node {
    connections = add_to_all (priority (mined blocks now_ms rnd)) node.connections;
  }

  mine_found :
      get_elem? (hard_hash libs.hasher libs.pwhash (mined blocks now_ms rnd)) 0 ≡ some 0
      → mine libs blocks now_ms rnd node ≡ some with_block
  unfolding mine
  mine_found hashed = rw hashed refl

-- A round of `mine` whose block has a hash that starts with a zero adds the block to the queue of every
-- connection. Where no other task of the highest priority waits in the queue of one, the next task that its thread
-- takes, at any clock's reading but 0, makes it send the block's bytes as they are.
pub mine-ask :
    (libs : Libs) (blocks : BlockWire) (now_ms : ℕ) (rnd key : Bytes) (node : Node) (now i : ℕ)
    (con : Connection)
    → get_elem? (hard_hash libs.hasher libs.pwhash (mined blocks now_ms rnd)) 0 ≡ some 0
    → get_elem? node.connections i ≡ some con
    → 0 < now
    → AreLower (Gtd.tasks con.gtd)
    → (node' : Node) × (con' : Connection) × (g' : Gtd) × (task : Task) × (mine libs blocks now_ms
          rnd node
        ≡ some node')
      × (get_elem? node'.connections i ≡ some con')
      × (poll now con'.gtd ≡ (some task, g'))
      × (ask libs key task node' ≡ some (some (mined blocks now_ms rnd)))
unfolding ask add_to
mine-ask libs blocks now_ms rnd key node now i con hashed there pos lower =
    let b = mined blocks now_ms rnd in
    let (g', taken) = poll-add_first now b con.gtd pos lower in
    (
      with_block libs blocks now_ms rnd node,
      add_to (priority b) con,
      g',
      priority b,
      mine_found libs blocks now_ms rnd node hashed,
      get_elem?-add_to_all (priority b) node.connections i con there,
      taken,
      refl,
    )
