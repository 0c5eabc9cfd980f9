-- ===== src/Peers.antt =====
-- bin/p2p.cc: what the threads of a node share, and the messages of cap/messages.capnp.
-- A run is `none` where the code's behaviour is undefined, an assertion fails, or an exception that nothing
-- catches is thrown.
pub mod Serving
pub mod Managing
pub mod Expanding
pub mod Steps
pub mod Quiet
pub mod Syncing
pub mod Opening
pub mod Connections
pub mod Flooding
pub mod Filters
pub mod Requests
pub mod Gossip
pub mod Faults
pub mod Answering
pub mod Mining
pub mod Relaying
pub mod Rounds
mod Examples
use pttp.Prelude.{
  ℕ, suc, ◌^◌, ◌<◌, ◌≡◌, List, [], ◌∷◌, map, Option, none, some, Bool, false, ◌&&◌, ◌||◌, ◌==◌,
  if◌then◌else◌,
}
use pttp.Bytes.{Bytes}
use pttp.Maps.{include}
use pttp.Bloom.{ShortHasher}
use pttp.Merkle.{GenericHasher}
use pttp.Gtd
use pttp.Gtd.{Task, TaskType, Gtd}
use pttp.Process
use pttp.Process.{Wire, Signer}
use pttp.Ledger.Header.{Block}
use pttp.Chain
use pttp.Chain.{BlockChain}
use pttp.Reconsiler.Table.{Endings, BlockChainReconsiler}

-- `BloomSet`
pub record BloomSet : Type 0 where
  pub p : ℕ
  pub payload : Bytes
  pub hash_key : Bytes

-- The union `req` of `ReqSet` and of `ReqSetFilter`.
pub data Req : Type 0 where
  tx_set_hash utxo_set_hash : Bytes → Req
  block_range : Bytes → Bytes → Req

-- The union `content` of `Message`. The port of a `Hello`, which nothing reads, is left out, as are the fields
-- of a `Welcome`, an `OK` and a `Reject`.
pub data Content : Type 0 where
  hello : Bytes → Content
  welcome get_peers : Content
  ip_list : List Bytes → Content
  ok reject : Content
  transaction : Process.Transaction → Content
  block : Block → Content
  text : Bytes → Content
  req_set : Req → BloomSet → Content
  set : List Bytes → Content
  req_set_filter : Req → Content
  set_filter : ℕ → BloomSet → Content

-- The numbers of a message fit in their fields.
abbrev pub Fits : Content → Type 0
Fits (block b) = b.time < 2 ^ 64
Fits (req_set req b) = b.p < 2 ^ 32
Fits (set_filter n b) = (n < 2 ^ 64) × (b.p < 2 ^ 32)
Fits _ = Unit

-- Cap'n Proto: a message is read back from its bytes. `read_set` and `read_set_filter` read the bytes of
-- whatever message at another type, as `root<Set>()` and `root<SetFilter>()` do.
pub record MessageWire : Type 0 where
  pub write : Content → Bytes
  pub read : Bytes → Option Content
  pub read_set : Bytes → Option (List Bytes)
  pub read_set_filter : Bytes → Option (ℕ × BloomSet)
  pub read-write : (m : Content) → Fits m → read (write m) ≡ some m

-- What the node takes from libsodium and Cap'n Proto.
pub record Libs : Type 0 where
  pub short : ShortHasher
  pub hasher : GenericHasher
  pub pwhash : Bytes → Bytes → Bytes
  pub signer : Signer
  pub wire : Wire
  pub messages : MessageWire
  pub endings : Endings

-- `Connection`, without its socket.
pub record Connection : Type 0 where
  pub gtd : Gtd
  pub ip : Bytes

-- `Connection(std::string addr)`
unfoldable pub connection : Bytes → Connection
connection addr = record { gtd = record { tasks = [] }; ip = addr }

-- The global variables. The strings of `ip_list` are byte vectors: both have the same order.
pub record Node : Type 0 where
  pub connections : List Connection
  pub my_ip : Bytes
  pub ips : List Bytes
  pub seen : List Bytes
  pub full_set : List Bytes
  pub manager_gtd : Gtd
  pub block_chain : BlockChain
  pub reconsiler : BlockChainReconsiler

-- `insert` of each element, in order.
unfoldable pub include_all : List Bytes → List Bytes → List Bytes
include_all [] kept = kept
include_all (x ∷ xs) kept = include_all xs (include x kept)

-- `con->gtd.add(task)`, and `con->gtd(task)`, which calls it, for every connection.
unfoldable pub add_to : Task → Connection → Connection
add_to task con = record con { gtd = Gtd.add task con.gtd }

unfoldable pub add_to_all : Task → List Connection → List Connection
unfolding add_to
add_to_all task [] = []
add_to_all task (con ∷ cons) = add_to task con ∷ add_to_all task cons

-- `Task(type, data)` and `Task{type}`
abbrev pub task_with : TaskType → Bytes → Task
task_with kind payload = record { kind = kind; payload = payload; time = 0 }

-- `main`, up to the start of the threads: its arguments, the program's name first, and the elements that it
-- draws. The first of them is the node's address.
unfoldable pub main : List Bytes → List Bytes → Option Node
unfolding include_all
main [] drawn = none
main (program ∷ []) drawn = none
main (program ∷ con_str ∷ addrs) drawn = some (record {
  connections = [];
  my_ip = con_str;
  ips = include_all addrs [];
  seen = [];
  full_set = include_all drawn [];
  manager_gtd = record { tasks = [] };
  block_chain = Chain.new;
  reconsiler = record { hash_reconsilers = [] };
})

-- `line.find("go") != string::npos`
unfoldable pub contains_go : Bytes → Bool
contains_go [] = false
contains_go (a ∷ []) = false
contains_go (a ∷ b ∷ line) = (a == 103 && b == 111) || contains_go (b ∷ line)

-- One round of the loop of `read_lines`.
unfoldable pub read_line : Libs → Bytes → Node → Node
unfolding contains_go add_to_all
read_line libs line node =
    let sync = Gtd.add (task_with TaskType.sync_hashset []) node.manager_gtd in
    record node {
      manager_gtd = if contains_go line then sync else node.manager_gtd;
      connections =
          add_to_all (task_with TaskType.send (libs.messages.write (text line))) node.connections;
    }
