-- ===== src/Peers/Examples/Mining.antt =====
-- A round of `mine` with one connection.
use pttp.Prelude.{◌≡◌, refl, arith, [], ◌∷◌, get_elem?, some}
use pttp.Gtd.{Task, TaskType, rank, Gtd, poll}
use pttp.Ledger.Header.{hard_hash}
use pttp.Peers.{Connection, Node}
use pttp.Peers.Managing.{ask}
use pttp.Peers.Mining.{mined, mine, mine-ask}
use pttp.Peers.Examples.{told}
use pttp.Samples.Blocks.{sample_blocks}
use pttp.Samples.Peers.{sample_libs}

-- A text waits to be sent.
abbrev waiting : Connection
waiting = record {
  gtd = record { tasks = record { kind = TaskType.send; payload = 8 ∷ []; time = 0 } ∷ [] };
  ip = 2 ∷ [];
}

abbrev miner : Node
miner = record told { connections = waiting ∷ [] }

found_zero :
    get_elem? (hard_hash sample_libs.hasher sample_libs.pwhash (mined sample_blocks 5 (7 ∷ []))) 0
    ≡ some 0
unfolding hard_hash mined
found_zero = refl

mine-ask_example :
    (node' : Node) × (con' : Connection) × (g' : Gtd) × (task : Task) × (mine sample_libs
        sample_blocks 5
        (7 ∷ [])
        miner
      ≡ some node')
    × (get_elem? node'.connections 0 ≡ some con')
    × (poll 1 con'.gtd ≡ (some task, g'))
    × (ask sample_libs (5 ∷ []) task node' ≡ some (some (mined sample_blocks 5 (7 ∷ []))))
unfolding rank
mine-ask_example =
    mine-ask sample_libs sample_blocks 5 (7 ∷ []) (5 ∷ []) miner 1 0 waiting found_zero refl
      (omega arith) (omega arith, tt)
