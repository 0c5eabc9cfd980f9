-- ===== src/Peers/Examples/Relaying.antt =====
-- A line that is typed at a node with one connection, and a peer that has another.
use pttp.Prelude.{◌≡◌, refl, arith, [], ◌∷◌, some, true, false}
use pttp.Bytes.{Bytes}
use pttp.Maps.{member}
use pttp.Merkle.{hash_size}
use pttp.Gtd.{TaskType}
use pttp.Peers.{ok, Connection, Node, read_line}
use pttp.Peers.Serving.{serve}
use pttp.Peers.Requests.{envelope}
use pttp.Peers.Relaying.{Sends, IsPatient, typed_text, read_line-serve}
use pttp.Peers.Examples.{told}
use pttp.Samples.Peers.{sample_libs, sample_messages}

-- Two other messages wait to be sent.
abbrev busy : Connection
busy = record {
  gtd = record {
    tasks =
        record { kind = TaskType.send_priority; payload = 8 ∷ []; time = 0 }
        ∷ record { kind = TaskType.hello; payload = []; time = 0 }
        ∷ [];
  };
  ip = 2 ∷ [];
}

abbrev joined : Node
joined = record told { connections = busy ∷ [] }

abbrev go_on : Bytes
go_on = 103 ∷ 111 ∷ []

new_text :
    member (sample_libs.hasher.digest hash_size (typed_text sample_libs go_on)) joined.seen ≡ false
unfolding member
new_text = refl

joined-IsPatient : IsPatient joined 0 (1 ∷ 1 ∷ 2 ∷ [])
joined-IsPatient = (busy, refl, omega arith, (omega arith, (omega arith, (omega arith, tt))))

read_line-serve_example :
    (q' : Node) × Sends sample_libs
      (read_line sample_libs go_on joined)
      0
      (1 ∷ 1 ∷ 2 ∷ [])
      (typed_text sample_libs go_on)
    × (serve sample_libs (5 ∷ []) (envelope (6 ∷ []) (typed_text sample_libs go_on)) joined
        ≡ some (envelope (6 ∷ []) (sample_messages.write ok), q'))
    × (member (sample_libs.hasher.digest hash_size (typed_text sample_libs go_on)) q'.seen ≡ true)
    × Sends sample_libs q' 0 (1 ∷ 1 ∷ 2 ∷ []) (typed_text sample_libs go_on)
read_line-serve_example =
    read_line-serve sample_libs go_on (6 ∷ []) (5 ∷ []) joined joined 0 0 (1 ∷ 1 ∷ 2 ∷ [])
      (1 ∷ 1 ∷ 2 ∷ []) joined-IsPatient joined-IsPatient new_text
