-- ===== src/Peers/Gossip.antt =====
-- bin/p2p.cc: how addresses go from peer to peer.
use pttp.Prelude.{◌≡◌, refl, arith, List, [], ◌∷◌, Option, some, get_elem?, ◌||◌, ◌>>=◌}
use pttp.Bytes.{Bytes, equal, update_at}
use pttp.Maps.{member, include}
use pttp.Maps.Laws.{member-include}
use pttp.Gtd.{TaskType}
use pttp.Peers.{hello, get_peers, ip_list, Libs, Node, include_all, task_with}
use pttp.Peers.Serving.{answer, serve}
use pttp.Peers.Managing.{ask, keep_ips, take_reply}
use pttp.Peers.Requests.{envelope}

member-include_all :
    (k : Bytes) (xs ys : List Bytes) → member k (include_all xs ys) ≡ (member k xs || member k ys)
unfolding include_all member
member-include_all k [] ys = refl
member-include_all k (x ∷ xs) ys =
    rw (member-include_all k xs (include x ys), member-include k x ys) (ground arith)

-- `p` asks `q` on a connection, by the task; `q` serves it, and `p` takes the reply.
abbrev pub converse : Libs → Bytes → Bytes → TaskType → Node → Node → Option (Node × Node)
converse libs sender key kind p q = ask libs key (task_with kind []) p >>= λ sent. sent >>= λ m.
    serve libs key (envelope sender m) q >>= λ r. get_elem? r.0 2 >>= λ reply.
    take_reply libs 0 (task_with kind []) reply p >>= λ p'. some (p', r.1)

-- When a node asks a peer for addresses, it then knows those that it knew and those that the peer knew, and no
-- others, and the peer has not changed.
pub converse-req_ips :
    (libs : Libs) (sender key : Bytes) (p q : Node)
    → (p' : Node) × (converse libs sender key TaskType.req_ips p q ≡ some (p', q))
      × (p' ≡ record p { ips = p'.ips })
      × ((k : Bytes) → member k p'.ips ≡ (member k q.ips || member k p.ips))
unfolding ask serve answer update_at take_reply keep_ips
converse-req_ips libs sender key p q = (
  record p { ips = include_all q.ips p.ips },
  rw (libs.messages.read-write get_peers tt, libs.messages.read-write (ip_list q.ips) tt) refl,
  refl,
  (λ k. member-include_all k q.ips p.ips),
)

-- When it says hello, the peer then knows its address too, and nothing else changes.
pub converse-hello :
    (libs : Libs) (sender key : Bytes) (p q : Node)
    → (q' : Node) × (converse libs sender key TaskType.hello p q ≡ some (p, q'))
      × (q' ≡ record q { ips = q'.ips })
      × ((k : Bytes) → member k q'.ips ≡ (equal k p.my_ip || member k q.ips))
unfolding ask serve answer update_at take_reply
converse-hello libs sender key p q = (
  record q { ips = include p.my_ip q.ips },
  rw (libs.messages.read-write (hello p.my_ip) tt) refl,
  refl,
  (λ k. member-include k p.my_ip q.ips),
)
