-- ===== src/Peers/Examples.antt =====
-- The theorems on peers at small nodes.
mod Answering
mod Mining
mod Relaying
use mathlib.Core.List.Perm
use pttp.Prelude.{
  replicate, ◌%◌, none, ◌≡◌, refl, arith, List, [], ◌∷◌, length, set, some, Bool, true, ◌||◌,
}
use pttp.Prelude.Int.{pos}
use pttp.Bytes.{Bytes, equal}
use pttp.Maps.{member, lookup, include, before}
use pttp.Gtd.{Task, TaskType, Gtd}
use pttp.Gtd
use pttp.Ledger.{Transaction}
use pttp.Chain
use pttp.Chain.{BlockChain}
use pttp.Peers.{Content, req_set, Libs, ok, text, Node, connection, main, task_with, read_line}
use pttp.Peers.Serving.{serve, serve_text}
use pttp.Peers.Managing.{plan_first, connect_new, manage, ask}
use pttp.Peers.Expanding.{opened, connect_new-opened}
use pttp.Peers.Steps.{Run, here, next, planned, managed, typed}
use pttp.Peers.Quiet.{Grows}
use pttp.Peers.Connections.{IsLinked, Run-IsLinked}
use pttp.Peers.Flooding.{IsText, serve-text, serve_once}
use pttp.Peers.Requests.{envelope, AreKept, AnswersWith, ask-serve_set}
use pttp.Peers.Gossip.{converse, converse-req_ips}
use pttp.Peers.Faults.{serve-short_filter}
use pttp.Peers.Answering.{IsServable, IsFull, serve-total}
use pttp.Samples.{sum}
use pttp.Samples.Peers.{sample_libs, sample_messages}

abbrev all_good : Bytes → Bool
all_good addr = true

abbrev as_is : List Bytes → List Bytes
as_is addrs = addrs

-- A node that was told of two addresses, 2 and 3, and has drawn one element.
abbrev told : Node
told = record {
  connections = [];
  my_ip = 1 ∷ [];
  ips = (2 ∷ []) ∷ (3 ∷ []) ∷ [];
  seen = [];
  full_set = (9 ∷ 9 ∷ []) ∷ [];
  manager_gtd = record { tasks = [] };
  block_chain = Chain.new;
  reconsiler = record { hash_reconsilers = [] };
}

main-told : main ((0 ∷ []) ∷ (1 ∷ []) ∷ (3 ∷ []) ∷ (2 ∷ []) ∷ []) ((9 ∷ 9 ∷ []) ∷ []) ≡ some told
unfolding main include equal before
main-told = refl

abbrev late : Task
late = record { kind = TaskType.req_ips; payload = []; time = 4 }

abbrev expanding : Task
expanding = record { kind = TaskType.expand_connection; payload = []; time = 1 }

-- After the first round both connections go to the first of the addresses.
abbrev linked : Node
linked = record told {
  connections = connection (2 ∷ []) ∷ connection (2 ∷ []) ∷ [];
  manager_gtd = record {
    tasks = record { kind = TaskType.expand_connection; payload = []; time = 22 } ∷ late ∷ [];
  };
}

expanded :
    manage sample_libs all_good as_is 2000 expanding
      (record (plan_first 0 told) { manager_gtd = record { tasks = late ∷ [] } })
    ≡ some linked
unfolding manage plan_first member include equal Gtd.add_later
expanded = refl

polled_first :
    Gtd.poll 2 (plan_first 0 told).manager_gtd ≡ (some expanding, record { tasks = late ∷ [] })
unfolding Gtd.poll plan_first Gtd.add_later Gtd.greater
polled_first = refl

linked_reached : Run sample_libs told linked
linked_reached = next (next here (planned 0)) (
    managed all_good as_is 2 2000 expanding (record { tasks = late ∷ [] })
      (λ addrs. Perm.refl addrs) polled_first expanded)

Run-IsLinked_example : IsLinked linked × Grows told linked
Run-IsLinked_example =
    Run-IsLinked sample_libs ((0 ∷ []) ∷ (1 ∷ []) ∷ (3 ∷ []) ∷ (2 ∷ []) ∷ []) ((9 ∷ 9 ∷ []) ∷ [])
      told linked main-told linked_reached

linked_is : IsLinked linked
unfolding member equal connection
linked_is = (omega arith, (refl, (refl, tt)))

connect_new-opened_example :
    connect_new all_good 2 ((1 ∷ []) ∷ []) ((1 ∷ []) ∷ (2 ∷ []) ∷ (3 ∷ []) ∷ []) []
    ≡ opened all_good 2 ((1 ∷ []) ∷ []) ((1 ∷ []) ∷ (2 ∷ []) ∷ (3 ∷ []) ∷ []) []
connect_new-opened_example =
    connect_new-opened all_good 2 ((1 ∷ []) ∷ []) ((1 ∷ []) ∷ (2 ∷ []) ∷ (3 ∷ []) ∷ []) []

abbrev syncing : Task
syncing = record late { kind = TaskType.sync_hashset }

converse-req_ips_example :
    (p' : Node) × (converse sample_libs (6 ∷ []) (5 ∷ []) TaskType.req_ips linked told
      ≡ some (p', told))
    × (p' ≡ record linked { ips = p'.ips })
    × ((k : Bytes) → member k p'.ips ≡ (member k told.ips || member k linked.ips))
converse-req_ips_example = converse-req_ips sample_libs (6 ∷ []) (5 ∷ []) linked told

-- A peer with one set of two transactions.
abbrev one_tx : Transaction
one_tx = record { credits = record { account = 4 ∷ []; amount = pos 6 } ∷ []; witnesses = [] ∷ [] }

abbrev holder : Node
holder = record told {
  block_chain = record Chain.new {
    txs = (9 ∷ 9 ∷ [], one_tx) ∷ (9 ∷ 200 ∷ [], one_tx) ∷ [];
    hash_sets = (8 ∷ [], (9 ∷ 9 ∷ []) ∷ (9 ∷ 200 ∷ []) ∷ []) ∷ [];
  };
}

holder_keeps : AreKept holder.block_chain.txs ((9 ∷ 9 ∷ []) ∷ (9 ∷ 200 ∷ []) ∷ [])
unfolding lookup equal
holder_keeps = ((one_tx, refl), ((one_tx, refl), tt))

holder_has :
    lookup (8 ∷ []) holder.block_chain.hash_sets ≡ some ((9 ∷ 9 ∷ []) ∷ (9 ∷ 200 ∷ []) ∷ [])
unfolding lookup equal
holder_has = refl

ask-serve_set_example :
    (m : Bytes) × (ask sample_libs (5 ∷ []) (task_with TaskType.req_hashset (8 ∷ [])) told
      ≡ some (some m))
    × AnswersWith sample_libs (8 ∷ []) ((9 ∷ 9 ∷ []) ∷ (9 ∷ 200 ∷ []) ∷ []) told holder (5 ∷ []) m
ask-serve_set_example =
    ask-serve_set sample_libs (8 ∷ []) (5 ∷ []) ((9 ∷ 9 ∷ []) ∷ (9 ∷ 200 ∷ []) ∷ []) told holder
      holder_has holder_keeps

-- The same peer, with two elements of its set.
abbrev full_holder : Node
full_holder = record holder { full_set = (9 ∷ []) ∷ (9 ∷ 200 ∷ []) ∷ [] }

abbrev greeting : Bytes
greeting = sample_messages.write (text (72 ∷ 105 ∷ []))

abbrev greeted : Node
greeted = serve_text sample_libs greeting linked

greeting_is : IsText sample_libs (envelope (6 ∷ []) greeting) greeting
greeting_is = (refl, ((72 ∷ 105 ∷ []), refl))

-- Between the two deliveries the node's user types a line.
serve_once_example :
    serve sample_libs
      (5 ∷ [])
      (envelope (7 ∷ []) greeting)
      (read_line sample_libs (103 ∷ 111 ∷ []) greeted)
    ≡ some (
      set (envelope (7 ∷ []) greeting) 2 (sample_messages.write ok),
      read_line sample_libs (103 ∷ 111 ∷ []) greeted,
    )
serve_once_example =
    serve_once sample_libs (5 ∷ []) (5 ∷ []) (envelope (6 ∷ []) greeting)
      (envelope (7 ∷ []) greeting) (set (envelope (6 ∷ []) greeting) 2 (sample_messages.write ok))
      greeting linked greeted (read_line sample_libs (103 ∷ 111 ∷ []) greeted) linked_is greeting_is
      (serve-text sample_libs (5 ∷ []) (envelope (6 ∷ []) greeting) greeting linked greeting_is)
      (next here (typed (103 ∷ 111 ∷ []))) refl
