-- ===== src/Peers/Managing.antt =====
-- bin/p2p.cc, `manage` and `manage_connection`: what the node's own tasks do.
use pttp.Prelude.{
  ℕ, zero, suc, ◌-◌, ◌*◌, min, List, [], ◌∷◌, ◌++◌, map, length, Option, none, some, Bool, ◌==◌,
  if◌then◌else◌, ◌>>=◌,
}
use pttp.Bytes.{Bytes}
use pttp.Maps.{member, include}
use pttp.Gtd
use pttp.Gtd.{Task, TaskType, Gtd}
use pttp.Reconsiler.Table.{init_hash, add_filter, check, get_set_or_filter}
use pttp.Peers.{
  BloomSet, tx_set_hash, Content, hello, get_peers, ip_list, req_set, req_set_filter, Libs,
  Connection, connection, Node, include_all, add_to_all, task_with,
}
use pttp.Peers.Serving.{filter_all, bloom_set, bloom_of}

-- `N_CONN`
abbrev pub n_conn : ℕ
n_conn = 8

-- The inner loop of `case EXPAND_CONNECTION`, with the addresses from `ip_idx` on: `new_ip`, and the addresses
-- from `ip_idx` on after it.
unfoldable pub scan : List Bytes → List Bytes → Bytes → Bytes × List Bytes
scan current [] new_ip = (new_ip, [])
scan current (addr ∷ addrs) new_ip =
    let rest = scan current addrs addr in if member addr current then rest else (addr, addr ∷ addrs)

-- The loop around it. A new connection asks ZeroMQ to connect, and throws where it cannot.
unfoldable pub connect_new :
    (Bytes → Bool) → ℕ → List Bytes → List Bytes → List Connection → Option (List Connection)
unfolding scan
connect_new connects zero current addrs cons = some cons
connect_new connects (suc n) current addrs cons =
    let (new_ip, rest) = scan current addrs [] in
    let without = connect_new connects n current rest cons in
    let opened = connect_new connects n current rest (cons ++ (connection new_ip ∷ [])) in
    if length new_ip == 0 then without else if connects new_ip then opened else none

-- `n_new`, the number of connections that the node lacks.
abbrev pub n_new : Node → ℕ
n_new node = min n_conn (length node.ips) - length node.connections

-- `current_ips`
unfoldable pub current_ips : Node → List Bytes
unfolding include_all
current_ips node = include node.my_ip (include_all (map Connection.ip node.connections) [])

-- `case EXPAND_CONNECTION`, up to the next plan; `shuffle` is what `random_shuffle` does.
unfoldable pub expand : (Bytes → Bool) → (List Bytes → List Bytes) → Node → Option Node
unfolding connect_new current_ips
expand connects shuffle node =
    connect_new connects (n_new node) (current_ips node) (shuffle node.ips) node.connections
    >>= λ cons. some (record node { connections = cons })

-- `manager_gtd.add(task, std::chrono::seconds(s))`
unfoldable pub plan : ℕ → ℕ → Task → Node → Node
plan now_ms s task node = record node {
  manager_gtd = Gtd.add_later now_ms (s * 1000) task node.manager_gtd;
}

-- The start of `manage`.
unfoldable pub plan_first : ℕ → Node → Node
unfolding plan
plan_first now_ms node =
    plan now_ms 1 (task_with TaskType.expand_connection [])
      (plan now_ms 4 (task_with TaskType.req_ips []) node)

module _ (libs : Libs) where
  -- `case SYNC_HASHSET`
  unfoldable pub sync_hashset : ℕ → Task → Node → Option Node
  unfolding plan
  sync_hashset now_ms task node =
      let hash = task.payload in
      let reconsiler = init_hash hash now_ms node.reconsiler in
      let node' = record node { reconsiler = reconsiler } in
      let ask = λ (kind : TaskType). record node' {
        connections = add_to_all (task_with kind hash) node.connections;
      } in
      let try_again = get_set_or_filter libs.endings hash reconsiler >>= λ enough. some (
        plan now_ms 1 task
          (if enough then ask TaskType.req_hashset else ask TaskType.req_hashset_filter)) in
      check libs.endings libs.hasher hash reconsiler >>= λ done.
      if done then some node' else try_again

  -- The `switch` of `manage`, on the task that its queue gave, at the clock's reading.
  unfoldable pub manage : (Bytes → Bool) → (List Bytes → List Bytes) → ℕ → Task → Node → Option Node
  unfolding sync_hashset expand plan
  manage connects shuffle now_ms task node = elim task.kind [
    | TaskType.sync_hashset ↦ sync_hashset now_ms task node
    | TaskType.req_ips ↦ some (
        plan now_ms 10 task (record node {
          connections = add_to_all (task_with TaskType.req_ips []) node.connections;
        }))
    | TaskType.expand_connection ↦
        expand connects shuffle node >>= λ node'. some (plan now_ms 20 task node')
    | TaskType.send_priority ↦ some node
    | TaskType.send ↦ some node
    | TaskType.hello ↦ some node
    | TaskType.sync_utxo ↦ some node
    | TaskType.req_hashset_filter ↦ some node
    | TaskType.req_hashset ↦ some node
  ]

  -- What `manage_connection` sends for a task, if anything. The key is that of a filter it may make.
  unfoldable pub ask : Bytes → Task → Node → Option (Option Bytes)
  unfolding filter_all bloom_set
  ask key task node = elim task.kind [
    | TaskType.hello ↦ some (some (libs.messages.write (hello node.my_ip)))
    | TaskType.send ↦ some (some task.payload)
    | TaskType.send_priority ↦ some (some task.payload)
    | TaskType.req_ips ↦ some (some (libs.messages.write get_peers))
    | TaskType.req_hashset_filter ↦
        some (some (libs.messages.write (req_set_filter (tx_set_hash task.payload))))
    | TaskType.req_hashset ↦ filter_all libs key node.full_set >>= λ bloom.
        bloom_set libs bloom >>= λ fields.
        some (some (libs.messages.write (req_set (tx_set_hash task.payload) fields)))
    | TaskType.sync_utxo ↦ some none
    | TaskType.expand_connection ↦ some none
    | TaskType.sync_hashset ↦ some none
  ]

  -- `case REQ_IPS` of `manage_connection`, on the reply.
  unfoldable pub keep_ips : Content → Node → Option Node
  keep_ips (ip_list addrs) node = some (record node { ips = include_all addrs node.ips })
  keep_ips _ node = none

  -- `case REQ_HASHSET_FILTER`, on the reply.
  unfoldable pub keep_filter : ℕ → Bytes → ℕ × BloomSet → Node → Option Node
  keep_filter now_ms hash (n, b) node =
      let added = bloom_of libs b >>= λ bloom.
      some (record node { reconsiler = add_filter hash n bloom now_ms node.reconsiler }) in
      if b.p == 0 then some node else added

  -- What `manage_connection` does with the reply to its message.
  unfoldable pub take_reply : ℕ → Task → Bytes → Node → Option Node
  unfolding keep_ips keep_filter
  take_reply now_ms task result node = elim task.kind [
    | TaskType.req_ips ↦ libs.messages.read result >>= λ content. keep_ips content node
    | TaskType.req_hashset_filter ↦
        libs.messages.read_set_filter result >>= λ r. keep_filter now_ms task.payload r node
    | TaskType.req_hashset ↦ libs.messages.read_set result >>= λ hashset.
        some (record node { full_set = include_all hashset node.full_set })
    | TaskType.hello ↦ some node
    | TaskType.send ↦ some node
    | TaskType.send_priority ↦ some node
    | TaskType.sync_utxo ↦ some node
    | TaskType.expand_connection ↦ some node
    | TaskType.sync_hashset ↦ some node
  ]
