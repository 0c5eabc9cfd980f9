-- ===== src/Peers/Quiet.antt =====
-- bin/p2p.cc: what the steps of a node leave as it is, and what they only add to.
use pttp.Prelude.{
  ℕ, zero, suc, ◌≡◌, refl, sym, ap, subst, List, [], ◌∷◌, map, set, get_elem?, Option, none, some,
  true, ◌==◌, Bool-cases, inl, inr, of_some, >>=-eq-some, ◌>>=◌, arith,
}
use pttp.Bytes.{Bytes, update_at}
use pttp.Maps.{member, include}
use pttp.Maps.Laws.{member-include}
use pttp.Merkle.{hash_size}
use pttp.Gtd.{Task, TaskType}
use pttp.Peers.{
  BloomSet, Content, hello, welcome, get_peers, ip_list, ok, reject, transaction, block, text,
  req_set, req_set_filter, set_filter, Libs, Connection, Node, include_all, add_to, add_to_all,
  read_line,
}
use pttp.Peers.Serving.{
  serve_text, serve_block, serve_transaction, serve_set_filter, serve_set, answer, serve, bloom_of,
}
use pttp.Peers.Managing.{plan_first, keep_ips, keep_filter, take_reply}

abbrev pub Subset : List Bytes → List Bytes → Type 0
Subset xs ys = (k : Bytes) → member k xs ≡ true → member k ys ≡ true

abbrev pub addresses : List Connection → List Bytes
addresses cons = map Connection.ip cons

-- No known address and no text that was seen is lost.
abbrev pub Grows : Node → Node → Type 0
Grows n n' = Subset n.ips n'.ips × Subset n.seen n'.seen

-- Nor does the step open or close a connection.
abbrev pub Quiet : Node → Node → Type 0
Quiet n n' = (addresses n'.connections ≡ addresses n.connections) × Grows n n'

same : (xs : List Bytes) → Subset xs xs
same xs k h = h

pub Quiet-refl : (n : Node) → Quiet n n
Quiet-refl n = (refl, (same n.ips, same n.seen))

pub Subset-include : (x : Bytes) (xs : List Bytes) → Subset xs (include x xs)
Subset-include x xs k h = rw (member-include k x xs) (ground (arith, h))

pub Subset-include_all : (xs ys : List Bytes) → Subset ys (include_all xs ys)
unfolding include_all
Subset-include_all [] ys k h = h
Subset-include_all (x ∷ xs) ys k h =
    Subset-include_all xs (include x ys) k (Subset-include x ys k h)

pub addresses-add_to_all :
    (task : Task) (cons : List Connection) → addresses (add_to_all task cons) ≡ addresses cons
unfolding add_to_all add_to
addresses-add_to_all task [] = refl
addresses-add_to_all task (con ∷ cons) = ap (λ t. con.ip ∷ t) (addresses-add_to_all task cons)

pub addresses-set :
    (cons : List Connection) (i : ℕ) (con con' : Connection)
    → get_elem? cons i ≡ some con
    → con'.ip ≡ con.ip
    → addresses (set cons i con') ≡ addresses cons
addresses-set [] i con con' there e = refl
addresses-set (c ∷ cons) zero con con' there e =
    let found : c ≡ con = cc there in rw (e, found) refl
addresses-set (c ∷ cons) (suc i) con con' there e =
    ap (λ t. c.ip ∷ t) (addresses-set cons i con con' there e)

module _ (libs : Libs) where
  serve_text-Quiet : (m : Bytes) (n : Node) → Quiet n (serve_text libs m n)
  unfolding serve_text
  serve_text-Quiet m n =
      let hash = libs.hasher.digest hash_size m in
      elim (Bool-cases (member hash n.seen)) [
        | inl e ↦ rw e (Quiet-refl n)
        | inr e ↦
            rw e (addresses-add_to_all _ n.connections, (same n.ips, Subset-include hash n.seen))
      ]

  -- A response beside an unchanged node.
  kept :
      (o : Option Content) (n : Node) (r : Content × Node)
      → (o >>= λ c. some (c, n)) ≡ some r
      → r.1 ≡ n
  kept none n r h = absurd (cc h)
  kept (some c) n r h = sym (ap (λ (p : Content × Node). p.1) (of_some h))

  Quiet-kept :
      (o : Option Content) (n : Node) (r : Content × Node)
      → (o >>= λ c. some (c, n)) ≡ some r
      → Quiet n r.1
  Quiet-kept o n r h = subst (Quiet n) (sym (kept o n r h)) (Quiet-refl n)

  Quiet-some : (n : Node) (p r : Content × Node) → some p ≡ some r → Quiet n p.1 → Quiet n r.1
  Quiet-some n p r h q = subst (λ t. Quiet n t.1) (of_some h) q

  answer-Quiet :
      (key m : Bytes) (content : Content) (n : Node) (r : Content × Node)
      → answer libs key m content n ≡ some r
      → Quiet n r.1
  unfolding answer
  answer-Quiet key m (hello ip) n r h =
      Quiet-some n _ r h (refl, (Subset-include ip n.ips, same n.seen))
  answer-Quiet key m (block b) n r h = Quiet-kept (serve_block libs m) n r h
  answer-Quiet key m (transaction tx) n r h = Quiet-kept (serve_transaction libs tx) n r h
  answer-Quiet key m (text line) n r h = Quiet-some n _ r h (serve_text-Quiet m n)
  answer-Quiet key m (req_set_filter req) n r h = Quiet-kept (serve_set_filter libs key n) n r h
  answer-Quiet key m (req_set req b) n r h = Quiet-kept (serve_set libs req b n) n r h
  answer-Quiet key m get_peers n r h = Quiet-some n _ r h (Quiet-refl n)
  answer-Quiet key m welcome n r h = Quiet-some n _ r h (Quiet-refl n)
  answer-Quiet key m (ip_list addrs) n r h = Quiet-some n _ r h (Quiet-refl n)
  answer-Quiet key m ok n r h = Quiet-some n _ r h (Quiet-refl n)
  answer-Quiet key m reject n r h = Quiet-some n _ r h (Quiet-refl n)
  answer-Quiet key m (Content.set hashes) n r h = Quiet-some n _ r h (Quiet-refl n)
  answer-Quiet key m (set_filter size b) n r h = Quiet-some n _ r h (Quiet-refl n)

  pub serve-Quiet :
      (key : Bytes) (msg msg' : List Bytes) (n n' : Node)
      → serve libs key msg n ≡ some (msg', n')
      → Quiet n n'
  unfolding serve
  serve-Quiet key msg msg' n n' h =
      let part = >>=-eq-some (get_elem? msg 2) _ h in
      let content = >>=-eq-some (libs.messages.read part.0) _ part.2 in
      let answered = >>=-eq-some (answer libs key part.0 content.0 n) _ content.2 in
      let sent =
        >>=-eq-some (update_at msg 2 (λ _. libs.messages.write answered.0.0)) _ answered.2 in
      subst (Quiet n) (ap (λ (p : List Bytes × Node). p.1) (of_some sent.2))
        (answer-Quiet key part.0 content.0 n answered.0 answered.1)

  pub read_line-Quiet : (line : Bytes) (n : Node) → Quiet n (read_line libs line n)
  unfolding read_line
  read_line-Quiet line n = (addresses-add_to_all _ n.connections, (same n.ips, same n.seen))

  pub plan_first-Quiet : (now_ms : ℕ) (n : Node) → Quiet n (plan_first now_ms n)
  unfolding plan_first
  plan_first-Quiet now_ms n = Quiet-refl n

  Quiet-some_node : (n p r : Node) → some p ≡ some r → Quiet n p → Quiet n r
  Quiet-some_node n p r h q = subst (Quiet n) (of_some h) q

  keep_ips-Quiet :
      (content : Content) (n n' : Node) → keep_ips libs content n ≡ some n' → Quiet n n'
  unfolding keep_ips
  keep_ips-Quiet (ip_list addrs) n n' h =
      Quiet-some_node n _ n' h (refl, (Subset-include_all addrs n.ips, same n.seen))
  keep_ips-Quiet _ n n' h = absurd (cc h)

  keep_filter-Quiet :
      (now_ms : ℕ) (hash : Bytes) (r : ℕ × BloomSet) (n n' : Node)
      → keep_filter libs now_ms hash r n ≡ some n'
      → Quiet n n'
  unfolding keep_filter
  keep_filter-Quiet now_ms hash (size, b) n n' h = elim (Bool-cases (b.p == 0)) [
    | inl none_sent ↦ Quiet-some_node n n n' (rw none_sent at h) (Quiet-refl n)
    | inr there ↦
        let made = >>=-eq-some (bloom_of libs b) _ (rw there at h) in
        Quiet-some_node n _ n' made.2 (Quiet-refl n)
  ]

  take_kind :
      (kind : TaskType) (now_ms : ℕ) (task : Task) (result : Bytes) (n n' : Node)
      → take_reply libs now_ms (record task { kind = kind }) result n ≡ some n'
      → Quiet n n'
  unfolding take_reply
  take_kind TaskType.req_ips now_ms task result n n' h =
      let content = >>=-eq-some (libs.messages.read result) _ h in
      keep_ips-Quiet content.0 n n' content.2
  take_kind TaskType.req_hashset_filter now_ms task result n n' h =
      let r = >>=-eq-some (libs.messages.read_set_filter result) _ h in
      keep_filter-Quiet now_ms task.payload r.0 n n' r.2
  take_kind TaskType.req_hashset now_ms task result n n' h =
      let r = >>=-eq-some (libs.messages.read_set result) _ h in
      Quiet-some_node n _ n' r.2 (Quiet-refl n)
  take_kind TaskType.hello now_ms task result n n' h = Quiet-some_node n n n' h (Quiet-refl n)
  take_kind TaskType.send now_ms task result n n' h = Quiet-some_node n n n' h (Quiet-refl n)
  take_kind TaskType.send_priority now_ms task result n n' h =
      Quiet-some_node n n n' h (Quiet-refl n)
  take_kind TaskType.sync_utxo now_ms task result n n' h = Quiet-some_node n n n' h (Quiet-refl n)
  take_kind TaskType.expand_connection now_ms task result n n' h =
      Quiet-some_node n n n' h (Quiet-refl n)
  take_kind TaskType.sync_hashset now_ms task result n n' h =
      Quiet-some_node n n n' h (Quiet-refl n)

  -- Whatever a peer replies, the node loses nothing and opens no connection.
  pub take_reply-Quiet :
      (now_ms : ℕ) (task : Task) (result : Bytes) (n n' : Node)
      → take_reply libs now_ms task result n ≡ some n'
      → Quiet n n'
  take_reply-Quiet now_ms task result n n' h = take_kind task.kind now_ms task result n n' h
