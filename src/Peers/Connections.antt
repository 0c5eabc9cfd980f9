-- ===== src/Peers/Connections.antt =====
-- bin/p2p.cc: the connections of a node, over whatever its threads do.
use mathlib.Core.List.{Perm, Permᴰ}
use mathlib.Core.Logic.{∥∥₁_elim}
use pttp.Prelude.{
  ℕ, ◌+◌, ◌≤◌, ◌≡◌, refl, sym, ap, ◌∙◌, subst, arith, List, [], ◌∷◌, length, length-map, some, Bool,
  true, ◌⊎◌, inl, inr, All, of_some, >>=-eq-some,
}
use pttp.Bytes.{Bytes}
use pttp.Maps.{member}
use pttp.Gtd.{Task, TaskType}
use pttp.Peers.{Libs, Connection, connection, Node, add_to, main}
use pttp.Peers.Managing.{n_conn, n_new, current_ips, connect_new, expand, plan, manage}
use pttp.Peers.Steps.{
  Step, served, typed, planned, managed, started, polled, replied, Run, here, next,
}
use pttp.Peers.Quiet.{
  Subset, addresses, Grows, Quiet, Quiet-refl, addresses-add_to_all, addresses-set, serve-Quiet,
  read_line-Quiet, plan_first-Quiet, take_reply-Quiet,
}
use pttp.Peers.Syncing.{sync_hashset-Quiet}
use pttp.Peers.Opening.{connect_new-Extends, length-opened, All-addresses}

-- There are at most eight connections, each to an address that the node was told of.
abbrev pub IsLinked : Node → Type 0
IsLinked n =
    (length n.connections ≤ n_conn) × All (λ a. member a n.ips ≡ true) (addresses n.connections)

member_permuted : (k : Bytes) {xs ys : List Bytes} → Permᴰ xs ys → member k xs ≡ member k ys
unfolding member
member_permuted k Permᴰ.nil = refl
member_permuted k (Permᴰ.cons e p) = rw (e, member_permuted k p) refl
member_permuted k (Permᴰ.swap {a} {b} {a'} {b'} {l} e e') = rw (e, e') (ground arith)
member_permuted k (Permᴰ.trans p q) = member_permuted k p ∙ member_permuted k q

bools_set : IsSet Bool
bools_set = hlevel

member-Perm : (k : Bytes) (xs ys : List Bytes) → Perm xs ys → member k xs ≡ member k ys
member-Perm k xs ys p = ∥∥₁_elim p (bools_set (member k xs) (member k ys)) (member_permuted k)

All-Subset :
    (xs ys addrs : List Bytes)
    → Subset xs ys
    → All (λ a. member a xs ≡ true) addrs
    → All (λ a. member a ys ≡ true) addrs
All-Subset xs ys [] sub all = tt
All-Subset xs ys (a ∷ addrs) sub all = (sub a all.0, All-Subset xs ys addrs sub all.1)

Quiet-IsLinked : (n n' : Node) → Quiet n n' → IsLinked n → IsLinked n'
Quiet-IsLinked n n' (links, (ips, seen)) (few, known) =
    let size : length (addresses n'.connections) ≡ length (addresses n.connections) =
      ap length links in
    (
      omega (
        arith,
        size,
        length-map n'.connections Connection.ip,
        length-map n.connections Connection.ip,
      ),
      subst (All (λ a. member a n'.ips ≡ true)) (sym links) (All-Subset n.ips n'.ips _ ips known),
    )

expand-IsLinked :
    (connects : Bytes → Bool) (shuffle : List Bytes → List Bytes) (n n' : Node)
    → ((addrs : List Bytes) → Perm (shuffle addrs) addrs)
    → expand connects shuffle n ≡ some n'
    → IsLinked n
    → IsLinked n' × Grows n n'
unfolding expand
expand-IsLinked connects shuffle n n' perm h (few, known) =
    let ran =
      >>=-eq-some (connect_new connects (n_new n) (current_ips n) (shuffle n.ips) n.connections) _
        h in
    let (k, addr, some_few, e, told) =
      connect_new-Extends connects (n_new n) (current_ips n) (shuffle n.ips) n.connections ran.0
        ran.1 in
    let size : length ran.0 ≡ length n.connections + k =
      ap length e ∙ length-opened n.connections k (connection addr) in
    let told' : (k ≡ 0) ⊎ (member addr n.ips ≡ true) = elim told [
      | inl z ↦ inl z
      | inr m ↦ inr (sym (member-Perm addr _ _ (perm n.ips)) ∙ m)
    ] in
    subst (λ t. IsLinked t × Grows n t) (of_some ran.2)
      (
        (
          omega (arith, size, few, some_few),
          subst (λ c. All (λ a. member a n.ips ≡ true) (addresses c)) (sym e)
              (All-addresses n.ips n.connections k addr known told'),
        ),
        (Quiet-refl n).1,
      )

manage-IsLinked :
    (libs : Libs) (connects : Bytes → Bool) (shuffle : List Bytes → List Bytes) (now_ms : ℕ)
    (kind : TaskType) (task : Task) (n n' : Node)
    → ((addrs : List Bytes) → Perm (shuffle addrs) addrs)
    → manage libs connects shuffle now_ms (record task { kind = kind }) n ≡ some n'
    → IsLinked n
    → IsLinked n' × Grows n n'
unfolding manage plan
manage-IsLinked libs connects shuffle now_ms TaskType.sync_hashset task n n' perm h l =
    let q = sync_hashset-Quiet libs now_ms (record task { kind = TaskType.sync_hashset }) n n' h in
    (Quiet-IsLinked n n' q l, q.1)
manage-IsLinked libs connects shuffle now_ms TaskType.expand_connection task n n' perm h l =
    let ran = >>=-eq-some (expand connects shuffle n) _ h in
    let e = of_some ran.2 in
    subst (λ t. IsLinked t × Grows n t) e (expand-IsLinked connects shuffle n ran.0 perm ran.1 l)
manage-IsLinked libs connects shuffle now_ms TaskType.req_ips task n n' perm h l =
    let q : Quiet n n' =
      subst (Quiet n) (of_some h) (addresses-add_to_all _ n.connections, (Quiet-refl n).1) in
    (Quiet-IsLinked n n' q l, q.1)
manage-IsLinked libs connects shuffle now_ms TaskType.send task n n' perm h l =
    subst (λ t. IsLinked t × Grows n t) (of_some h) (l, (Quiet-refl n).1)
manage-IsLinked libs connects shuffle now_ms TaskType.send_priority task n n' perm h l =
    subst (λ t. IsLinked t × Grows n t) (of_some h) (l, (Quiet-refl n).1)
manage-IsLinked libs connects shuffle now_ms TaskType.hello task n n' perm h l =
    subst (λ t. IsLinked t × Grows n t) (of_some h) (l, (Quiet-refl n).1)
manage-IsLinked libs connects shuffle now_ms TaskType.sync_utxo task n n' perm h l =
    subst (λ t. IsLinked t × Grows n t) (of_some h) (l, (Quiet-refl n).1)
manage-IsLinked libs connects shuffle now_ms TaskType.req_hashset_filter task n n' perm h l =
    subst (λ t. IsLinked t × Grows n t) (of_some h) (l, (Quiet-refl n).1)
manage-IsLinked libs connects shuffle now_ms TaskType.req_hashset task n n' perm h l =
    subst (λ t. IsLinked t × Grows n t) (of_some h) (l, (Quiet-refl n).1)

-- Every step of a node keeps the bound and the addresses, and loses no known address and no text that was seen.
pub Step-IsLinked :
    (libs : Libs) (n n' : Node) → Step libs n n' → IsLinked n → IsLinked n' × Grows n n'
unfolding add_to
Step-IsLinked libs n n' (served key msg msg' h) l =
    let q = serve-Quiet libs key msg msg' n n' h in (Quiet-IsLinked n n' q l, q.1)
Step-IsLinked libs n n' (typed line) l =
    let q = read_line-Quiet libs line n in (Quiet-IsLinked n n' q l, q.1)
Step-IsLinked libs n n' (planned now_ms) l =
    let q = plan_first-Quiet libs now_ms n in (Quiet-IsLinked n n' q l, q.1)
Step-IsLinked libs n n' (managed connects shuffle now now_ms task g perm took h) l =
    manage-IsLinked libs connects shuffle now_ms task.kind task (record n { manager_gtd = g }) n'
      perm h l
Step-IsLinked libs n n' (started i con there) l =
    let q : Quiet n n' = (addresses-set n.connections i con _ there refl, (Quiet-refl n).1) in
    (Quiet-IsLinked n n' q l, q.1)
Step-IsLinked libs n n' (polled i now con task g there took) l =
    let q : Quiet n n' = (addresses-set n.connections i con _ there refl, (Quiet-refl n).1) in
    (Quiet-IsLinked n n' q l, q.1)
Step-IsLinked libs n n' (replied now_ms task result h) l =
    let q = take_reply-Quiet libs now_ms task result n n' h in (Quiet-IsLinked n n' q l, q.1)

Subset-trans : (xs ys zs : List Bytes) → Subset xs ys → Subset ys zs → Subset xs zs
Subset-trans xs ys zs f g k h = g k (f k h)

pub Run-Grows : (libs : Libs) (n n' : Node) → Run libs n n' → IsLinked n → IsLinked n' × Grows n n'
Run-Grows libs n n' here l = (l, (Quiet-refl n).1)
Run-Grows libs n n' (next {n = between} r s) l =
    let (l', (ips, seen)) = Run-Grows libs n between r l in
    let (l'', (ips', seen')) = Step-IsLinked libs between n' s l' in
    (
      l'',
      (
        Subset-trans n.ips between.ips n'.ips ips ips',
        Subset-trans n.seen between.seen n'.seen seen seen',
      ),
    )

main-IsLinked : (args drawn : List Bytes) (n : Node) → main args drawn ≡ some n → IsLinked n
unfolding main
main-IsLinked [] drawn n h = absurd (cc h)
main-IsLinked (program ∷ []) drawn n h = absurd (cc h)
main-IsLinked (program ∷ con_str ∷ addrs) drawn n h = subst IsLinked (of_some h) (omega arith, tt)

-- From the start of the program on, whatever peers send and reply, in whatever order the threads take their
-- steps, a node has at most eight connections, each to an address that it was told of, and it keeps every
-- address and every text that it has seen.
pub Run-IsLinked :
    (libs : Libs) (args drawn : List Bytes) (n n' : Node)
    → main args drawn ≡ some n
    → Run libs n n'
    → IsLinked n' × Grows n n'
Run-IsLinked libs args drawn n n' h r = Run-Grows libs n n' r (main-IsLinked args drawn n h)
