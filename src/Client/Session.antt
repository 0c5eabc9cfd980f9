-- ===== src/Client/Session.antt =====
-- bin/node.cc against a node of bin/p2p.cc.
use pttp.Prelude.{
  ◌≡◌, refl, ◌∙◌, arith, List, [], ◌∷◌, map, length, get_elem?, Option, some, true, All, ◌>>=◌,
}
use pttp.Bytes.{Bytes, equal_refl, update_at}
use pttp.Maps.{member, include}
use pttp.Maps.Laws.{member-include}
use pttp.Process
use pttp.Process.{SignKeyPair, Outcome, create, create_transaction, process_transaction, process}
use pttp.Process.Creation.{IsMade, made, empty, create-signatures, process_transaction-create}
use pttp.Peers.{hello, welcome, get_peers, ip_list, ok, transaction, Libs, Node}
use pttp.Peers.Serving.{serve_transaction, answer, serve}
use pttp.Peers.Requests.{envelope}
use pttp.Client.{demo_amounts, demo_ip, Printed, main}

-- The node at the other end of the socket serves the message.
abbrev pub talk_to : Libs → Bytes → Bytes → Node → Bytes → Option (Bytes × Node)
talk_to libs sender key q m =
    serve libs key (envelope sender m) q >>= λ r. get_elem? r.0 2 >>= λ reply. some (reply, r.1)

-- The node after the client's hello.
abbrev pub greeted : Node → Node
greeted q = record q { ips = include demo_ip q.ips }

module _ (libs : Libs) (sender key : Bytes) (q : Node) where
  talk_to-hello :
      talk_to libs sender key q (libs.messages.write (hello demo_ip))
      ≡ some (libs.messages.write welcome, greeted q)
  unfolding serve answer update_at
  talk_to-hello = rw (libs.messages.read-write (hello demo_ip) tt) refl

  talk_to-get_peers :
      talk_to libs sender key q (libs.messages.write get_peers)
      ≡ some (libs.messages.write (ip_list q.ips), q)
  unfolding serve answer update_at
  talk_to-get_peers = rw (libs.messages.read-write get_peers tt) refl

  talk_to-transaction :
      (tx : Process.Transaction)
      → serve_transaction libs tx ≡ some ok
      → talk_to libs sender key q (libs.messages.write (transaction tx))
        ≡ some (libs.messages.write ok, q)
  unfolding serve answer update_at
  talk_to-transaction tx e = rw (libs.messages.read-write (transaction tx) tt, e) refl

some_first :
    (xs : List Bytes) (k : Bytes) → member k xs ≡ true → (x : Bytes) × (get_elem? xs 0 ≡ some x)
unfolding member
some_first [] k h = absurd (cc h)
some_first (x ∷ xs) k h = (x, refl)

first_ip : (q : Node) → (x : Bytes) × (get_elem? (greeted q).ips 0 ≡ some x)
first_ip q =
    some_first (include demo_ip q.ips) demo_ip
      (member-include demo_ip demo_ip q.ips ∙ rw (equal_refl demo_ip) refl)

module _ (libs : Libs) (a b c : SignKeyPair) where
  abbrev three : List SignKeyPair
  three = a ∷ b ∷ c ∷ []

  abbrev pub demo_tx : Process.Transaction
  demo_tx = made libs.signer libs.wire three demo_amounts refl

  abbrev pub demo_out : Outcome
  demo_out = record {
    accounts = map (λ acc. SignKeyPair.pub_key acc) three;
    amounts = demo_amounts;
    sigs = demo_tx.signatures;
  }

  created :
      create_transaction libs.signer libs.wire three demo_amounts
      ≡ some (libs.wire.write_transaction demo_tx)
  unfolding create_transaction
  created = rw (create-signatures libs.signer libs.wire three demo_amounts refl) refl

  processed :
      All (IsMade libs.signer) three
      → process_transaction libs.signer libs.wire (libs.wire.write_transaction demo_tx) empty
        ≡ some (true, demo_out)
  processed seeds = rw created at (
      process_transaction-create libs.signer libs.wire three demo_amounts refl seeds
        (omega arith, (omega arith, (omega arith, tt))))

  accepts : All (IsMade libs.signer) three → serve_transaction libs demo_tx ≡ some ok
  unfolding serve_transaction process_transaction
  accepts seeds =
      let ran : process libs.signer libs.wire demo_tx empty ≡ some (true, demo_out) =
        rw (libs.wire.read-write_transaction demo_tx) at (processed seeds) in
      rw ran refl

  -- For three accounts made from seeds, the client's session with any node goes through: its own check accepts
  -- the transaction and gives back the three amounts and public keys; the node answers the transaction with OK, and
  -- has an address to answer the last message with; of the node nothing changes but that it knows the client's
  -- address.
  pub main-serve :
      (sender key : Bytes) (q : Node)
      → All (IsMade libs.signer) three
      → (p : Printed) × (main libs (talk_to libs sender key) three q ≡ some (p, greeted q))
        × (p.accepted ≡ true)
        × (p.amounts ≡ demo_amounts)
        × (p.accounts ≡ a.pub_key ∷ b.pub_key ∷ c.pub_key ∷ [])
        × (talk_to libs sender key (greeted q) (libs.messages.write (transaction demo_tx))
            ≡ some (libs.messages.write ok, greeted q))
  unfolding main
  main-serve sender key q seeds =
      let (ip, there) = first_ip q in
      let sent = talk_to-transaction libs sender key (greeted q) demo_tx (accepts seeds) in
      (
        record {
          accepted = true;
          amounts = demo_amounts;
          accounts = a.pub_key ∷ b.pub_key ∷ c.pub_key ∷ [];
          first = a.pub_key;
          n_ips = length (greeted q).ips;
          ip = ip;
        },
        rw
            (
              created,
              processed seeds,
              talk_to-hello libs sender key q,
              create-signatures libs.signer libs.wire three demo_amounts refl,
              sent,
              talk_to-get_peers libs sender key (greeted q),
              libs.messages.read-write (ip_list (greeted q).ips) tt,
              there,
            )
            refl,
        refl,
        refl,
        refl,
        sent,
      )
