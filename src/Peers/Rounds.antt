-- ===== src/Peers/Rounds.antt =====
-- bin/p2p.cc, `serve`, with its socket: rounds of its loop.
use pttp.Prelude.{
  ℕ, suc, ◌≡◌, refl, sym, ap, ◌∙◌, arith, List, [], ◌∷◌, ◌++◌, append_assoc, append-nil, length,
  Option, some, true, All, ◌>>=◌,
}
use pttp.Bytes.{Bytes}
use pttp.Sockets.{Frame, Zmq, send_multi, recv_multi}
use pttp.Sockets.RoundTrip.{frames_of, send_multi-frames, recv_multi-frames}
use pttp.Peers.{Content, Libs, Node}
use pttp.Peers.Serving.{serve}
use pttp.Peers.Requests.{envelope}
use pttp.Peers.Answering.{IsServable, IsServable-same, IsFull, serve-total}

-- The socket's two directions, and the node.
pub record Server (Z : Type 0) : Type 0 where
  pub into : Z
  pub from : Z
  pub node : Node

-- One round of the loop: a message is received, answered, and sent back. The key is that of a filter it may make; the
-- fuel bounds the parts of a message.
unfoldable pub serve_round : {Z : Type 0} → Zmq Z → Libs → ℕ → Bytes → Server Z → Option (Server Z)
serve_round zmq libs fuel key s = recv_multi zmq fuel s.into >>= λ r.
    serve libs key r.0 s.node >>= λ a.
    send_multi zmq a.0 s.from >>= λ from'. some (record { into = r.1; from = from'; node = a.1 })

-- As many rounds as there are keys.
abbrev pub serve_rounds :
    {Z : Type 0} → Zmq Z → Libs → ℕ → List Bytes → Server Z → Option (Server Z)
serve_rounds zmq libs fuel [] s = some s
serve_rounds zmq libs fuel (key ∷ keys) s =
    serve_round zmq libs fuel key s >>= λ s'. serve_rounds zmq libs fuel keys s'

-- A request, with the identity that the router puts before it, what it holds, and the key drawn for its round.
pub record Request : Type 0 where
  pub sender : Bytes
  pub body : Bytes
  pub content : Content
  pub key : Bytes

abbrev pub keys_of : List Request → List Bytes
keys_of [] = []
keys_of (r ∷ rs) = r.key ∷ keys_of rs

-- The parts of the requests, in order.
abbrev pub asked : List Request → List Frame
asked [] = []
asked (r ∷ rs) = frames_of (envelope r.sender r.body) ++ asked rs

-- The parts of the replies, each to the sender of its request.
abbrev pub replies : Libs → List Request → List Content → List Frame
replies libs (r ∷ rs) (c ∷ cs) =
    frames_of (envelope r.sender (libs.messages.write c)) ++ replies libs rs cs
replies libs [] cs = []
replies libs (r ∷ rs) [] = []

-- The request can be read and is servable by a node with this chain.
abbrev pub IsGood : Libs → Node → Request → Type 0
IsGood libs q r = (libs.messages.read r.body ≡ some r.content) × IsServable libs q r.content

-- Both directions of the socket are up.
abbrev pub AreUp : {Z : Type 0} → Zmq Z → Server Z → Type 0
AreUp zmq s = (zmq.is_up s.into ≡ true) × (zmq.is_up s.from ≡ true)

module _ {Z : Type 0} (zmq : Zmq Z) (libs : Libs) (roomy : (n : ℕ) → zmq.init_size n ≡ true)
    (full : IsFull libs) where
  -- What a round does: the first request is gone, and a reply to its sender is on its way.
  RoundDone : Request → List Frame → Server Z → Type 0
  RoundDone r later s =
      (s' : Server Z) × (c : Content) × (serve_round zmq libs 3 r.key s ≡ some s')
      × AreUp zmq s'
      × (zmq.in_transit s'.into ≡ later)
      × (zmq.in_transit s'.from
          ≡ zmq.in_transit s.from ++ frames_of (envelope r.sender (libs.messages.write c)))
      × (s'.node.block_chain ≡ s.node.block_chain)

  round-RoundDone :
      (r : Request) (later : List Frame) (s : Server Z)
      → zmq.in_transit s.into ≡ frames_of (envelope r.sender r.body) ++ later
      → IsGood libs s.node r
      → AreUp zmq s
      → RoundDone r later s
  unfolding serve_round RoundDone
  round-RoundDone r later s there (read, good) up =
      let (into', got, into_up, left) =
        recv_multi-frames zmq 3 r.sender ([] ∷ r.body ∷ []) later s.into (omega arith) there up.0 in
      let (c, q', served, same) =
        serve-total libs r.sender r.key r.body r.content s.node full read good in
      let (from', sent, from_up, on_way) =
        send_multi-frames zmq (envelope r.sender (libs.messages.write c)) s.from
          (roomy _, (roomy _, (roomy _, tt))) up.1 in
      (
        record { into = into'; from = from'; node = q' },
        c,
        rw (got, served, sent) refl,
        (into_up, from_up),
        left,
        on_way,
        same,
      )

All-IsGood :
    (libs : Libs) (q q' : Node) (rs : List Request)
    → q.block_chain ≡ q'.block_chain
    → All (IsGood libs q) rs
    → All (IsGood libs q') rs
All-IsGood libs q q' [] e good = tt
All-IsGood libs q q' (r ∷ rs) e good =
    ((good.0.0, IsServable-same libs q q' r.content e good.0.1), All-IsGood libs q q' rs e good.1)

-- Every request is answered, to its sender and in order: where the socket is up and ZeroMQ has room for each part,
-- the requests that have arrived can be read and are servable (the credit set of a transaction can be read, and a
-- request for a set has a filter with the bytes for its hits, whose number is an `int`, and asks for a set of which the
-- node has all transactions or which it does not have), the password hash has 32 bytes and messages can be made, as many
-- rounds of `serve` as there are requests come to their end, leave no request and the socket up, and hand over one reply
-- for each, in three parts that start with the request's sender, and leave the node's chain as it was.
pub serve_rounds-replies :
    {Z : Type 0} (zmq : Zmq Z) (libs : Libs) (rs : List Request) (s : Server Z)
    → ((n : ℕ) → zmq.init_size n ≡ true)
    → IsFull libs
    → All (IsGood libs s.node) rs
    → zmq.in_transit s.into ≡ asked rs
    → AreUp zmq s
    → (s' : Server Z) × (cs : List Content) × (serve_rounds zmq libs 3 (keys_of rs) s ≡ some s')
      × (length cs ≡ length rs)
      × AreUp zmq s'
      × (zmq.in_transit s'.into ≡ [])
      × (zmq.in_transit s'.from ≡ zmq.in_transit s.from ++ replies libs rs cs)
      × (s'.node.block_chain ≡ s.node.block_chain)
unfolding RoundDone
serve_rounds-replies zmq libs [] s roomy full good there up =
    (s, [], refl, refl, up, there, sym (append-nil _), refl)
serve_rounds-replies zmq libs (r ∷ rs) s roomy full good there up =
    let (s1, c, ran, up1, left, on_way, same) =
      round-RoundDone zmq libs roomy full r (asked rs) s there good.0 up in
    let (s', cs, later, size, up', empty, all, same') =
      serve_rounds-replies zmq libs rs s1 roomy full
        (All-IsGood libs s.node s1.node rs (sym same) good.1) left up1 in
    (
      s',
      c ∷ cs,
      rw ran later,
      ap suc size,
      up',
      empty,
      all
          ∙ ap (λ t. t ++ replies libs rs cs) on_way
          ∙ append_assoc (zmq.in_transit s.from)
              (frames_of (envelope r.sender (libs.messages.write c))) (replies libs rs cs),
      same' ∙ same,
    )
