-- ===== src/Sockets.antt =====
-- src/socket.cc: `Socket`, over ZeroMQ.
-- A run is `none` where a `ZMQErr` is thrown. The address of the first element of an empty vector, which the code
-- takes and does not use, is let pass.
pub mod RoundTrip
pub mod Context
use pttp.Prelude.{
  ℕ, zero, suc, ◌+◌, ◌-◌, ◌≤◌, ◌≡◌, List, [], ◌∷◌, ◌++◌, length, replicate, Option, none, some,
  Bool, true, false, not, ◌||◌, ◌==◌, if◌then◌else◌, ◌>>=◌, Any,
}
use pttp.Bytes.{Bytes}

-- A part of a message, and whether another part follows.
abbrev pub Frame : Type 0
Frame = Bytes × Bool

-- Some message among the parts is whole.
abbrev pub HasWhole : List Frame → Type 0
HasWhole frames = Any (λ (f : Frame). f.1 ≡ false) frames

-- ZeroMQ at one direction of a `ZMQ_ROUTER` whose peers stay connected: `in_transit` are the parts that have arrived
-- and are not received, or those that the program has handed over, as the program sees them. The first part of a
-- message is the identity of the peer, which ZeroMQ adds or takes away, and from a `ZMQ_REQ` the next one is empty.
-- While the socket `is_up`, its context not shut down, a part that is handed over is accepted, parts are received in
-- order, once their message is whole, and the socket stays up. Else a call may fail.
pub record Zmq (Z : Type 0) : Type 0 where
  pub init_size : ℕ → Bool
  pub msg_send : Z → Bytes → Bool → Option Z
  pub msg_recv : Z → Option (Frame × Z)
  pub in_transit : Z → List Frame
  pub is_up : Z → Bool
  pub identity : Z → Bytes
  pub sent :
      (z : Z) (b : Bytes) (more : Bool)
      → is_up z ≡ true
      → (z' : Z) × (msg_send z b more ≡ some z')
        × (is_up z' ≡ true)
        × (in_transit z' ≡ in_transit z ++ ((b, more) ∷ []))
  pub received :
      (z : Z) (f : Frame) (frames : List Frame)
      → in_transit z ≡ f ∷ frames
      → HasWhole (f ∷ frames)
      → is_up z ≡ true
      → (z' : Z) × (msg_recv z ≡ some (f, z')) × (is_up z' ≡ true) × (in_transit z' ≡ frames)

-- The types of sockets that bind: `ZMQ_REP`, `ZMQ_PUB`, `ZMQ_ROUTER` and `ZMQ_DEALER`.
abbrev pub binds : ℕ → Bool
binds type = type == 4 || type == 1 || type == 6 || type == 5

-- `Socket`, whose pointer is left out.
pub record Socket : Type 0 where
  pub addr : Bytes
  pub type : ℕ

-- What the library does to make a socket, and to bind or connect it: whether it succeeds.
pub record Opener : Type 0 where
  pub create : ℕ → Bool
  pub bind_to : ℕ → Bytes → Bool
  pub connect_to : ℕ → Bytes → Bool

-- `connect`
unfoldable pub connect : Opener → Socket → Bool → Option Socket
connect api s bind =
    if api.create s.type
    then if if bind then api.bind_to s.type s.addr else api.connect_to s.type s.addr
      then some s
      else none
    else none

-- `Socket(int type_, string addr_)`
unfoldable pub open_socket : Opener → ℕ → Bytes → Option Socket
unfolding connect
open_socket api type addr = connect api (record { addr = addr; type = type }) (binds type)

-- `subscribe`, whose assertion assigns: the value of `ZMQ_SUB` is not zero.
unfoldable pub subscribe : Socket → Socket
subscribe s = record s { type = 2 }

module _ {Z : Type 0} (zmq : Zmq Z) where
  -- `send`
  unfoldable pub send : Z → Bytes → Bool → Option Z
  send z b more = if zmq.init_size (length b) then zmq.msg_send z b more else none

  -- The loop of `send_multi` from index `i` on.
  unfoldable pub send_parts : ℕ → ℕ → List Bytes → Z → Option Z
  unfolding send
  send_parts i size [] z = some z
  send_parts i size (m ∷ msgs) z =
      send z m (not (i == size - 1)) >>= λ z'. send_parts (i + 1) size msgs z'

  unfoldable pub send_multi : List Bytes → Z → Option Z
  unfolding send_parts
  send_multi msgs z = send_parts 0 (length msgs) msgs z

  -- `recv`
  unfoldable pub recv : Z → Option (Bytes × Z)
  recv z = zmq.msg_recv z >>= λ r. some (r.0.0, r.1)

  -- `recv_multi`, which ends with the first part that no other follows; the fuel bounds the parts.
  unfoldable pub recv_multi : ℕ → Z → Option (List Bytes × Z)
  recv_multi zero z = none
  recv_multi (suc fuel) z = zmq.msg_recv z >>= λ r.
      let rest = recv_multi fuel r.1 >>= λ s. some (r.0.0 ∷ s.0, s.1) in
      if r.0.1 then rest else some (r.0.0 ∷ [], r.1)

  -- `get_id`: the identity is written over the start of 255 blanks, all of which are returned.
  unfoldable pub get_id : Z → Bytes
  get_id z = zmq.identity z ++ replicate (255 - length (zmq.identity z)) 32
