-- ===== src/Sockets/RoundTrip.antt =====
-- What `Socket::send_multi` hands over, and what `Socket::recv_multi` takes.
use pttp.Prelude.{
  ℕ, zero, suc, ◌+◌, ◌-◌, ◌≤◌, ◌≡◌, refl, sym, ap, ◌∙◌, arith, List, [], ◌∷◌, ◌++◌, append_assoc,
  append-nil, length, some, true, false, ◌==◌, inl, inr, All,
}
use pttp.Bytes.{Bytes}
use pttp.Sockets.{Frame, HasWhole, Zmq, send, send_parts, send_multi, recv_multi}

-- The parts of one message: all but the last announce another.
abbrev pub frames_of : List Bytes → List Frame
frames_of [] = []
frames_of (m ∷ []) = (m, false) ∷ []
frames_of (m ∷ m' ∷ msgs) = (m, true) ∷ frames_of (m' ∷ msgs)

module _ {Z : Type 0} (zmq : Zmq Z) where
  abbrev pub CanSend : List Bytes → Type 0
  CanSend msgs = All (λ (m : Bytes). zmq.init_size (length m) ≡ true) msgs

  send_parts-frames :
      (i size : ℕ) (msgs : List Bytes) (z : Z)
      → i + length msgs ≡ size
      → CanSend msgs
      → zmq.is_up z ≡ true
      → (z' : Z) × (send_parts zmq i size msgs z ≡ some z')
        × (zmq.is_up z' ≡ true)
        × (zmq.in_transit z' ≡ zmq.in_transit z ++ frames_of msgs)
  unfolding send_parts send
  send_parts-frames i size [] z e ok up = (z, refl, up, sym (append-nil _))
  send_parts-frames i size (m ∷ []) z e ok up =
      let last : (i == size - 1) ≡ true = ground (arith, e) in
      let (z', ran, up', after) = zmq.sent z m false up in
      (z', rw (ok.0, last, ran) refl, up', after)
  send_parts-frames i size (m ∷ m' ∷ msgs) z e ok up =
      let more : (i == size - 1) ≡ false = ground (arith, e) in
      let (z', ran, up', after) = zmq.sent z m true up in
      let (z'', rest, up'', after') =
        send_parts-frames (i + 1) size (m' ∷ msgs) z' (omega (arith, e)) ok.1 up' in
      (
        z'',
        rw (ok.0, more, ran) rest,
        up'',
        after'
            ∙ ap (λ t. t ++ frames_of (m' ∷ msgs)) after
            ∙ append_assoc (zmq.in_transit z) ((m, true) ∷ []) (frames_of (m' ∷ msgs)),
      )

  pub send_multi-frames :
      (msgs : List Bytes) (z : Z)
      → CanSend msgs
      → zmq.is_up z ≡ true
      → (z' : Z) × (send_multi zmq msgs z ≡ some z')
        × (zmq.is_up z' ≡ true)
        × (zmq.in_transit z' ≡ zmq.in_transit z ++ frames_of msgs)
  unfolding send_multi
  send_multi-frames msgs z ok up = send_parts-frames 0 (length msgs) msgs z (omega arith) ok up

  frames-HasWhole :
      (m : Bytes) (msgs : List Bytes) (later : List Frame)
      → HasWhole (frames_of (m ∷ msgs) ++ later)
  frames-HasWhole m [] later = inl refl
  frames-HasWhole m (m' ∷ msgs) later = inr (frames-HasWhole m' msgs later)

  pub recv_multi-frames :
      (fuel : ℕ) (m : Bytes) (msgs : List Bytes) (later : List Frame) (z : Z)
      → length (m ∷ msgs) ≤ fuel
      → zmq.in_transit z ≡ frames_of (m ∷ msgs) ++ later
      → zmq.is_up z ≡ true
      → (z' : Z) × (recv_multi zmq fuel z ≡ some (m ∷ msgs, z'))
        × (zmq.is_up z' ≡ true)
        × (zmq.in_transit z' ≡ later)
  unfolding recv_multi
  recv_multi-frames zero m msgs later z le e up = absurd (omega (arith, le))
  recv_multi-frames (suc fuel) m [] later z le e up =
      let (z', got, up', after) =
        zmq.received z (m, false) later e (frames-HasWhole m [] later) up in
      (z', rw got refl, up', after)
  recv_multi-frames (suc fuel) m (m' ∷ msgs) later z le e up =
      let (z', got, up', after) =
        zmq.received z (m, true) (frames_of (m' ∷ msgs) ++ later) e
          (frames-HasWhole m (m' ∷ msgs) later) up in
      let (z'', rest, up'', after') =
        recv_multi-frames fuel m' msgs later z' (omega (arith, le)) after up' in
      (z'', rw (got, rest) refl, up'', after')
