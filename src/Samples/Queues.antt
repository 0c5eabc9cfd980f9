-- ===== src/Samples/Queues.antt =====
-- A concrete queue of parts for ZeroMQ, at which the examples run.
use pttp.Prelude.{◌≡◌, refl, List, [], ◌∷◌, ◌++◌, Option, none, some, true}
use pttp.Sockets.{Frame, HasWhole, Zmq}

abbrev pub first_part : List Frame → Option (Frame × List Frame)
first_part [] = none
first_part (f ∷ frames) = some (f, frames)

pub first_part_lem :
    (z : List Frame) (f : Frame) (frames : List Frame)
    → z ≡ f ∷ frames
    → HasWhole (f ∷ frames)
    → true ≡ true
    → (z' : List Frame) × (first_part z ≡ some (f, z')) × (true ≡ true) × (z' ≡ frames)
first_part_lem z f frames e whole up = (frames, rw e refl, up, refl)

abbrev pub sample_zmq : Zmq (List Frame)
sample_zmq = record {
  init_size = λ n. true;
  msg_send = λ z b more. some (z ++ ((b, more) ∷ []));
  msg_recv = first_part;
  in_transit = λ z. z;
  is_up = λ z. true;
  identity = λ z. [];
  sent = λ z b more up. (z ++ ((b, more) ∷ []), refl, up, refl);
  received = first_part_lem;
}
