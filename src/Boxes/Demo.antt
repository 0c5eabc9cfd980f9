-- ===== src/Boxes/Demo.antt =====
-- bin/snd.cc: a message is encrypted, sealed and signed, and opened again.
use pttp.Prelude.{ℕ, suc, ◌+◌, ◌%◌, [], ◌∷◌, Option, some, Bool, ◌>>=◌}
use pttp.Bytes.{Bytes}
use pttp.Boxes.{
  BoxApi, encrypt, received, decrypt, sealed, sealed_from, unseal, signed, signed_from, verify,
}

-- The loop that fills the message: the numbers from `i` on, `left` of them.
unfoldable pub count_up : ℕ → ℕ → Bytes
count_up ℕ.zero i = []
count_up (suc left) i = i % 256 ∷ count_up left (i + 1)

-- What the library draws: for the three key pairs, for the nonces of both objects, and to seal.
pub record Drawn : Type 0 where
  pub pair1 : Bytes
  pub pair2 : Bytes
  pub kp3 : Bytes
  pub nonce : Bytes
  pub nonce' : Bytes
  pub random : Bytes

-- The results of `decrypt`, `decrypt` and `verify`, each with the message that is printed after it.
pub record Shown : Type 0 where
  pub decrypted : Bool × Bytes
  pub unsealed : Bool × Bytes
  pub verified : Bool × Bytes

-- `main`, up to its loop.
unfoldable pub snd : BoxApi → Drawn → Option Shown
snd api drawn = do
  let message = count_up 20 0
  let pair1 = api.box_pair drawn.pair1
  let pair2 = api.box_pair drawn.pair2
  enc ← encrypt api message pair1.pub_key pair2.priv drawn.nonce
  let dec =
      decrypt api (received api enc.enc_message drawn.nonce') pair2.pub_key pair1.priv enc.nonce
  let sealed_one = sealed api message pair1.pub_key drawn.random
  let opened = unseal api (sealed_from api sealed_one.sealed_message) pair1.pub_key pair1.priv
  let kp3 = api.sign_pair drawn.kp3
  sign ← signed api message kp3.priv
  let checked = verify api (signed_from api sign.signed_message) kp3.pub_key
  some (record {
    decrypted = (dec.0, dec.1.message);
    unsealed = (opened.0, opened.1.message);
    verified = (checked.0, checked.1.message);
  })

-- The message of a round of its loop.
unfoldable pub round : ℕ → Bytes
round n = n % 256 ∷ []
