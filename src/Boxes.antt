-- ===== src/Boxes.antt =====
-- src/curve.cc: `EncryptedMessage`, `SealedMessage`, `SignedMessage` and the keys made from a seed; and
-- bin/fullenc.cc and bin/fulldec.cc, which seal a message for a key pair made from a password.
-- A run is `none` where the code throws, an assertion fails or an index is out of range.
pub mod RoundTrip
pub mod Demo
mod Examples
use pttp.Prelude.{
  ℕ, ◌+◌, ◌-◌, ◌<◌, ◌≡◌, [], ◌∷◌, length, replicate, Option, none, some, Bool, true, false, leb,
  if◌then◌else◌, ◌>>=◌,
}
use pttp.Bytes.{Bytes, IsBytes}
use pttp.Cipher.{Sodium, hard_hash_salt, from_hex, show}
use pttp.Bech32.{bytes_to_bech32}

-- `KeyPair` and `SignKeyPair`.
pub record KeyPair : Type 0 where
  pub priv : Bytes
  pub pub_key : Bytes

-- `crypto_box_MACBYTES`, `crypto_box_SEALBYTES` and `crypto_sign_BYTES`.
abbrev pub mac_size : ℕ
mac_size = 16

abbrev pub seal_size : ℕ
seal_size = 48

abbrev pub sign_size : ℕ
sign_size = 64

-- The boxes and signed messages of libsodium. Boxing and signing may fail, though not with keys that it
-- made. What opens one is given the buffer that it writes to,
-- and returns whether it succeeded, and the buffer. Random bytes are arguments.
pub record BoxApi : Type 0 where
  pub box_pair : Bytes → KeyPair
  pub sign_pair : Bytes → KeyPair
  pub box : Bytes → Bytes → Bytes → Bytes → Option Bytes
  pub box_open : Bytes → Bytes → Bytes → Bytes → Bytes → Bool × Bytes
  pub seal : Bytes → Bytes → Bytes → Bytes
  pub seal_open : Bytes → Bytes → Bytes → Bytes → Bool × Bytes
  pub sign : Bytes → Bytes → Option Bytes
  pub sign_open : Bytes → Bytes → Bytes → Bool × Bytes
  pub length-seal : (m key random : Bytes) → length (seal m key random) ≡ length m + 48
  pub seal-IsBytes : (m key random : Bytes) → IsBytes m → IsBytes (seal m key random)
  pub box_open-box :
      (m nonce seed seed' : Bytes)
      → (c : Bytes) × (box m nonce (KeyPair.pub_key (box_pair seed')) (KeyPair.priv (box_pair seed))
          ≡ some c)
        × (length c ≡ length m + 16)
        × ((buffer : Bytes)
            → length buffer ≡ length m
            → box_open buffer c nonce
                (KeyPair.pub_key (box_pair seed))
                (KeyPair.priv (box_pair seed'))
              ≡ (true, m))
  pub seal_open-seal :
      (buffer m seed random : Bytes)
      → length buffer ≡ length m
      → seal_open buffer
          (seal m (KeyPair.pub_key (box_pair seed)) random)
          (KeyPair.pub_key (box_pair seed))
          (KeyPair.priv (box_pair seed))
        ≡ (true, m)
  pub sign_open-sign :
      (m seed : Bytes)
      → (c : Bytes) × (sign m (KeyPair.priv (sign_pair seed)) ≡ some c)
        × (length c ≡ length m + 64)
        × ((buffer : Bytes)
            → length buffer ≡ length m
            → sign_open buffer c (KeyPair.pub_key (sign_pair seed)) ≡ (true, m))

pub record EncryptedMessage : Type 0 where
  pub message : Bytes
  pub enc_message : Bytes
  pub nonce : Bytes

pub record SealedMessage : Type 0 where
  pub message : Bytes
  pub sealed_message : Bytes

pub record SignedMessage : Type 0 where
  pub message : Bytes
  pub signed_message : Bytes

-- The body that `decrypt` and `verify` share, for what the class adds to a message: the size guard,
-- `message.resize`, which leaves zeros, and the call. It gives the result and the message.
unfoldable pub open_guarded : ℕ → (Bytes → Bool × Bytes) → Bytes → Bytes → Bool × Bytes
open_guarded added opens message wrapped =
    if leb (length wrapped) added
    then (false, message)
    else opens (replicate (length wrapped - added) 0)

-- The texts that bin/fullenc.cc prints: the sealed message and the salt, to base 16 and in Bech32.
pub record Printed : Type 0 where
  pub msg_hex : Bytes
  pub salt_hex : Bytes
  pub msg_bech32 : Bytes
  pub salt_bech32 : Bytes

module _ (api : BoxApi) where
  -- `EncryptedMessage(message, pub, priv)`, with a random nonce.
  unfoldable pub encrypt : Bytes → Bytes → Bytes → Bytes → Option EncryptedMessage
  encrypt m key priv nonce = api.box m nonce key priv >>= λ c.
      some (record { message = m; enc_message = c; nonce = nonce })

  -- `EncryptedMessage(enc_message)`
  unfoldable pub received : Bytes → Bytes → EncryptedMessage
  received b nonce = record { message = []; enc_message = b; nonce = nonce }

  -- `EncryptedMessage::decrypt`, with the nonce that it is given.
  unfoldable pub decrypt : EncryptedMessage → Bytes → Bytes → Bytes → Bool × EncryptedMessage
  decrypt e key priv nonce =
      let (ok, m) =
        open_guarded mac_size (λ buffer. api.box_open buffer e.enc_message nonce key priv) e.message
          e.enc_message in
      (ok, record e { message = m })

  -- `SealedMessage(message, pub)`
  unfoldable pub sealed : Bytes → Bytes → Bytes → SealedMessage
  sealed m key random = record { message = m; sealed_message = api.seal m key random }

  -- `SealedMessage(sealed_message)`
  unfoldable pub sealed_from : Bytes → SealedMessage
  sealed_from b = record { message = []; sealed_message = b }

  -- `SealedMessage::decrypt`
  unfoldable pub unseal : SealedMessage → Bytes → Bytes → Bool × SealedMessage
  unseal s key priv =
      let (ok, m) =
        open_guarded seal_size (λ buffer. api.seal_open buffer s.sealed_message key priv) s.message
          s.sealed_message in
      (ok, record s { message = m })

  -- `SignedMessage(message, sk)`
  unfoldable pub signed : Bytes → Bytes → Option SignedMessage
  signed m priv = api.sign m priv >>= λ c. some (record { message = m; signed_message = c })

  -- `SignedMessage(signed_message)`
  unfoldable pub signed_from : Bytes → SignedMessage
  signed_from b = record { message = []; signed_message = b }

  -- `SignedMessage::verify`
  unfoldable pub verify : SignedMessage → Bytes → Bool × SignedMessage
  verify s key =
      let (ok, m) =
        open_guarded sign_size (λ buffer. api.sign_open buffer s.signed_message key) s.message
          s.signed_message in
      (ok, record s { message = m })

  module _ (sodium : Sodium) where
    open sodium use {hasher, pwhash}

    -- The key pair that both tools make from a password and a salt.
    unfoldable pub password_pair : Bytes → Bytes → Option KeyPair
    unfolding hard_hash_salt
    password_pair pass_b salt_b = do
      salt ← hard_hash_salt sodium (hasher.digest 16 salt_b)
      let h = pwhash pass_b salt
      some (api.box_pair (hasher.digest 32 h))

    -- `main` of bin/fullenc.cc, for a message, a password, the salt and what sealing draws.
    unfoldable pub fullenc :
        (Bytes → Bytes → Bytes → Bytes) → Bytes → Bytes → Bytes → Bytes → Option Printed
    fullenc encode msg_b pass_b salt_b random = do
      pair ← password_pair pass_b salt_b
      let s = sealed msg_b pair.pub_key random
      m ← bytes_to_bech32 encode (b'm' ∷ []) s.sealed_message
      t ← bytes_to_bech32 encode (b's' ∷ []) salt_b
      some (record {
        msg_hex = show sodium s.sealed_message;
        salt_hex = show sodium salt_b;
        msg_bech32 = m;
        salt_bech32 = t;
      })

    -- `main` of bin/fulldec.cc: the message that it prints, whether or not `decrypt` succeeds.
    unfoldable pub fulldec : Bytes → Bytes → Bytes → Option Bytes
    fulldec msg_hex salt_hex pass_b = do
      pair ← password_pair pass_b (from_hex sodium salt_hex)
      let s = (unseal (sealed_from (from_hex sodium msg_hex)) pair.pub_key pair.priv).1
      some s.message
