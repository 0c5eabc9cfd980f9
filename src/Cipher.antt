-- ===== src/Cipher.antt =====
-- bin/enc.cc, bin/dec.cc, bin/hexenc.cc and bin/hexdec.cc: a message masked with a key stream that
-- is hashed from a password and a salt. The salt is random, an argument here.
-- A run is `none` where an assertion fails.
pub mod RoundTrip
mod Examples
use pttp.Prelude.{ℕ, ◌*◌, ◌/◌, ◌≡◌, length, Option, none, some, ◌==◌, if◌then◌else◌, ◌>>=◌}
use pttp.Bytes.{Bytes, x_or}
use pttp.Merkle.{GenericHasher}

-- `crypto_pwhash` of libsodium at the limits that `HardestHash` gives it, and the hexadecimal text of
-- bytes, which `sodium_bin2hex` writes and `sodium_hex2bin` reads.
pub record Sodium : Type 0 where
  pub hasher : GenericHasher
  pub pwhash : Bytes → Bytes → Bytes
  pub bin2hex : Bytes → Bytes
  pub hex2bin : ℕ → Bytes → Bytes
  pub length-bin2hex : (b : Bytes) → length (bin2hex b) ≡ 2 * length b
  pub hex2bin-bin2hex : (b : Bytes) → hex2bin (length b) (bin2hex b) ≡ b

-- `crypto_pwhash_SALTBYTES`
abbrev salt_size : ℕ
salt_size = 16

module _ (sodium : Sodium) where
  open sodium use {hasher, pwhash, bin2hex, hex2bin}

  -- `HardHashSalt(Bytes &b)`
  unfoldable pub hard_hash_salt : Bytes → Option Bytes
  hard_hash_salt b = if length b == salt_size then some b else none

  -- `Bytes::from_hex`
  unfoldable pub from_hex : Bytes → Bytes
  from_hex hex = hex2bin (length hex / 2) hex

  -- The text that `operator<<` writes, without the zero byte at its end.
  unfoldable pub show : Bytes → Bytes
  show b = bin2hex b

  -- `HardestHash h(pass_b, salt); Hash hh(h, msg_b.size()); msg_b.x_or(hh);`, with the salt made from
  -- `salt_b` in the lines before.
  unfoldable pub mask : Bytes → Bytes → Bytes → Option Bytes
  unfolding hard_hash_salt
  mask msg_b pass_b salt_b = do
    salt ← hard_hash_salt (hasher.digest 16 salt_b)
    let h = pwhash pass_b salt
    x_or msg_b (hasher.digest (length msg_b) h)

  -- `main` of bin/enc.cc: the two texts that it prints, for a message, a password and a random salt.
  unfoldable pub enc : Bytes → Bytes → Bytes → Option (Bytes × Bytes)
  unfolding mask show
  enc msg pass salt_b = mask msg pass salt_b >>= λ c. some (show c, show salt_b)

  -- `main` of bin/dec.cc: the message that it prints, for the two texts and a password.
  unfoldable pub dec : Bytes → Bytes → Bytes → Option Bytes
  unfolding mask from_hex
  dec msg_hex salt_hex pass = mask (from_hex msg_hex) pass (from_hex salt_hex)

  -- `main` of bin/hexenc.cc, whose message is a hexadecimal text.
  unfoldable pub hexenc : Bytes → Bytes → Bytes → Option (Bytes × Bytes)
  unfolding mask from_hex show
  hexenc msg_hex pass salt_b =
      mask (from_hex msg_hex) pass salt_b >>= λ c. some (show c, show salt_b)

  -- `main` of bin/hexdec.cc, which prints the message as a hexadecimal text.
  unfoldable pub hexdec : Bytes → Bytes → Bytes → Option Bytes
  unfolding mask from_hex show
  hexdec msg_hex salt_hex pass =
      mask (from_hex msg_hex) pass (from_hex salt_hex) >>= λ m. some (show m)
