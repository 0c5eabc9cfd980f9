-- ===== src/Keys.antt =====
-- src/curve.cc and inc/curve.h: `Curve`, the keys, nonces, seeds and salts, and `Signature`.
-- A run is `none` where an assertion fails or libsodium reads out of range. Random bytes are arguments, and what
-- is drawn has the size that is asked for.
pub mod Increments
mod Examples
use pttp.Prelude.{
  ℕ, suc, ◌+◌, ◌*◌, ◌%◌, ◌^◌, ◌≡◌, List, [], ◌∷◌, ◌++◌, length, take, replicate, Option, none, some,
  Bool, true, false, not, leb, ◌==◌, if◌then◌else◌, ◌>>=◌,
}
use pttp.Prelude.Int.{ℤ}
use pttp.Bytes.{Bytes, IsBytes, equal}
use pttp.Merkle.{GenericHasher}
use pttp.Process.{Signer}
use pttp.Boxes.{KeyPair}

-- The number whose lowest byte comes first.
unfoldable pub little_endian : Bytes → ℕ
little_endian [] = 0
little_endian (x ∷ xs) = x + 256 * little_endian xs

-- The helpers of libsodium: `sodium_memcmp` tells whether two buffers of one size are equal, and `sodium_increment`
-- adds 1 to a buffer as a little-endian number, modulo its size.
pub record SodiumUtils : Type 0 where
  pub memcmp : Bytes → Bytes → Bool
  pub compare : Bytes → Bytes → ℤ
  pub add_one : Bytes → Bytes
  pub memcmp-equal : (a b : Bytes) → length a ≡ length b → memcmp a b ≡ equal a b
  pub length-add_one : (b : Bytes) → length (add_one b) ≡ length b
  pub add_one-IsBytes : (b : Bytes) → IsBytes b → IsBytes (add_one b)
  pub little_endian-add_one :
      (b : Bytes) → IsBytes b → little_endian (add_one b) ≡ (little_endian b + 1) % 256 ^ length b

module _ (utils : SodiumUtils) where
  -- `Curve::bytes_equal`
  unfoldable pub bytes_equal : Bytes → Bytes → Bool
  bytes_equal b1 b2 = if length b1 == length b2 then utils.memcmp b1 b2 else false

  -- `Curve::bytes_compare`
  unfoldable pub bytes_compare : Bytes → Bytes → Option ℤ
  bytes_compare b1 b2 = if length b1 == length b2 then some (utils.compare b1 b2) else none

  -- `Curve::increment`
  unfoldable pub increment : Bytes → Bytes
  increment b = utils.add_one b

-- `Curve::zero_bytes`
unfoldable pub zero_bytes : Bytes → Bytes
zero_bytes b = replicate (length b) 0

-- `SafeBytes::resize`, which wipes what was there; the vector's own `resize` keeps a prefix and appends zeros.
unfoldable pub resize_safe : ℕ → Bytes → Bytes
unfolding zero_bytes
resize_safe n b =
    let wiped = if length b == 0 then b else zero_bytes b in take n (wiped ++ replicate n 0)

-- The default constructors of `SecretKey`, `PublicKey`, `SecretSignKey`, `PublicSignKey`, `Seed` and `HashKey`.
unfoldable pub secret_key : Bytes
secret_key = replicate 32 0

unfoldable pub public_key : Bytes
public_key = replicate 32 0

unfoldable pub secret_sign_key : Bytes
secret_sign_key = replicate 64 0

unfoldable pub public_sign_key : Bytes
public_sign_key = replicate 32 0

unfoldable pub seed : Bytes
seed = replicate 32 0

unfoldable pub hash_key : Bytes
hash_key = replicate 32 0

-- `Seed(SafeBytes const &bytes)`, whose assertion compares the size of the bytes with that of their copy.
unfoldable pub seed_from : Bytes → Option Bytes
seed_from bytes = let this = bytes in if length bytes == length this then some this else none

-- `SecretKey::pub`, with `crypto_scalarmult_base`.
unfoldable pub public_of : (Bytes → Bytes) → Bytes → Option Bytes
public_of scalarmult_base key = if leb 32 (length key) then some (scalarmult_base key) else none

-- `Hash(Bytes &m, HashKey &k)`, with `crypto_generichash` on a key.
unfoldable pub keyed_hash : (ℕ → Bytes → Bytes → Bytes) → Bytes → Bytes → Bytes
keyed_hash generichash m k = generichash 32 m k

-- `HardHash(m, salt)`, `HardestHash(m, salt)`, and `HardestHash(m)`, whose salt is a hash of the data. `pwhash` is
-- `crypto_pwhash` at the limits of the class, to 32 bytes.
unfoldable pub hard_hash_with : (Bytes → Bytes → Bytes) → Bytes → Bytes → Bytes
hard_hash_with pwhash m salt = pwhash m salt

unfoldable pub hardest_hash_with : (Bytes → Bytes → Bytes) → Bytes → Bytes → Bytes
hardest_hash_with pwhash m salt = pwhash m salt

unfoldable pub hardest_hash : GenericHasher → (Bytes → Bytes → Bytes) → Bytes → Bytes
hardest_hash hasher pwhash m = pwhash m (hasher.digest 16 m)

-- `randombytes_buf` fills as many bytes as it is asked for.
module _ (draw : ℕ → Bytes) where
  -- `Curve::random_bytes`
  unfoldable pub random_bytes : Bytes → Bytes
  random_bytes b = draw (length b)

  -- `Nonce()`, and `HardHashSalt()`.
  unfoldable pub nonce : Bytes
  unfolding random_bytes
  nonce = random_bytes (replicate 24 0)

  unfoldable pub random_salt : Bytes
  unfolding random_bytes
  random_salt = random_bytes (replicate 16 0)

-- `KeyPair(Bytes seed)` and `SignKeyPair(Bytes seed)`: the library reads 32 bytes from the start of the seed.
module _ (seed_pair : Bytes → KeyPair) where
  unfoldable pub box_pair_from : Bytes → Option KeyPair
  box_pair_from seed = if leb 32 (length seed) then some (seed_pair (take 32 seed)) else none

  unfoldable pub sign_pair_from : Bytes → Option KeyPair
  sign_pair_from seed = if leb 32 (length seed) then some (seed_pair (take 32 seed)) else none

-- `Signature`
pub record Signature : Type 0 where
  pub sig : Bytes

module _ (signer : Signer) where
  -- `Signature(message, sk)`, `Signature(signature)` and `verify`.
  unfoldable pub signature : Bytes → Bytes → Signature
  signature message sk = record { sig = signer.sign message sk }

  unfoldable pub signature_verify : Signature → Bytes → Bytes → Bool
  signature_verify s message key = signer.verify s.sig message key
