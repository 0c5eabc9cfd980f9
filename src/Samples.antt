-- ===== src/Samples.antt =====
-- Concrete functions in place of libsodium and RocksDB, at which the examples run.
pub mod Blocks
pub mod Messages
pub mod Keys
pub mod Peers
pub mod Queues
use pttp.Prelude.{
  ℕ, zero, suc, ◌+◌, ◌*◌, ◌/◌, ◌%◌, ◌≡◌, refl, ap₂, arith, [], ◌∷◌, ◌++◌, length, length-replicate,
  replicate, Option, none, some, true, if◌then◌else◌,
}
use pttp.Bytes.{Bytes, IsBytes, equal, equal_refl}
use pttp.Bloom.{ShortHasher}
use pttp.Merkle.{GenericHasher}
use pttp.Cipher.{Sodium}
use pttp.Db.{Rocks}

abbrev pub sum : Bytes → ℕ
sum [] = 0
sum (x ∷ xs) = x + sum xs

abbrev pub short_sum : Bytes → Bytes → Bytes
short_sum key b = 0 ∷ 0 ∷ 0 ∷ 0 ∷ 0 ∷ 0 ∷ 0 ∷ ((sum key + sum b) % 256) ∷ []

pub length-short_sum : (key b : Bytes) → length (short_sum key b) ≡ 8
length-short_sum key b = refl

pub short_sum-IsBytes : (key b : Bytes) → IsBytes (short_sum key b)
short_sum-IsBytes key b = omega arith

-- The sum of the bytes is the highest byte of the hash.
abbrev pub sum_hasher : ShortHasher
sum_hasher = record {
  short_hash = short_sum;
  size = length-short_sum;
  short_hash-IsBytes = short_sum-IsBytes;
}

abbrev pub digest_sum : ℕ → Bytes → Bytes
digest_sum n m = replicate n ((sum m * 7 + 3) % 256)

pub length-digest_sum : (n : ℕ) (m : Bytes) → length (digest_sum n m) ≡ n
length-digest_sum n m = length-replicate n ((sum m * 7 + 3) % 256)

abbrev pub digest_hasher : GenericHasher
digest_hasher = record { digest = digest_sum; size = length-digest_sum }

-- Two digits for each byte.
abbrev pub to_hex : Bytes → Bytes
to_hex [] = []
to_hex (x ∷ xs) = (x / 16) ∷ (x % 16) ∷ to_hex xs

abbrev pub from_hex : ℕ → Bytes → Bytes
from_hex zero text = []
from_hex (suc n) [] = []
from_hex (suc n) (h ∷ []) = []
from_hex (suc n) (h ∷ l ∷ text) = (h * 16 + l) ∷ from_hex n text

pub length-to_hex : (b : Bytes) → length (to_hex b) ≡ 2 * length b
length-to_hex [] = refl
length-to_hex (x ∷ xs) = omega (arith, length-to_hex xs)

pub from_hex-to_hex : (b : Bytes) → from_hex (length b) (to_hex b) ≡ b
from_hex-to_hex [] = refl
from_hex-to_hex (x ∷ xs) = ap₂ ◌∷◌ (omega arith) (from_hex-to_hex xs)

abbrev pub join : Bytes → Bytes → Bytes
join a b = a ++ b

abbrev pub sample_sodium : Sodium
sample_sodium = record {
  hasher = digest_hasher;
  pwhash = join;
  bin2hex = to_hex;
  hex2bin = from_hex;
  length-bin2hex = length-to_hex;
  hex2bin-bin2hex = from_hex-to_hex;
}

-- A database that keeps its last `Put` only.
abbrev pub Slot : Type 0
Slot = Option (Bytes × Bytes)

abbrev pub fetch : Slot → Bytes → Option Bytes
fetch none k = none
fetch (some (j, v)) k = if equal j k then some v else none

pub fetch_put : (s : Slot) (k v : Bytes) → true ≡ true → fetch (some (k, v)) k ≡ some v
fetch_put s k v ok = rw (equal_refl k)

abbrev pub slot_db : Rocks Slot
slot_db = record {
  put = λ s k v. (true, some (k, v));
  delete = λ s k. (true, none);
  get = fetch;
  get-put = fetch_put;
}
