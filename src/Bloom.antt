-- ===== src/Bloom.antt =====
-- inc/bloom_filter.h, `Bloom`, with `ShortHashKey` and `ShortHash` of inc/curve.h.
-- A run is `none` where the code's behaviour is undefined: an index out of range.
pub mod Encoding
pub mod Membership
pub mod Sizes
mod Examples
use pttp.Prelude.{
  ℕ, zero, suc, ◌+◌, ◌-◌, ◌*◌, ◌/◌, ◌%◌, ◌^◌, ◌<◌, ◌≡◌, bit_and, bit_or, List, [], ◌∷◌, length,
  get_elem?, get_or, set, replicate, Option, none, some, Bool, true, false, not, ◌==◌, ltb, to_nat,
  if◌then◌else◌, ◌>>=◌, ◌>>◌,
}
use pttp.Bytes.{Bytes, IsBytes, update_at}

-- `crypto_shorthash` of libsodium: it fills `crypto_shorthash_BYTES` bytes, which are eight.
pub record ShortHasher : Type 0 where
  pub short_hash : Bytes → Bytes → Bytes
  pub size : (key b : Bytes) → length (short_hash key b) ≡ 8
  pub short_hash-IsBytes : (key b : Bytes) → IsBytes (short_hash key b)

-- The `uint64_t` that a pointer to the bytes reads, on a little-endian machine.
unfoldable pub load : Bytes → ℕ
load [] = 0
load (b ∷ bs) = b + load bs * 256

-- `ShortHash::to_uint`, in arithmetic modulo 2 ^ 64.
unfoldable pub to_uint : Bytes → ℕ → ℕ
unfolding load
to_uint h m = let val = load h / 2 ^ 32 in val * m % 2 ^ 64 / 2 ^ 32

-- `P` is the `int` field `P`, which callers never make negative.
pub record Bloom : Type 0 where
  pub p : ℕ
  pub hits : List Bool
  pub key : Bytes
  pub n_on : ℕ

-- `Bloom(int p)`, whose key the default constructor of `ShortHashKey` draws.
unfoldable pub new : ℕ → Bytes → Bloom
new p key = record { p = p; hits = replicate p false; key = key; n_on = 0 }

-- `++n; if (n == 8) n = 0;`, beside which both loops move on to the next byte.
abbrev pub next : ℕ → ℕ
next n = if n + 1 == 8 then 0 else n + 1

-- The constructor's loop: `left` hits to read, from digit `7 - n` of byte `idx` on.
unfoldable pub read_hits : ℕ → ℕ → ℕ → Bytes → Option (List Bool)
read_hits zero idx n bytes = some []
read_hits (suc left) idx n bytes = get_elem? bytes idx >>= λ b.
    read_hits left (idx + to_nat (n + 1 == 8)) (next n) bytes >>= λ rest.
    some (not (bit_and b (2 ^ (7 - n)) == 0) ∷ rest)

-- `Bloom(Bytes data, uint64_t p, ShortHashKey key_)`. It leaves `n_on` at 0.
unfoldable pub from_bytes : Bytes → ℕ → Bytes → Option Bloom
unfolding read_hits
from_bytes bytes p key = do
  hits ← read_hits p 0 0 bytes
  some (record { p = p; hits = hits; key = key; n_on = 0 })

unfoldable pub reset : Bloom → Bloom
reset f = record f { hits = replicate (length f.hits) false; n_on = 0 }

-- `b[i] <<= 1; b[i] |= bit;` on a `uint8_t`.
pub push_bit : ℕ → Bool → ℕ
push_bit x bit = bit_or (x * 2 % 256) (to_nat bit)

-- The loop of `bytes()`; it returns the buffer and the final `n`.
pub write_hits : List Bool → ℕ → ℕ → Bytes → Option (Bytes × ℕ)
unfolding push_bit update_at
write_hits [] i n b = some (b, n)
write_hits (bit ∷ hits) i n b = update_at b i (λ x. push_bit x bit) >>= λ b'.
    write_hits hits (i + to_nat (n + 1 == 8)) (next n) b'

-- `b[b.size()-1] <<= k` on a `uint8_t`; on the empty vector the index wraps, out of range.
pub shift_last : Bytes → ℕ → Option Bytes
shift_last [] k = none
shift_last (x ∷ []) k = some (x * 2 ^ k % 256 ∷ [])
shift_last (x ∷ y ∷ ys) k = shift_last (y ∷ ys) k >>= λ zs. some (x ∷ zs)

-- `Bloom::bytes()`
unfoldable pub bytes : Bloom → Option Bytes
unfolding write_hits shift_last
bytes f = do (b, n) ← write_hits f.hits 0 0 (replicate ((f.p + 7) / 8) 0); shift_last b (8 - n)

-- `hits[val] = true`, counting a hit that was off.
switch_on : Bloom → ℕ → Bool → Bloom
switch_on f val was = record f {
  hits = set f.hits val true;
  n_on = if was then f.n_on else f.n_on + 1;
}

module _ (hasher : ShortHasher) where
  -- `Bloom::hash`
  unfoldable pub hash : Bloom → Bytes → ℕ
  unfolding to_uint
  hash f b = to_uint (hasher.short_hash f.key b) f.p

  -- `Bloom::has`
  unfoldable pub has : Bloom → Bytes → Option Bool
  unfolding hash
  has f b = if f.p == 0 then some false else get_elem? f.hits (hash f b)

  -- `Bloom::set`
  unfoldable pub put : Bloom → Bytes → Option Bloom
  unfolding hash switch_on
  put f b = let val = hash f b in get_elem? f.hits val >>= λ was. some (switch_on f val was)

  -- `Bloom::has_set`
  unfoldable pub has_set : Bloom → Bytes → Option (Bool × Bloom)
  unfolding hash switch_on
  has_set f b =
      let val = hash f b in get_elem? f.hits val >>= λ was. some (was, switch_on f val was)

  -- `for (auto s : full_set) bloom.set(s);`
  unfoldable pub put_all : Bloom → List Bytes → Option Bloom
  put_all f [] = some f
  put_all f (b ∷ bs) = put f b >>= λ f'. put_all f' bs
