-- ===== src/Bech32.antt =====
-- inc/convert.h, `bytes_to_bech32`: bytes as 5-bit digits, for the Bech32 encoder of
-- src/segwit_addr.cc, a copy of another project's code, which is a parameter here.
-- A run is `none` where a shift count or an index is out of range.
pub mod Step
pub mod Digits
pub mod Injective
mod Examples
use pttp.Prelude.{
  ℕ, zero, suc, ◌+◌, ◌-◌, ◌*◌, ◌/◌, ◌%◌, ◌^◌, ◌≡◌, List, [], ◌∷◌, length, get_elem?, replicate,
  Option, none, some, Bool, true, false, not, ◌&&◌, ltb, leb, ◌==◌, if◌then◌else◌, ◌>>=◌,
}
use pttp.Bytes.{Bytes}

-- `n += int(b[idr]) << (5 - r % 8)`
add_byte : ℕ → ℕ → Bytes → Option ℕ
add_byte n r b =
    get_elem? b (r / 8) >>= λ x. if ltb 5 (r % 8) then none else some (n + x * 2 ^ (5 - r % 8))

-- The values of `n` and `last` after the loop's second test.
refill : ℕ → ℕ → ℕ → Bytes → Option (ℕ × ℕ)
unfolding add_byte
refill r n last b =
    if not (r / 8 == last) && ltb (r / 8) (length b)
    then (add_byte n r b >>= λ n'. some (n', r / 8))
    else some (n, last)

-- The loop, which appends a value to `enc5` in each round; `none` also where the fuel runs out.
regroup : ℕ → ℕ → ℕ → ℕ → ℕ → Bytes → Option (List ℕ)
regroup zero l r n last b = none
regroup (suc fuel) l r n last b =
    let rest = refill r n last b >>= λ s.
    regroup fuel (l + 5) (r + 5) (s.0 / 2 ^ 5) s.1 b >>= λ enc5. some (s.0 % 2 ^ 5 ∷ enc5) in
    if leb (length b) (l / 8) then some [] else rest

-- `enc5` at the end of the loop. Two rounds for each byte and the one that ends the loop are enough.
unfoldable pub enc5 : Bytes → Option (List ℕ)
unfolding regroup refill
enc5 b = get_elem? b 0 >>= λ n. regroup (length b * 2 + 1) 0 5 n 0 b

-- `bytes_to_bech32`, where `encode output hrp data` is what `bech32_encode` leaves in its buffer. The
-- code does not look at what it returns.
unfoldable pub bytes_to_bech32 : (Bytes → Bytes → Bytes → Bytes) → Bytes → Bytes → Option Bytes
bytes_to_bech32 encode pre b =
    if length b == 0
    then some []
    else (enc5 b >>= λ digits.
        some (encode (replicate (length pre + length digits + 8) b' ') pre digits))
