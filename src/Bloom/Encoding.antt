-- ===== src/Bloom/Encoding.antt =====
-- `Bloom::bytes` against the constructor that reads bytes.
pub mod Weights
pub mod Steps
use pttp.Prelude.{
  ℕ, zero, suc, ◌+◌, ◌-◌, ◌*◌, ◌/◌, ◌%◌, ◌^◌, ◌≤◌, ◌<◌, ◌≡◌, refl, arith, ap, ◌∙◌, sym, ◌≢◌,
  bit_and, bit_or, List, [], ◌∷◌, length, get_elem?, replicate, take, ◌++◌, Option, none, some,
  Bool, true, false, not, ◌==◌, ==_iff, to_nat, if◌then◌else◌, ◌>>=◌, >>=-eq-some, Option-cases,
  Bool-cases, inl, inr,
}
use Prim.Native.Nat.add
use native.Mathlib.Nat.{
  mod-eq_of_lt, sub-zero, pow-suc, one-le-pow, mul-lt-mul_of_pos_right, mul-div_cancel,
  div-div-eq-div-mul,
}
use native.Mathlib.Numerals.{add-one}
use mathlib.Core.Path.{◌≡⟨◌⟩◌, ◌∎}
use pttp.Prelude.Bits.{bit_or_digit, bit_and_pow}
use pttp.Bytes.{Bytes, update_at}
use pttp.Bloom.{Bloom, next, read_hits, push_bit, write_hits, shift_last, from_bytes, bytes}
use pttp.Bloom.Encoding.Weights.{
  pow_split, to_nat-lt, push_bit_lem, weight_double, weight_pos, fits_byte, lt_half, test_digit,
  top_digits, read_step,
}
use pttp.Bloom.Encoding.Steps.{
  write_hits_offset, read_hits_offset, shift_last_cons, encode, encode_full, Decodes, encode_step,
  Decodes-step, Decodes-full,
}

encode-Decodes :
    (n x k : ℕ) (bits : List Bool)
    → n < 8
    → x < 2 ^ n
    → 8 * k < n + length bits
    → n + length bits < 8 * k + 8
    → Decodes n x (length bits) bits (encode n x k bits)
unfolding Decodes
encode-Decodes n x k [] hn hx lo hi =
    let none_left : k ≡ 0 = omega arith in
    let exact : x * 2 ^ (8 - n) % 256 ≡ x * 2 ^ (8 - n) = mod-eq_of_lt (fits_byte n hn x hx) in
    let pos : 0 < 2 ^ (8 - n) = omega (arith, weight_double n hn, weight_pos n hn) in
    (
      x * 2 ^ (8 - n),
      [],
      unfold encode write_hits shift_last in rw (none_left, exact),
      mul-div_cancel x pos,
      unfold read_hits in refl,
    )
encode-Decodes n x k (bit ∷ bits) hn hx lo hi = elim (Bool-cases (n == 7)) [
  | inl e ↦
      let last : n ≡ 7 = (==_iff n 7).0 e in
      let more : k ≡ suc (k - 1) = omega arith in
      let small = lt_half n hn x hx in
      rw (last, more)
        (Decodes-full x (length bits) bit bits
          (λ z zs ran. encode_full x (k - 1) bit bits small ran)
          (encode-Decodes 0 0 (k - 1) bits (omega arith) (omega arith) (omega arith) (omega arith)))
  | inr e ↦
      let room : n < 7 = ground arith in
      let grown : x * 2 + to_nat bit < 2 ^ suc n = omega (arith, pow-suc 2 n, to_nat-lt bit) in
      Decodes-step n x (length bits) bit bits room
        (encode_step n x k bit bits room (lt_half n hn x hx))
        (encode-Decodes (suc n) (x * 2 + to_nat bit) k bits (omega arith) grown (omega arith)
          (omega arith))
]

-- A filter keeps its size when it has one hit for each of its `P` places.
abbrev pub IsSized : Bloom → Type 0
IsSized f = length f.hits ≡ f.p

reads_back :
    (f : Bloom) (key : Bytes) (k : ℕ) (shown : List Bool)
    → IsSized f
    → (f.p + 7) / 8 ≡ suc k
    → Decodes 0 0 (length f.hits) shown (encode 0 0 k f.hits)
    → (bytes f >>= λ b. from_bytes b f.p key)
      ≡ some (record { p = f.p; hits = shown; key = key; n_on = 0 })
unfolding bytes from_bytes Decodes encode
reads_back f key k shown sized width (y, ys, ran, top, read) =
    let listed : read_hits f.p 0 0 (y ∷ ys) ≡ some shown = rw (← sized) read in
    rw (width, ran, listed)

pub from_bytes-bytes_odd :
    (f : Bloom) (key : Bytes)
    → IsSized f
    → f.p % 8 ≢ 0
    → (bytes f >>= λ b. from_bytes b f.p key)
      ≡ some (record { p = f.p; hits = f.hits; key = key; n_on = 0 })
from_bytes-bytes_odd f key sized odd =
    reads_back f key (f.p / 8) f.hits sized (omega arith)
      (encode-Decodes 0 0 (f.p / 8) f.hits (omega arith) (omega arith) (omega arith) (omega arith))

-- The eight hits of a filter's only byte are shifted out of it.
encode_last :
    (bits : List Bool) → length bits ≡ 8 → Decodes 0 0 8 (replicate 8 false) (encode 0 0 0 bits)
unfolding Decodes encode write_hits shift_last update_at push_bit read_hits
encode_last [] h = absurd (omega arith)
encode_last (a ∷ []) h = absurd (omega arith)
encode_last (a ∷ b ∷ []) h = absurd (omega arith)
encode_last (a ∷ b ∷ c ∷ []) h = absurd (omega arith)
encode_last (a ∷ b ∷ c ∷ d ∷ []) h = absurd (omega arith)
encode_last (a ∷ b ∷ c ∷ d ∷ e ∷ []) h = absurd (omega arith)
encode_last (a ∷ b ∷ c ∷ d ∷ e ∷ f ∷ []) h = absurd (omega arith)
encode_last (a ∷ b ∷ c ∷ d ∷ e ∷ f ∷ g ∷ []) h = absurd (omega arith)
encode_last (a ∷ b ∷ c ∷ d ∷ e ∷ f ∷ g ∷ i ∷ []) h =
    (0, [], ap (λ (t : ℕ). some (t ∷ [])) (omega arith), refl, refl)
encode_last (a ∷ b ∷ c ∷ d ∷ e ∷ f ∷ g ∷ i ∷ j ∷ r) h = absurd (omega arith)

-- `bits` with the last eight, past the first `m`, turned off.
abbrev pub blank_last : ℕ → List Bool → List Bool
blank_last m bits = take m bits ++ replicate 8 false

encode_aligned :
    (n x k : ℕ) (bits : List Bool)
    → n < 8
    → x < 2 ^ n
    → n + length bits ≡ 8 * k + 8
    → (k ≡ 0 → (n ≡ 0) × (x ≡ 0))
    → Decodes n x (length bits) (blank_last (8 * k - n) bits) (encode n x k bits)
encode_aligned n x zero bits hn hx e start =
    let (en, ex) = start refl in
    let eight : length bits ≡ 8 = omega arith in rw (en, ex, eight) (encode_last bits eight)
encode_aligned n x (suc k) [] hn hx e start = absurd (omega arith)
encode_aligned n x (suc k) (bit ∷ bits) hn hx e start = elim (Bool-cases (n == 7)) [
  | inl e' ↦
      let last : n ≡ 7 = (==_iff n 7).0 e' in
      let place : 8 * suc k - 7 ≡ suc (8 * k) = omega arith in
      let small = lt_half n hn x hx in
      rw (last, place)
        (Decodes-full x (length bits) bit (blank_last (8 * k) bits)
          (λ z zs ran. encode_full x k bit bits small ran)
          (rw sub-zero at (
            encode_aligned 0 0 k bits (omega arith) (omega arith) (omega arith)
              (λ _. (refl, refl)))))
  | inr e' ↦
      let room : n < 7 = ground arith in
      let place : 8 * suc k - n ≡ suc (8 * suc k - suc n) = omega arith in
      let grown : x * 2 + to_nat bit < 2 ^ suc n = omega (arith, pow-suc 2 n, to_nat-lt bit) in
      rw place (
        Decodes-step n x (length bits) bit (blank_last (8 * suc k - suc n) bits) room
          (encode_step n x (suc k) bit bits room (lt_half n hn x hx))
          (encode_aligned (suc n) (x * 2 + to_nat bit) (suc k) bits (omega arith) grown
            (omega arith) (λ z. absurd (omega arith))))
]

-- The last shift clears the last byte.
from_bytes-bytes_aligned :
    (f : Bloom) (key : Bytes)
    → IsSized f
    → 0 < f.p
    → f.p % 8 ≡ 0
    → (bytes f >>= λ b. from_bytes b f.p key)
      ≡ some (record { p = f.p; hits = blank_last (f.p - 8) f.hits; key = key; n_on = 0 })
from_bytes-bytes_aligned f key sized pos aligned =
    let k = f.p / 8 - 1 in
    let place : 8 * k - 0 ≡ f.p - 8 = omega arith in
    reads_back f key k (blank_last (f.p - 8) f.hits) sized (omega arith) (
      rw place at
        (encode_aligned 0 0 k f.hits (omega arith) (omega arith) (omega arith) (λ _. (refl, refl))))

-- The hits that a filter has once it has been sent.
abbrev pub sent_hits : Bloom → List Bool
sent_hits f = if f.p % 8 == 0 then blank_last (f.p - 8) f.hits else f.hits

-- For a filter with as many hits as its `P`, which is not 0, `bytes()` succeeds, and the constructor reads from what it
-- wrote, at the same `P` and any key, all the hits when `P` is no multiple of eight, and the hits with the last
-- eight turned off when it is one.
pub from_bytes-bytes :
    (f : Bloom) (key : Bytes)
    → IsSized f
    → 0 < f.p
    → (bytes f >>= λ b. from_bytes b f.p key)
      ≡ some (record { p = f.p; hits = sent_hits f; key = key; n_on = 0 })
from_bytes-bytes f key sized pos = elim (Bool-cases (f.p % 8 == 0)) [
  | inl e ↦ rw e (from_bytes-bytes_aligned f key sized pos ((==_iff (f.p % 8) 0).0 e))
  | inr e ↦ rw e (from_bytes-bytes_odd f key sized (λ z. ground (arith, e, z)))
]
