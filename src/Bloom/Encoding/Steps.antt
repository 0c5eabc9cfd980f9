-- ===== src/Bloom/Encoding/Steps.antt =====
-- One hit more through the loops of `Bloom::bytes` and of the constructor that reads bytes.
use pttp.Prelude.{
  ℕ, zero, suc, ◌+◌, ◌-◌, ◌*◌, ◌/◌, ◌^◌, ◌<◌, ◌≡◌, refl, arith, ◌∙◌, List, [], ◌∷◌, replicate,
  Option, some, Bool, false, ◌==◌, to_nat, ◌>>=◌, >>=-eq-some, Option-cases, inl, inr,
}
use Prim.Native.Nat.add
use native.Mathlib.Numerals.{add-one}
use pttp.Bytes.{Bytes, update_at}
use pttp.Bloom.{next, read_hits, push_bit, write_hits, shift_last}
use pttp.Bloom.Encoding.Weights.{to_nat-lt, push_bit_lem, top_digits, read_step}

-- A loop that starts one byte further leaves the first byte alone.
pub write_hits_offset :
    (bits : List Bool) (i n y : ℕ) (b : Bytes)
    → write_hits bits (suc i) n (y ∷ b) ≡ write_hits bits i n b >>= λ r. some (y ∷ r.0, r.1)
unfolding write_hits
write_hits_offset [] i n y b = refl
write_hits_offset (bit ∷ bits) i n y b = elim (Option-cases (update_at b i (λ x. push_bit x bit))) [
  | inl e ↦ rw e
  | inr (b', e) ↦ rw (e, add.suc i) (write_hits_offset bits (i + to_nat (n + 1 == 8)) (next n) y b')
]

pub read_hits_offset :
    (left idx n y : ℕ) (b : Bytes) → read_hits left (suc idx) n (y ∷ b) ≡ read_hits left idx n b
unfolding read_hits
read_hits_offset zero idx n y b = refl
read_hits_offset (suc left) idx n y b =
    rw (add.suc idx, read_hits_offset left (idx + to_nat (n + 1 == 8)) (next n) y b)

pub shift_last_cons :
    (y : ℕ) (b : Bytes) (m : ℕ) {zs : Bytes}
    → shift_last b m ≡ some zs
    → shift_last (y ∷ b) m ≡ some (y ∷ zs)
unfolding shift_last
shift_last_cons y [] m h = cc
shift_last_cons y (x ∷ b) m h = rw h

-- The buffer of one partly filled byte `x`, which holds `n` bits, and `k` bytes of zeros.
unfoldable pub encode : ℕ → ℕ → ℕ → List Bool → Option Bytes
encode n x k bits = write_hits bits 0 n (x ∷ replicate k 0) >>= λ r. shift_last r.0 (8 - r.1)

-- A full byte is left behind.
pub encode_full :
    (x k : ℕ) (bit : Bool) (bits : List Bool) {z : ℕ} {zs : Bytes}
    → x < 128
    → encode 0 0 k bits ≡ some (z ∷ zs)
    → encode 7 x (suc k) (bit ∷ bits) ≡ some ((x * 2 + to_nat bit) ∷ z ∷ zs)
unfolding encode write_hits update_at
encode_full x k bit bits small e =
    let ((b, n), wrote, shifted) =
      >>=-eq-some (write_hits bits 0 0 (0 ∷ replicate k 0)) (λ r. shift_last r.0 (8 - r.1)) e in
    rw (push_bit_lem x bit small, write_hits_offset bits 0 0 (x * 2 + to_nat bit), wrote)
      (shift_last_cons (x * 2 + to_nat bit) b (8 - n) shifted)

-- `out` is a buffer whose first byte starts with the digits of `x`, and from which `count` hits are
-- read as `shown`.
unfoldable pub Decodes : ℕ → ℕ → ℕ → List Bool → Option Bytes → Type 0
Decodes n x count shown out =
    (y : ℕ) × (ys : Bytes) × (out ≡ some (y ∷ ys))
    × (y / 2 ^ (8 - n) ≡ x)
    × (read_hits count 0 n (y ∷ ys) ≡ some shown)

-- A byte with room left takes the next hit.
pub encode_step :
    (n x k : ℕ) (bit : Bool) (bits : List Bool)
    → n < 7
    → x < 128
    → encode n x k (bit ∷ bits) ≡ encode (suc n) (x * 2 + to_nat bit) k bits
unfolding encode write_hits update_at
encode_step n x k bit bits h hx =
    let room : n + 1 == 8 ≡ false = ground arith in rw (push_bit_lem x bit hx, room, add-one n) refl

-- The first byte of a buffer that has room for one more hit.
pub Decodes-step :
    (n x count : ℕ) (bit : Bool) (bits : List Bool) {out out' : Option Bytes}
    → n < 7
    → out' ≡ out
    → Decodes (suc n) (x * 2 + to_nat bit) count bits out
    → Decodes n x (suc count) (bit ∷ bits) out'
unfolding Decodes
Decodes-step n x count bit bits h e (y, ys, ran, top, read) =
    let hn : n < 8 = omega arith in
    let same : 8 - suc n ≡ 7 - n = omega arith in
    let digit : y / 2 ^ (7 - n) ≡ x * 2 + to_nat bit = rw same at top in
    let room : n + 1 == 8 ≡ false = ground arith in
    (
      y,
      ys,
      e ∙ ran,
      top_digits n x y bit hn digit,
      read_step n x y count ys bit bits hn digit (rw (room, add-one n) read),
    )

-- The hit that fills a byte.
pub Decodes-full :
    (x count : ℕ) (bit : Bool) (bits : List Bool) {out out' : Option Bytes}
    → ((z : ℕ) (zs : Bytes) → out ≡ some (z ∷ zs) → out' ≡ some ((x * 2 + to_nat bit) ∷ z ∷ zs))
    → Decodes 0 0 count bits out
    → Decodes 7 x (suc count) (bit ∷ bits) out'
unfolding Decodes
Decodes-full x count bit bits e (z, zs, ran, top, read) =
    let y = x * 2 + to_nat bit in
    let whole : y / 1 ≡ y = omega arith in
    (
      y,
      z ∷ zs,
      e z zs ran,
      omega (arith, to_nat-lt bit),
      read_step 7 x y count (z ∷ zs) bit bits (omega arith) whole
          (read_hits_offset count 0 0 y (z ∷ zs) ∙ read),
    )
