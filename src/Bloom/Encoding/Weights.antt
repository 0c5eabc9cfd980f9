-- ===== src/Bloom/Encoding/Weights.antt =====
-- The weight of each hit in the byte that `Bloom::bytes` and the constructor are at.
use pttp.Prelude.{
  ℕ, zero, suc, ◌+◌, ◌-◌, ◌*◌, ◌/◌, ◌%◌, ◌^◌, ◌≤◌, ◌<◌, ◌≡◌, refl, arith, ap, sym, List, ◌∷◌, some,
  Bool, true, false, not, ◌==◌, to_nat,
}
use Prim.Native.Nat.add
use native.Mathlib.Nat.{pow-suc, one-le-pow, mul-lt-mul_of_pos_right, div-div-eq-div-mul}
use mathlib.Core.Path.{◌≡⟨◌⟩◌, ◌∎}
use pttp.Prelude.Bits.{bit_or_digit, bit_and_pow}
use pttp.Bytes.{Bytes}
use pttp.Bloom.{next, read_hits, push_bit}

pub pow_split : (n : ℕ) → n < 8 → 2 ^ n * 2 ^ (8 - n) ≡ 256
pow_split zero h = refl
pow_split (suc zero) h = refl
pow_split (suc (suc zero)) h = refl
pow_split (suc (suc (suc zero))) h = refl
pow_split (suc (suc (suc (suc zero)))) h = refl
pow_split (suc (suc (suc (suc (suc zero))))) h = refl
pow_split (suc (suc (suc (suc (suc (suc zero)))))) h = refl
pow_split (suc (suc (suc (suc (suc (suc (suc zero))))))) h = refl
pow_split (suc (suc (suc (suc (suc (suc (suc (suc n)))))))) h = absurd (omega arith)

pub to_nat-lt : (b : Bool) → to_nat b < 2
to_nat-lt b = ground arith

pub push_bit_lem : (x : ℕ) (bit : Bool) → x < 128 → push_bit x bit ≡ x * 2 + to_nat bit
unfolding push_bit
push_bit_lem x bit h =
    let small : x * 2 % 256 ≡ x * 2 = omega arith in
    rw small (bit_or_digit x (to_nat bit) (to_nat-lt bit))

-- `2 ^ (7 - n)` is the weight of the digit that the loops reach at `n`.
module _ (n : ℕ) (h : n < 8) where
  pub weight_double : 2 ^ (8 - n) ≡ 2 ^ (7 - n) * 2
  weight_double = let e : 8 - n ≡ suc (7 - n) = omega arith in rw e (pow-suc 2 (7 - n))

  pub weight_pos : 0 < 2 ^ (7 - n)
  weight_pos = one-le-pow (7 - n) 2 (omega arith)

  pub fits_byte : (x : ℕ) → x < 2 ^ n → x * 2 ^ (8 - n) < 256
  fits_byte x hx =
      rw (← pow_split n h) (mul-lt-mul_of_pos_right hx (omega (arith, weight_double, weight_pos)))

  pub lt_half : (x : ℕ) → x < 2 ^ n → x < 128
  lt_half x hx =
      let wide = fits_byte x hx in
      let double = ap (λ (t : ℕ). x * t) weight_double in
      let grows : x * 1 ≤ x * 2 ^ (7 - n) = grind (arith, weight_pos) in omega arith

-- The digit that the loop has just appended.
pub test_digit :
    (y q : ℕ) (x : ℕ) (bit : Bool)
    → 0 < q
    → y / q ≡ x * 2 + to_nat bit
    → not (y / q % 2 * q == 0) ≡ bit
test_digit y q x true pos e = let odd : y / q % 2 ≡ 1 = omega arith in rw odd (ground arith)
test_digit y q x false pos e = let even : y / q % 2 ≡ 0 = omega arith in rw even (ground arith)

pub read_step :
    (n x y count : ℕ) (ys : Bytes) (bit : Bool) (bits : List Bool)
    → n < 8
    → y / 2 ^ (7 - n) ≡ x * 2 + to_nat bit
    → read_hits count (to_nat (n + 1 == 8)) (next n) (y ∷ ys) ≡ some bits
    → read_hits (suc count) 0 n (y ∷ ys) ≡ some (bit ∷ bits)
unfolding read_hits
read_step n x y count ys bit bits h e rest = rw (
  add.zero (to_nat (n + 1 == 8)),
  rest,
  bit_and_pow (7 - n) y,
  test_digit y (2 ^ (7 - n)) x bit (weight_pos n h) e,
)

-- A byte that starts with one digit more than `x` starts with `x`.
pub top_digits :
    (n x y : ℕ) (bit : Bool) → n < 8 → y / 2 ^ (7 - n) ≡ x * 2 + to_nat bit → y / 2 ^ (8 - n) ≡ x
top_digits n x y bit hn digit =
    y / 2 ^ (8 - n)
    ≡⟨ ap (λ (t : ℕ). y / t) (weight_double n hn) ⟩ y / (2 ^ (7 - n) * 2)
    ≡⟨ sym (div-div-eq-div-mul y (2 ^ (7 - n)) 2) ⟩ y / 2 ^ (7 - n) / 2
    ≡⟨ omega (arith, digit, to_nat-lt bit) ⟩ x ∎
