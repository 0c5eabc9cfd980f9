-- ===== src/Prelude/Bits.antt =====
-- Laws of `&`, `|` and `^` on machine words of any width, from the recursion on binary digits.
use Prim.Native.Nat.{
  ℕ, zero, suc, ◌+◌, ◌*◌, ◌/◌, ◌%◌, ◌^◌, ◌≤◌, ◌<◌, min, max, bit_and, bit_or, bit_xor, digits,
  differ, differ, bitwise, bit_and-bitwise, bit_or-bitwise, bit_xor-bitwise,
}
use mathlib.Core.Path.{◌≡◌, refl, ap, ap₂, ◌∙◌}
use native.Mathlib.Omega.{arith}
use native.Mathlib.Nat.{le_refl, zero-mul, one-mul, pow-suc, div-div-eq-div-mul}

module _ (rest : ℕ → ℕ) (combine : ℕ → ℕ → ℕ) where
  -- The value on which all runs with enough fuel agree.
  settled :
      (bound x y : ℕ)
      → x ≤ bound
      → (v : ℕ) × ((fuel : ℕ) → x ≤ fuel → digits rest combine fuel x y ≡ v)
  settled bound zero y small = (rest y, no_digits)
    where
      no_digits : (fuel : ℕ) → zero ≤ fuel → digits rest combine fuel zero y ≡ rest y
      no_digits zero enough = refl
      no_digits (suc fuel) enough = refl
  settled zero (suc x) y small = absurd (omega arith)
  settled (suc bound) (suc x) y small =
      let (v, agree) = settled bound (suc x / 2) (y / 2) (omega arith) in
      (v * 2 + combine (suc x % 2) (y % 2), more v agree)
    where
      more :
          (v : ℕ)
          → ((fuel : ℕ) → suc x / 2 ≤ fuel → digits rest combine fuel (suc x / 2) (y / 2) ≡ v)
          → (fuel : ℕ) → suc x ≤ fuel
          → digits rest combine fuel (suc x) y ≡ v * 2 + combine (suc x % 2) (y % 2)
      more v agree zero enough = absurd (omega arith)
      more v agree (suc fuel) enough = rw (agree fuel (omega arith))

  -- The lowest digit, and the others.
  halves :
      (x y : ℕ)
      → bitwise rest combine (suc x) y
        ≡ combine (suc x % 2) (y % 2) + bitwise rest combine (suc x / 2) (y / 2) * 2
  halves x y =
      let (v, agree) = settled (suc x / 2) (suc x / 2) (y / 2) (le_refl _) in
      omega (arith, agree x (omega arith), agree (suc x / 2) (le_refl _))

bit_or_halves : (x y : ℕ) → bit_or x y ≡ max (x % 2) (y % 2) + bit_or (x / 2) (y / 2) * 2
bit_or_halves zero y = simp bit_or-bitwise (omega arith)
bit_or_halves (suc x) y = simp bit_or-bitwise (halves (λ t. t) max x y)

bit_and_halves : (x y : ℕ) → bit_and x y ≡ min (x % 2) (y % 2) + bit_and (x / 2) (y / 2) * 2
bit_and_halves zero y = simp bit_and-bitwise (omega arith)
bit_and_halves (suc x) y = simp bit_and-bitwise (halves (λ t. 0) min x y)

bit_xor_halves : (x y : ℕ) → bit_xor x y ≡ differ (x % 2) (y % 2) + bit_xor (x / 2) (y / 2) * 2
bit_xor_halves zero y = simp bit_xor-bitwise (omega arith)
bit_xor_halves (suc x) y = simp bit_xor-bitwise (halves (λ t. t) differ x y)

-- What an operation does with zero, where it keeps a word or drops it digit by digit.
bit_or-below : (bound x : ℕ) → x ≤ bound → bit_or x 0 ≡ x
bit_or-below bound zero small = refl
bit_or-below zero (suc x) small = absurd (omega arith)
bit_or-below (suc bound) (suc x) small =
    omega (bit_or-below bound (suc x / 2) (omega arith), bit_or_halves (suc x) 0, arith)

bit_and-below : (bound x : ℕ) → x ≤ bound → bit_and x 0 ≡ 0
bit_and-below bound zero small = refl
bit_and-below zero (suc x) small = absurd (omega arith)
bit_and-below (suc bound) (suc x) small =
    omega (bit_and-below bound (suc x / 2) (omega arith), bit_and_halves (suc x) 0, arith)

div_two : (x : ℕ) → x * 2 / 2 ≡ x
div_two x = omega arith

-- `(x << 1) | bit` appends a digit.
pub bit_or_digit : (x d : ℕ) → d < 2 → bit_or (x * 2) d ≡ x * 2 + d
bit_or_digit x d h = omega (
  arith,
  bit_or_halves (x * 2) d,
  ap₂ bit_or (div_two x) (half_zero d h),
  bit_or-below x x (le_refl x),
)
  where
    half_zero : (d : ℕ) → d < 2 → d / 2 ≡ 0
    half_zero d h = omega arith

bit_and-one : (a : ℕ) → bit_and a 1 ≡ a % 2
bit_and-one a = omega (arith, bit_and_halves a 1, bit_and-below (a / 2) (a / 2) (le_refl _))

bit_and_twice : (x q : ℕ) → bit_and x (q * 2) ≡ bit_and (x / 2) q * 2
bit_and_twice x q = omega (arith, bit_and_halves x (q * 2), ap (bit_and (x / 2)) (div_two q))

-- `x & (1 << k)` keeps the digit of weight `2 ^ k`.
pub bit_and_pow : (k x : ℕ) → bit_and x (2 ^ k) ≡ x / 2 ^ k % 2 * 2 ^ k
bit_and_pow zero x = rw (bit_and-one x) (omega arith)
bit_and_pow (suc k) x =
    let e : 2 ^ suc k ≡ 2 ^ k * 2 = pow-suc 2 k in
    let shifted : x / 2 / 2 ^ k ≡ x / (2 ^ k * 2) =
      div-div-eq-div-mul x 2 (2 ^ k) ∙ ap (λ (t : ℕ). x / t) (omega arith) in
    rw (e, bit_and_twice x (2 ^ k), bit_and_pow k (x / 2), shifted) (omega arith)

-- `m | (d << k)` adds a digit above the digits of `m`.
bit_or_pow : (k m : ℕ) → m < 2 ^ k → bit_or m (2 ^ k) ≡ m + 2 ^ k
bit_or_pow zero m h = let e : m ≡ 0 = omega arith in rw e
bit_or_pow (suc k) m h =
    let e : 2 ^ suc k ≡ 2 ^ k * 2 = pow-suc 2 k in
    let step = bit_or_halves m (2 ^ k * 2) in
    let halves = ap (bit_or (m / 2)) (div_two (2 ^ k)) in
    let rest = bit_or_pow k (m / 2) (omega arith) in rw e (omega arith)

pub bit_or_weight : (k m d : ℕ) → d < 2 → m < 2 ^ k → bit_or m (d * 2 ^ k) ≡ m + d * 2 ^ k
bit_or_weight k m zero h small = rw (zero-mul (2 ^ k)) (bit_or-below m m (le_refl m) ∙ omega arith)
bit_or_weight k m (suc zero) h small = rw (one-mul (2 ^ k)) (bit_or_pow k m small)
bit_or_weight k m (suc (suc d)) h small = absurd (omega arith)

differ-lt : (x y : ℕ) → x < 2 → y < 2 → differ x y < 2
differ-lt zero y h k = k
differ-lt (suc x) zero h k = h
differ-lt (suc zero) (suc zero) h k = omega arith
differ-lt (suc zero) (suc (suc y)) h k = absurd (omega arith)
differ-lt (suc (suc x)) (suc y) h k = absurd (omega arith)

differ_cancel : (x y : ℕ) → x < 2 → y < 2 → differ (differ x y) y ≡ x
differ_cancel zero zero h k = refl
differ_cancel zero (suc zero) h k = refl
differ_cancel (suc zero) zero h k = refl
differ_cancel (suc zero) (suc zero) h k = refl
differ_cancel zero (suc (suc y)) h k = absurd (omega arith)
differ_cancel (suc zero) (suc (suc y)) h k = absurd (omega arith)
differ_cancel (suc (suc x)) y h k = absurd (omega arith)

bit_xor_digits :
    (a b : ℕ)
    → (bit_xor a b / 2 ≡ bit_xor (a / 2) (b / 2)) × (bit_xor a b % 2 ≡ differ (a % 2) (b % 2))
bit_xor_digits a b =
    let e = bit_xor_halves a b in
    let small = differ-lt (a % 2) (b % 2) (omega arith) (omega arith) in (omega arith, omega arith)

-- Masking a word twice with the same key gives it back.
bit_xor_cancel_fuel : (n a b : ℕ) → a + b ≤ n → bit_xor (bit_xor a b) b ≡ a
bit_xor_cancel_fuel zero a b h =
    let ea : a ≡ 0 = omega arith in let eb : b ≡ 0 = omega arith in rw (ea, eb)
bit_xor_cancel_fuel (suc n) zero zero h = refl
bit_xor_cancel_fuel (suc n) a b h =
    let (half, low) = bit_xor_digits a b in
    rw
      (
        bit_xor_halves (bit_xor a b) b,
        half,
        low,
        bit_xor_cancel_fuel n (a / 2) (b / 2) (omega arith),
        differ_cancel (a % 2) (b % 2) (omega arith) (omega arith),
      )
      (omega arith)

pub bit_xor_cancel : (a b : ℕ) → bit_xor (bit_xor a b) b ≡ a
bit_xor_cancel a b = bit_xor_cancel_fuel (a + b) a b (le_refl _)
