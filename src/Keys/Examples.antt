-- ===== src/Keys/Examples.antt =====
-- A nonce of two bytes, and a concrete increment that carries.
use pttp.Prelude.{
  ℕ, suc, ◌+◌, ◌*◌, ◌%◌, ◌^◌, ◌<◌, ◌≡◌, refl, sym, ap, ◌∙◌, arith, [], ◌∷◌, length, true, ◌↔◌, ◌==◌,
  if◌then◌else◌, Bool-cases, inl, inr, ltb, ltb→lt,
}
use native.Mathlib.Nat.{mod-eq_of_lt, mod_self, pow-suc}
use pttp.Prelude.Int.{pos}
use pttp.Bytes.{Bytes, IsBytes, equal}
use pttp.Keys.{little_endian, SodiumUtils, bytes_equal}
use pttp.Keys.Increments.{little_endian-lt, incremented, bytes_equal-increment}

abbrev carry : Bytes → Bytes
carry [] = []
carry (x ∷ xs) = if x == 255 then 0 ∷ carry xs else (x + 1) ∷ xs

length-carry : (b : Bytes) → length (carry b) ≡ length b
length-carry [] = refl
length-carry (x ∷ xs) = elim (Bool-cases (x == 255)) [
  | inl e ↦ rw e (ap suc (length-carry xs))
  | inr e ↦ rw e refl
]

carry-IsBytes : (b : Bytes) → IsBytes b → IsBytes (carry b)
carry-IsBytes [] small = tt
carry-IsBytes (x ∷ xs) small = elim (Bool-cases (x == 255)) [
  | inl e ↦ rw e (omega arith, carry-IsBytes xs small.1)
  | inr e ↦ rw e (ground (arith, e, small.0), small.1)
]

-- A carry out of the lowest byte is a sum modulo the size of the others.
wrap : (v m : ℕ) → v < m → 0 + 256 * ((v + 1) % m) ≡ (255 + 256 * v + 1) % (m * 256)
wrap v m below = elim (Bool-cases (ltb (v + 1) m)) [
  | inl inside ↦
      let low = mod-eq_of_lt {n = v + 1} {m = m} (ltb→lt _ _ inside) in
      let high =
        mod-eq_of_lt {n = 255 + 256 * v + 1} {m = m * 256} (omega (arith, ltb→lt _ _ inside)) in
      omega (arith, low, high)
  | inr outside ↦
      let top : v + 1 ≡ m = ground (arith, outside, below) in
      let all : 255 + 256 * v + 1 ≡ m * 256 = omega (arith, top) in
      rw (top, all, mod_self m, mod_self (m * 256)) (omega arith)
]

little_endian-carry :
    (b : Bytes) → IsBytes b → little_endian (carry b) ≡ (little_endian b + 1) % 256 ^ length b
unfolding little_endian
little_endian-carry [] small = refl
little_endian-carry (x ∷ xs) small = elim (Bool-cases (x == 255)) [
  | inl e ↦
      let top : x ≡ 255 = ground (arith, e) in
      rw (e, little_endian-carry xs small.1, pow-suc 256 (length xs), top)
        (wrap (little_endian xs) (256 ^ length xs) (little_endian-lt xs small.1))
  | inr e ↦ rw e (
      let low : x < 255 = ground (arith, e, small.0) in
      sym (mod-eq_of_lt (omega (arith, low, little_endian-lt xs small.1, pow-suc 256 (length xs))))
      ∙ ap (λ v. v % 256 ^ suc (length xs)) (omega arith))
]

abbrev carrying : SodiumUtils
carrying = record {
  memcmp = equal;
  compare = λ a b. pos 0;
  add_one = carry;
  memcmp-equal = λ a b size. refl;
  length-add_one = length-carry;
  add_one-IsBytes = carry-IsBytes;
  little_endian-add_one = little_endian-carry;
}

bytes_equal-increment_example :
    (bytes_equal carrying
        (incremented carrying 3 (254 ∷ 7 ∷ []))
        (incremented carrying (3 + 300) (254 ∷ 7 ∷ []))
      ≡ true)
    ↔ (300 % 256 ^ 2 ≡ 0)
bytes_equal-increment_example =
    bytes_equal-increment carrying (254 ∷ 7 ∷ []) 3 300 (omega arith, (omega arith, tt))
