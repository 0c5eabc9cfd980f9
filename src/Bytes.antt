-- ===== src/Bytes.antt =====
-- inc/type.h: `Bytes`, a vector of `uint8_t`.
pub mod Bitset
mod Examples
use pttp.Prelude.{
  bit_and, bit_or, bit_xor, ◌+◌, ◌-◌, ◌*◌, ◌/◌, ◌%◌, ◌^◌, length, get_elem?, replicate, not, to_nat,
  ltb, if◌then◌else◌, ℕ, zero, suc, ◌<◌, ◌≡◌, refl, arith, List, [], ◌∷◌, Option, none, some, Bool,
  true, false, ◌&&◌, ◌==◌, ◌>>=◌,
}

abbrev pub Bytes : Type 0
Bytes = List ℕ

-- Every element is a `uint8_t`.
abbrev pub IsBytes : Bytes → Type 0
IsBytes [] = Unit
IsBytes (b ∷ bs) = (b < 256) × IsBytes bs

-- `operator==` of vectors.
unfoldable pub equal : Bytes → Bytes → Bool
equal [] [] = true
equal [] (y ∷ ys) = false
equal (x ∷ xs) [] = false
equal (x ∷ xs) (y ∷ ys) = x == y && equal xs ys

pub equal_sound : (xs ys : Bytes) → equal xs ys ≡ true → xs ≡ ys
unfolding equal
equal_sound [] [] h = refl
equal_sound [] (y ∷ ys) h = cc
equal_sound (x ∷ xs) [] h = cc
equal_sound (x ∷ xs) (y ∷ ys) h = ground (arith, equal_sound xs ys)

pub equal_refl : (xs : Bytes) → equal xs xs ≡ true
unfolding equal
equal_refl [] = refl
equal_refl (x ∷ xs) = ground (arith, equal_refl xs)

pub equal_complete : (xs ys : Bytes) → xs ≡ ys → equal xs ys ≡ true
equal_complete xs ys e = rw e (equal_refl ys)

-- `v[i] = f(v[i])`; an index out of range is undefined behaviour.
module _ {ℓ} {A : Type ℓ} where
  unfoldable pub update_at : List A → ℕ → (A → A) → Option (List A)
  update_at [] i f = none
  update_at (x ∷ xs) zero f = some (f x ∷ xs)
  update_at (x ∷ xs) (suc i) f = update_at xs i f >>= λ ys. some (x ∷ ys)

-- `x_or`; `none` is the failed assertion on sizes that differ.
unfoldable pub x_or : Bytes → Bytes → Option Bytes
x_or [] [] = some []
x_or [] (y ∷ ys) = none
x_or (x ∷ xs) [] = none
x_or (x ∷ xs) (y ∷ ys) = x_or xs ys >>= λ zs. some (bit_xor x y ∷ zs)

-- `Bytes(const char *c)`, on the characters in memory: those before the first zero.
unfoldable pub from_c_string : Bytes → Bytes
from_c_string [] = []
from_c_string (x ∷ xs) = let rest = from_c_string xs in if x == 0 then [] else x ∷ rest

-- `zero()`
unfoldable pub fill_zero : Bytes → Bytes
fill_zero b = replicate (length b) 0

-- The number of words, of eight bytes each, in what `kjwp()` hands to Cap'n Proto.
unfoldable pub kjwp_words : Bytes → ℕ
kjwp_words b = (length b + 1) / 2

-- `Bytes(std::bitset<N> &bits)`: the loop, with its `idx`, `n` and `u`, and the write after it.
pack : List Bool → ℕ → ℕ → ℕ → Bytes → Option Bytes
unfolding update_at
pack [] idx n u b = if ltb idx (length b) then update_at b idx (λ _. u) else some b
pack (bit ∷ bits) idx n u b =
    let u' = bit_or (u * 2) (to_nat bit) % 256 in
    let full = update_at b idx (λ _. u') >>= λ b'. pack bits (idx + 1) 0 0 b' in
    let more = pack bits idx (n + 1) u' b in if n + 1 == 8 then full else more

unfoldable pub from_bits : List Bool → Option Bytes
unfolding pack
from_bits bits = pack bits 0 0 0 (replicate ((length bits + 1) / 8) 0)

-- `bitset<N>()`: bits `i` to `N` of the set, `left` of them.
unpack : ℕ → ℕ → ℕ → ℕ → ℕ → Bytes → Option (List Bool)
unpack zero size i idx n b = some []
unpack (suc left) size i idx n b =
    let base = if i / 8 == size / 8 then size % 8 else 8 in
    let mask = 2 ^ (base - 1 - n) % 256 in
    get_elem? b idx >>= λ x.
    unpack left size (i + 1) (idx + to_nat (n + 1 == 8)) (if n + 1 == 8 then 0 else n + 1) b
    >>= λ rest. some (not (bit_and x mask == 0) ∷ rest)

unfoldable pub to_bits : ℕ → Bytes → Option (List Bool)
unfolding unpack
to_bits size b = unpack size size 0 0 0 b
