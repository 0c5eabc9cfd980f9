-- ===== src/Bech32/Digits.antt =====
-- inc/convert.h, `bytes_to_bech32`: its 5-bit digits against the number that the bytes write.
use pttp.Prelude.{
  ℕ, zero, suc, ◌+◌, ◌-◌, ◌*◌, ◌/◌, ◌%◌, ◌^◌, ◌≤◌, ◌<◌, ◌≡◌, refl, sym, ◌∙◌, arith, List, [], ◌∷◌,
  length, get_elem?, get_or, drop, Option, some, true, false, ltb, ltb→lt, leb, ◌==◌, Bool-cases,
  dec_lt, inl, inr, All,
}
use native.Mathlib.Nat.{zero-mul, add-zero, zero-div}
use pttp.Bytes.{Bytes, IsBytes}
use pttp.Bloom.{load}
use pttp.Bech32.{add_byte, refill, regroup, enc5}
use pttp.Bech32.Step.{same_byte, next_byte}

get_elem?-get_or : (b : Bytes) (i : ℕ) → i < length b → get_elem? b i ≡ some (get_or b i 0)
get_elem?-get_or [] i h = absurd (omega arith)
get_elem?-get_or (x ∷ b) zero h = refl
get_elem?-get_or (x ∷ b) (suc i) h = get_elem?-get_or b i (omega arith)

load-drop :
    (b : Bytes) (k : ℕ)
    → IsBytes b
    → (get_or b k 0 < 256) × (load (drop k b) ≡ get_or b k 0 + load (drop (suc k) b) * 256)
unfolding load
load-drop [] zero h = (omega arith, refl)
load-drop [] (suc k) h = (omega arith, refl)
load-drop (x ∷ b) zero h = (h.0, refl)
load-drop (x ∷ b) (suc k) h = load-drop b k h.1

load-drop_past : (b : Bytes) (k : ℕ) → length b ≤ k → load (drop k b) ≡ 0
unfolding load
load-drop_past [] zero h = refl
load-drop_past [] (suc k) h = refl
load-drop_past (x ∷ b) zero h = absurd (omega arith)
load-drop_past (x ∷ b) (suc k) h = load-drop_past b k (omega arith)

-- The number that the bytes write, without its lowest `l` bits.
above : Bytes → ℕ → ℕ
above b l = load (drop (l / 8) b) / 2 ^ (l % 8)

-- At a round's start `n` holds what is left of the byte that bit `l` stands in.
abbrev Ready : Bytes → ℕ → ℕ → ℕ → Type 0
Ready b l n last = (n ≡ get_or b (l / 8) 0 / 2 ^ (l % 8)) × (last ≡ l / 8)

-- A round gives the five bits from `l` on, and is ready for the next unless the bytes end.
Round : Bytes → ℕ → Option (ℕ × ℕ) → Type 0
Round b l result =
    (n : ℕ) × (last : ℕ) × (result ≡ some (n, last))
    × (n % 32 ≡ above b l % 32)
    × (above b l / 32 ≡ above b (l + 5))
    × ((l + 5) / 8 < length b → Ready b (l + 5) (n / 32) last)

module _ (b : Bytes) (small : IsBytes b) (l n last : ℕ) (ready : Ready b l n last) where
  refill_same : l % 8 < 3 → Round b l (refill (l + 5) n last b)
  unfolding Round refill above
  refill_same h =
      let k = l / 8 in
      let there : (l + 5) / 8 ≡ k = omega arith in
      let bit : (l + 5) % 8 ≡ l % 8 + 5 = omega arith in
      let (x_small, split) = load-drop b k small in
      let (five, carry, rest) =
        same_byte (l % 8) (get_or b k 0) (load (drop (suc k) b)) h x_small in
      (
        n,
        last,
        ground arith,
        rw (ready.0, split) five,
        rw (there, bit, split) rest,
        (λ inside. (rw (ready.0, there, bit) carry, ready.1 ∙ sym there)),
      )

  refill_next : 3 ≤ l % 8 → Round b l (refill (l + 5) n last b)
  unfolding Round refill above add_byte
  refill_next h =
      let k = l / 8 in
      let there : (l + 5) / 8 ≡ suc k = omega arith in
      let bit : (l + 5) % 8 ≡ l % 8 - 3 = omega arith in
      let width : 5 - (l % 8 - 3) ≡ 8 - l % 8 = omega arith in
      let shifts : ltb 5 (l % 8 - 3) ≡ false = ground arith in
      let moved : suc k == last ≡ false = ground arith in
      let (x_small, split) = load-drop b k small in
      let (y_small, split') = load-drop b (suc k) small in
      let y : load (drop (suc k) b) % 256 ≡ get_or b (suc k) 0 = omega arith in
      let (five, carry, rest) =
        next_byte (l % 8) (get_or b k 0) (load (drop (suc k) b)) h (omega arith) x_small in
      elim (Bool-cases (ltb (suc k) (length b))) [
        | inl more ↦ (
          n + get_or b (suc k) 0 * 2 ^ (8 - l % 8),
          suc k,
          rw (there, moved, more, get_elem?-get_or b (suc k) (ltb→lt _ _ more), bit, shifts, width),
          rw (ready.0, split, ← y) five,
          rw (there, bit, split) rest,
          (λ inside. (rw (ready.0, there, bit, ← y) carry, sym there)),
        )
        | inr end ↦
            let none_left : load (drop (suc k) b) ≡ 0 = load-drop_past b (suc k) (ground arith) in
            let gone : load (drop (suc k) b) % 256 * 2 ^ (8 - l % 8) ≡ 0 =
              rw none_left (zero-mul (2 ^ (8 - l % 8))) in
            (
              n,
              last,
              rw (there, end) (ground arith),
              rw (ready.0, split) (rw (gone, add-zero) at five),
              rw (there, bit, split) rest,
              (λ inside. absurd (ground arith)),
            )
      ]

  refill-Round : Round b l (refill (l + 5) n last b)
  refill-Round = elim (dec_lt (l % 8) 3) [
    | yes h ↦ refill_same h
    | no h ↦ refill_next (omega arith)
  ]

-- The number that digits to base 32 write, the lowest first.
unfoldable pub from_digits : List ℕ → ℕ
from_digits [] = 0
from_digits (d ∷ ds) = d + from_digits ds * 32

-- Digits to base 32 for `v`, as many as `bits` bits take.
abbrev pub AreDigits : ℕ → ℕ → List ℕ → Type 0
AreDigits v bits ds = (from_digits ds ≡ v) × All (λ d. d < 32) ds × (length ds ≡ (bits + 4) / 5)

-- The loop succeeds with the digits of what is above bit `l`.
Regroups : Bytes → ℕ → Option (List ℕ) → Type 0
Regroups b l result =
    (ds : List ℕ) × (result ≡ some ds) × AreDigits (above b l) (8 * length b - l) ds

Regroups-cons :
    (b : Bytes) (l fuel n last : ℕ)
    → l / 8 < length b
    → Round b l (refill (l + 5) n last b)
    → ((n' last' : ℕ)
        → ((l + 5) / 8 < length b → Ready b (l + 5) n' last')
        → Regroups b (l + 5) (regroup fuel (l + 5) (l + 5 + 5) n' last' b))
    → Regroups b l (regroup (suc fuel) l (l + 5) n last b)
unfolding Regroups Round regroup from_digits
Regroups-cons b l fuel n last inside (n', last', ran, five, rest, ready) go =
    let (ds, ran', (value, digits, count)) = go (n' / 32) last' ready in
    let more : leb (length b) (l / 8) ≡ false = ground arith in
    ((n' % 32) ∷ ds, rw (more, ran, ran'), (omega arith, (omega arith, digits), omega arith))

regroup-Regroups :
    (fuel l n last : ℕ) (b : Bytes)
    → IsBytes b
    → l ≤ 8 * length b + 4
    → 8 * length b + 5 ≤ l + 5 * fuel
    → (l / 8 < length b → Ready b l n last)
    → Regroups b l (regroup fuel l (l + 5) n last b)
regroup-Regroups zero l n last b small bound fuel ready = absurd (omega arith)
regroup-Regroups (suc f) l n last b small bound fuel ready = elim (dec_lt (l / 8) (length b)) [
  | yes inside ↦
      Regroups-cons b l f n last inside (refill-Round b small l n last (ready inside))
        (λ n' last' ready'.
          regroup-Regroups f (l + 5) n' last' b small (omega arith) (omega arith) ready')
  | no outside ↦
      unfold Regroups regroup from_digits above in
      let over : leb (length b) (l / 8) ≡ true = ground arith in
      let gone = load-drop_past b (l / 8) (omega arith) in
      ([], rw over, (rw gone (sym (zero-div (2 ^ (l % 8)))), tt, omega arith))
]

-- `bytes_to_bech32` turns bytes, at least one, into the digits to base 32 of the number that they
-- write to base 256, lowest first: as many as their bits take, each below 32. The loop ends, and no
-- shift count is out of range.
pub enc5-AreDigits :
    (b : Bytes)
    → IsBytes b
    → 0 < length b
    → (ds : List ℕ) × (enc5 b ≡ some ds) × AreDigits (load b) (8 * length b) ds
unfolding enc5 Regroups above
enc5-AreDigits b small pos =
    let first = get_or b 0 0 in
    let start : first ≡ first / 1 = omega arith in
    let (ds, ran, (value, digits, count)) =
      regroup-Regroups (length b * 2 + 1) 0 first 0 b small (omega arith) (omega arith)
        (λ _. (start, refl)) in
    (ds, rw (get_elem?-get_or b 0 pos) ran, (omega arith, digits, omega arith))
