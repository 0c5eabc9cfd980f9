-- ===== src/Bytes/Bitset.antt =====
-- The constructor of `Bytes` from `std::bitset` against `bitset()`, and `x_or` twice.
use pttp.Prelude.{
  ℕ, zero, suc, ◌+◌, ◌-◌, ◌*◌, ◌/◌, ◌%◌, ◌^◌, ◌<◌, ◌≡◌, refl, ◌∙◌, arith, bit_or, List, [], ◌∷◌,
  length, replicate, Option, some, Bool, false, ◌==◌, ==_iff, to_nat, ltb, ◌>>=◌, >>=-eq-some,
  Bool-cases, inl, inr, Option-cases, bit_xor,
}
use Prim.Native.Nat.add
use native.Mathlib.Nat.{pow-suc}
use native.Mathlib.Numerals.{add-one}
use pttp.Prelude.Bits.{bit_or_digit, bit_xor_cancel}
use pttp.Bloom.{next, read_hits}
use pttp.Bloom.Encoding.Weights.{read_step, top_digits, lt_half, to_nat-lt}
use pttp.Bloom.Encoding.Steps.{read_hits_offset}
use pttp.Bytes.{Bytes, update_at, x_or, pack, from_bits, unpack, to_bits}

-- Two runs of `x_or` with one key give back what they started from.
pub x_or_cancel :
    (xs key : Bytes) → length xs ≡ length key → (x_or xs key >>= λ ys. x_or ys key) ≡ some xs
unfolding x_or
x_or_cancel [] [] h = refl
x_or_cancel [] (k ∷ key) h = absurd (omega arith)
x_or_cancel (x ∷ xs) [] h = absurd (omega arith)
x_or_cancel (x ∷ xs) (k ∷ key) h =
    let (zs, ran, back) =
      >>=-eq-some (x_or xs key) (λ ys. x_or ys key) (x_or_cancel xs key (omega arith)) in
    rw (ran, back, bit_xor_cancel x k)

mask_fits : (n : ℕ) → n < 8 → 2 ^ (7 - n) % 256 ≡ 2 ^ (7 - n)
mask_fits zero h = refl
mask_fits (suc zero) h = refl
mask_fits (suc (suc zero)) h = refl
mask_fits (suc (suc (suc zero))) h = refl
mask_fits (suc (suc (suc (suc zero)))) h = refl
mask_fits (suc (suc (suc (suc (suc zero))))) h = refl
mask_fits (suc (suc (suc (suc (suc (suc zero)))))) h = refl
mask_fits (suc (suc (suc (suc (suc (suc (suc zero))))))) h = refl
mask_fits (suc (suc (suc (suc (suc (suc (suc (suc n)))))))) h = absurd (omega arith)

-- On whole bytes the set is read as a filter reads its hits.
unpack-read_hits :
    (left size i idx n : ℕ) (b : Bytes)
    → size % 8 ≡ 0
    → i + left ≡ size
    → n < 8
    → unpack left size i idx n b ≡ read_hits left idx n b
unfolding unpack read_hits
unpack-read_hits zero size i idx n b whole e h = refl
unpack-read_hits (suc left) size i idx n b whole e h =
    let inside : i / 8 == size / 8 ≡ false = ground arith in
    let rest =
      unpack-read_hits left size (i + 1) (idx + to_nat (n + 1 == 8)) (next n) b whole (omega arith)
        (ground arith) in
    rw (inside, mask_fits n h, rest)

push_fits :
    (n u : ℕ) (bit : Bool)
    → n < 8
    → u < 2 ^ n
    → bit_or (u * 2) (to_nat bit) % 256 ≡ u * 2 + to_nat bit
push_fits n u bit h small =
    let half = lt_half n h u small in
    rw (bit_or_digit u (to_nat bit) (to_nat-lt bit)) (omega (arith, to_nat-lt bit))

pack_offset :
    (bits : List Bool) (idx n u y : ℕ) (b : Bytes)
    → pack bits (suc idx) n u (y ∷ b) ≡ (pack bits idx n u b >>= λ b'. some (y ∷ b'))
unfolding pack update_at
pack_offset [] idx n u y b =
    let same : ltb (suc idx) (suc (length b)) ≡ ltb idx (length b) = ground arith in
    elim (Bool-cases (ltb idx (length b))) [ inl e ↦ rw (same, e) | inr e ↦ rw (same, e) ]
pack_offset (bit ∷ bits) idx n u y b = elim (Bool-cases (n + 1 == 8)) [
  | inr more ↦ rw more (pack_offset bits idx (n + 1) (bit_or (u * 2) (to_nat bit) % 256) y b)
  | inl full ↦ elim (Option-cases (update_at b idx (λ _. bit_or (u * 2) (to_nat bit) % 256))) [
    | inl e ↦ rw (full, e)
    | inr (b', e) ↦ rw (full, e, add.suc idx) (pack_offset bits (idx + 1) 0 0 y b')
  ]
]

-- A packed run whose first byte starts with the digits of `u`, and from which `bits` are read back.
Packs : ℕ → ℕ → ℕ → List Bool → Option Bytes → Type 0
Packs n u k bits run =
    (ys : Bytes) × (run ≡ some ys)
    × (0 < k → (y : ℕ) × (zs : Bytes) × (ys ≡ y ∷ zs) × (y / 2 ^ (8 - n) ≡ u))
    × (read_hits (length bits) 0 n ys ≡ some bits)

Packs-full :
    (u k : ℕ) (bit : Bool) (bits : List Bool)
    → u < 128
    → Packs 0 0 k bits (pack bits 0 0 0 (replicate k 0))
    → Packs 7 u (suc k) (bit ∷ bits) (pack (bit ∷ bits) 0 7 u (replicate (suc k) 0))
unfolding Packs pack update_at
Packs-full u k bit bits small (ys, ran, top, read) =
    let y = u * 2 + to_nat bit in
    let whole : y / 1 ≡ y = omega arith in
    (
      y ∷ ys,
      rw (push_fits 7 u bit (omega arith) small, pack_offset bits 0 0 0 y (replicate k 0), ran),
      (λ _. (y, ys, refl, omega (arith, to_nat-lt bit))),
      read_step 7 u y (length bits) ys bit bits (omega arith) whole
          (read_hits_offset (length bits) 0 0 y ys ∙ read),
    )

Packs-step :
    (n u k : ℕ) (bit : Bool) (bits : List Bool)
    → n < 7
    → u < 2 ^ n
    → Packs
        (suc n)
        (u * 2 + to_nat bit)
        (suc k)
        bits
        (pack bits 0 (suc n) (u * 2 + to_nat bit) (replicate (suc k) 0))
    → Packs n u (suc k) (bit ∷ bits) (pack (bit ∷ bits) 0 n u (replicate (suc k) 0))
unfolding Packs pack
Packs-step n u k bit bits h small (ys, ran, top, read) =
    let hn : n < 8 = omega arith in
    let (y, zs, e, digits) = top (omega arith) in
    let same : 8 - suc n ≡ 7 - n = omega arith in
    let digit : y / 2 ^ (7 - n) ≡ u * 2 + to_nat bit = rw same at digits in
    let room : n + 1 == 8 ≡ false = ground arith in
    (
      ys,
      rw (room, add-one n, push_fits n u bit hn small) ran,
      (λ _. (y, zs, e, top_digits n u y bit hn digit)),
      rw e (
          read_step n u y (length bits) zs bit bits hn digit (rw (room, add-one n) (rw e at read))),
    )

pack-Packs :
    (n u k : ℕ) (bits : List Bool)
    → n < 8
    → u < 2 ^ n
    → n + length bits ≡ 8 * k
    → Packs n u k bits (pack bits 0 n u (replicate k 0))
pack-Packs n u zero [] h small e =
    unfold Packs pack read_hits in ([], refl, λ none_left. absurd (omega arith), refl)
pack-Packs n u zero (bit ∷ bits) h small e = absurd (omega arith)
pack-Packs n u (suc k) [] h small e = absurd (omega arith)
pack-Packs n u (suc k) (bit ∷ bits) h small e = elim (Bool-cases (n == 7)) [
  | inl last ↦
      let seven : n ≡ 7 = (==_iff n 7).0 last in
      rw seven (
        Packs-full u k bit bits (lt_half n h u small)
          (pack-Packs 0 0 k bits (omega arith) (omega arith) (omega arith)))
  | inr more ↦
      let room : n < 7 = ground arith in
      let grown : u * 2 + to_nat bit < 2 ^ suc n = omega (arith, pow-suc 2 n, to_nat-lt bit) in
      Packs-step n u k bit bits room small
        (pack-Packs (suc n) (u * 2 + to_nat bit) (suc k) bits (omega arith) grown (omega arith))
]

unpacks :
    (k : ℕ) (bits : List Bool)
    → length bits % 8 ≡ 0
    → (length bits + 1) / 8 ≡ k
    → Packs 0 0 k bits (pack bits 0 0 0 (replicate k 0))
    → (from_bits bits >>= λ b. to_bits (length bits) b) ≡ some bits
unfolding from_bits to_bits Packs
unpacks k bits whole width (ys, ran, top, read) =
    let bytes =
      unpack-read_hits (length bits) (length bits) 0 0 0 ys whole (omega arith) (omega arith) in
    rw (width, ran) (bytes ∙ read)

-- A bit set whose size is a multiple of eight is packed into bytes, from which the same bits come
-- back: neither run reads or writes out of range.
pub to_bits-from_bits :
    (bits : List Bool)
    → length bits % 8 ≡ 0
    → (from_bits bits >>= λ b. to_bits (length bits) b) ≡ some bits
to_bits-from_bits bits whole =
    unpacks (length bits / 8) bits whole (omega arith)
      (pack-Packs 0 0 (length bits / 8) bits (omega arith) (omega arith) (omega arith))

pub length-x_or : (xs key : Bytes) {zs : Bytes} → x_or xs key ≡ some zs → length zs ≡ length xs
unfolding x_or
length-x_or [] [] h = ground arith
length-x_or [] (k ∷ key) h = cc
length-x_or (x ∷ xs) [] h = cc
length-x_or (x ∷ xs) (k ∷ key) h =
    let (ws, ran, e) = >>=-eq-some (x_or xs key) (λ ws. some (bit_xor x k ∷ ws)) h in
    let rest = length-x_or xs key ran in ground arith
