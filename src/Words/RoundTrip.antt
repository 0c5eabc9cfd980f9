-- ===== src/Words/RoundTrip.antt =====
-- bin/worddec.cc on what bin/wordenc.cc prints.
use pttp.Prelude.{
  ℕ, zero, suc, ◌+◌, ◌-◌, ◌*◌, ◌/◌, ◌%◌, ◌^◌, ◌≤◌, ◌<◌, ◌≡◌, refl, ap, sym, ◌∙◌, arith, List, [],
  ◌∷◌, ◌++◌, length, length-append, length-replicate, get_elem?, replicate, some, Bool, false,
  to_nat, ltb, ◌==◌, >>=-eq-some, Bool-cases, inl, inr, All,
}
use native.Mathlib.Nat.{pow-suc, zero-mul, add-zero, mul-le-mul_right}
use native.Mathlib.Numerals.{add-one}
use pttp.Prelude.Bits.{bit_or_weight}
use pttp.Bytes.{Bytes, equal, equal_sound, from_bits, to_bits}
use pttp.Bytes.Bitset.{to_bits-from_bits}
use pttp.Cipher.{Sodium, show, mask}
use pttp.Cipher.RoundTrip.{from_hex-show, mask_cancel}
use pttp.Words.{
  prints, find, digits, Loaded, loaded, load_words, output, wordenc, gather, read_words, worddec,
  set_size,
}

-- A word of the list stands at the place that `find` gives.
get_elem?-find :
    (words : List Bytes) (w : Bytes)
    → find words w < length words
    → get_elem? words (find words w) ≡ some w
unfolding find
get_elem?-find [] w h = absurd (omega arith)
get_elem?-find (x ∷ words) w h = elim (Bool-cases (equal x w)) [
  | inl same ↦ rw same (ap some (equal_sound x w same))
  | inr other ↦
      let inside : find words w + 1 < length (x ∷ words) = rw other at h in
      rw (other, add-one (find words w)) (get_elem?-find words w (omega arith))
]

gather-digits :
    (rounds k m x : ℕ) (rest : List Bool)
    → x < 2 ^ rounds
    → m < 2 ^ k
    → gather rounds k m (digits rounds x ++ rest) ≡ some (m + x * 2 ^ k, rest)
unfolding gather digits
gather-digits zero k m x rest h small =
    let none_left : x ≡ 0 = omega arith in rw (none_left, zero-mul (2 ^ k), add-zero m)
gather-digits (suc rounds) k m x rest h small =
    let bit : to_nat (x % 2 == 1) ≡ x % 2 = ground arith in
    let double : 2 ^ (k + 1) ≡ 2 ^ k * 2 = rw (add-one k) (pow-suc 2 k) in
    let halves : x ≡ x / 2 * 2 + x % 2 = omega arith in
    let weighed = ap (λ (t : ℕ). t * 2 ^ k) halves in
    let digit : x % 2 * 2 ^ k ≤ 1 * 2 ^ k = mul-le-mul_right (2 ^ k) (omega arith) in
    let rest' =
      gather-digits rounds (k + 1) (m + x % 2 * 2 ^ k) (x / 2) rest
        (omega (arith, pow-suc 2 rounds)) (omega arith) in
    let value : m + x % 2 * 2 ^ k + x / 2 * 2 ^ (k + 1) ≡ m + x * 2 ^ k = rw double (omega arith) in
    rw (bit, bit_or_weight k m (x % 2) (omega arith) small)
      (rest' ∙ ap (λ (t : ℕ). some (t, rest)) value)

length-digits : (rounds n : ℕ) → length (digits rounds n) ≡ rounds
unfolding digits
length-digits zero n = refl
length-digits (suc rounds) n = ap suc (length-digits rounds (n / 2))

-- `find` finds every word.
abbrev pub AreKnown : List Bytes → List Bytes → Type 0
AreKnown words ws = All (λ w. find words w < length words) ws

-- The loaded bits fill the room, and the words can be read from them.
Reads : List Bytes → List Bytes → ℕ → Loaded → Type 0
Reads words ws room run =
    (bits : List Bool) × (run ≡ loaded bits)
    × (length bits ≡ room)
    × (read_words words (length ws) bits ≡ some ws)

Reads-cons :
    (words ws : List Bytes) (w : Bytes) (room : ℕ)
    → find words w < 2048
    → find words w < length words
    → 11 ≤ room
    → Reads words ws (room - 11) (load_words words ws (room - 11))
    → Reads words (w ∷ ws) room (load_words words (w ∷ ws) room)
unfolding Reads load_words read_words
Reads-cons words ws w room small known fits (bits, ran, filled, read) =
    let n = find words w in
    let found : n == length words ≡ false = ground (arith, known) in
    let roomy : ltb room 11 ≡ false = ground arith in
    let taken = gather-digits 11 0 0 n bits small (omega arith) in
    let number : 0 + n * 2 ^ 0 ≡ n = omega arith in
    (
      digits 11 n ++ bits,
      rw (found, roomy, ran),
      omega (arith, length-append (digits 11 n) bits, length-digits 11 n),
      rw (taken, number, get_elem?-find words w known, read),
    )

load_words-Reads :
    (words ws : List Bytes) (room : ℕ)
    → length words ≤ 2048
    → AreKnown words ws
    → 11 * length ws ≤ room
    → Reads words ws room (load_words words ws room)
load_words-Reads words [] room small known fits =
    unfold Reads load_words read_words in
    (replicate room false, refl, length-replicate room false, refl)
load_words-Reads words (w ∷ ws) room small known fits =
    Reads-cons words ws w room (omega (arith, known.0)) known.0 (omega arith)
      (load_words-Reads words ws (room - 11) small known.1 (omega arith))

module _ (sodium : Sodium) (words ws : List Bytes) (pass salt : Bytes) where
  -- `wordenc` prints two texts from which `worddec` prints the words.
  abbrev pub ComesBack : Type 0
  ComesBack =
      (msg_hex : Bytes) × (salt_hex : Bytes) × (wordenc sodium words ws pass salt
        ≡ prints msg_hex salt_hex)
      × (worddec sodium words msg_hex salt_hex pass ≡ some ws)

  masked_back :
      (bits : List Bool) (b : Bytes)
      → load_words words ws set_size ≡ loaded bits
      → from_bits bits ≡ some b
      → to_bits set_size b ≡ some bits
      → read_words words 24 bits ≡ some ws
      → (c : Bytes) × (mask sodium b pass salt ≡ some c) × (mask sodium c pass salt ≡ some b)
      → ComesBack
  unfolding wordenc worddec output
  masked_back bits b ran packed unpacked read (c, masked, back) = (
    show sodium c,
    show sodium salt,
    ground arith,
    rw (from_hex-show sodium c, from_hex-show sodium salt, back, unpacked, read),
  )

  bits_back :
      (bits : List Bool)
      → load_words words ws set_size ≡ loaded bits
      → length bits ≡ set_size
      → read_words words 24 bits ≡ some ws
      → ComesBack
  bits_back bits ran filled read =
      let (b, packed, unpacked) =
        >>=-eq-some (from_bits bits) (λ b. to_bits (length bits) b)
          (to_bits-from_bits bits (omega arith)) in
      let sized : to_bits set_size b ≡ to_bits (length bits) b =
        ap (λ n. to_bits n b) (sym filled) in
      masked_back bits b ran packed (sized ∙ unpacked) read (mask_cancel sodium b pass salt)

  reads_back : length ws ≡ 24 → Reads words ws set_size (load_words words ws set_size) → ComesBack
  unfolding Reads
  reads_back count (bits, ran, filled, read) =
      bits_back bits ran filled (ap (λ n. read_words words n bits) (sym count) ∙ read)

  -- For 24 words of a list of at most 2048, `wordenc` prints two texts, and `worddec` on these with
  -- the same password prints the words.
  pub worddec-wordenc : length words ≤ 2048 → length ws ≡ 24 → AreKnown words ws → ComesBack
  worddec-wordenc small count known =
      reads_back count (load_words-Reads words ws set_size small known (omega arith))
