-- ===== src/Words.antt =====
-- bin/wordenc.cc and bin/worddec.cc: 24 words of a list as a masked text. The words of the file
-- words/english.txt are an argument, as the salt is.
pub mod RoundTrip
mod Examples
use pttp.Prelude.{
  ℕ, zero, suc, ◌+◌, ◌-◌, ◌*◌, ◌/◌, ◌%◌, ◌^◌, ◌≡◌, bit_or, List, [], ◌∷◌, ◌++◌, length, get_elem?,
  replicate, Option, none, some, Bool, true, false, to_nat, ltb, ◌==◌, if◌then◌else◌, ◌>>=◌,
}
use pttp.Bytes.{Bytes, equal, from_bits, to_bits}
use pttp.Cipher.{Sodium, from_hex, show, mask}

-- How `main` ends: with its output, with -1 for a word that is not in the list, or undefined.
pub data Outcome : Type 0 where
  prints : Bytes → Bytes → Outcome
  unknown_word fault : Outcome

-- `find(words.begin(), words.end(), w) - words.begin()`
unfoldable pub find : List Bytes → Bytes → ℕ
find [] w = 0
find (x ∷ words) w = if equal x w then 0 else find words w + 1

-- `bitset<11*24>`
abbrev pub set_size : ℕ
set_size = 264

-- The inner loop: the eleven lowest digits of a word's number, the lowest first.
unfoldable pub digits : ℕ → ℕ → List Bool
digits zero n = []
digits (suc rounds) n = (n % 2 == 1) ∷ digits rounds (n / 2)

pub data Loaded : Type 0 where
  loaded : List Bool → Loaded
  unknown overrun : Loaded

-- The outer loop, with `room` bits of the set left; a word past the end writes out of range.
load_words : List Bytes → List Bytes → ℕ → Loaded
load_words words [] room = loaded (replicate room false)
load_words words (w ∷ ws) room =
    let n = find words w in
    let rest = load_words words ws (room - 11) in
    if n == length words then unknown else if ltb room 11 then overrun else elim rest [
      | loaded bits ↦ loaded (digits 11 n ++ bits)
      | unknown ↦ unknown
      | overrun ↦ overrun
    ]

-- The two texts that it prints, or the fault of a run that has none.
output : Option (Bytes × Bytes) → Outcome
output none = fault
output (some (msg, salt)) = prints msg salt

-- `main` of bin/wordenc.cc, for the words to encode, a password and a random salt.
unfoldable pub wordenc : Sodium → List Bytes → List Bytes → Bytes → Bytes → Outcome
unfolding load_words output find digits
wordenc sodium words enc_words pass salt_b = elim (load_words words enc_words set_size) [
  | unknown ↦ unknown_word
  | overrun ↦ fault
  | loaded bits ↦ output (
      from_bits bits >>= λ msg_b.
      mask sodium msg_b pass salt_b >>= λ c. some (show sodium c, show sodium salt_b))
]

-- The inner loop of `worddec`: `m |= (bitset[idx++] << n)`, for the rounds left.
gather : ℕ → ℕ → ℕ → List Bool → Option (ℕ × List Bool)
gather zero n m bits = some (m, bits)
gather (suc rounds) n m [] = none
gather (suc rounds) n m (bit ∷ bits) = gather rounds (n + 1) (bit_or m (to_nat bit * 2 ^ n)) bits

-- The outer loop: the words that it prints. A number past the list reads out of range.
read_words : List Bytes → ℕ → List Bool → Option (List Bytes)
read_words words zero bits = some []
read_words words (suc left) bits = gather 11 0 0 bits >>= λ s.
    get_elem? words s.0 >>= λ w. read_words words left s.1 >>= λ ws. some (w ∷ ws)

-- `main` of bin/worddec.cc, for the two texts and a password.
unfoldable pub worddec : Sodium → List Bytes → Bytes → Bytes → Bytes → Option (List Bytes)
unfolding read_words gather
worddec sodium words msg_hex salt_hex pass = do
  msg_b ← mask sodium (from_hex sodium msg_hex) pass (from_hex sodium salt_hex)
  bits ← to_bits set_size msg_b
  read_words words 24 bits
