-- ===== src/Bech32/Examples.antt =====
-- The theorems on 5-bit digits at short texts.
use pttp.Prelude.{ℕ, ◌≡◌, refl, arith, List, [], ◌∷◌, some}
use pttp.Bytes.{Bytes}
use pttp.Bloom.{load}
use pttp.Bech32.{enc5}
use pttp.Bech32.Digits.{AreDigits, enc5-AreDigits}

abbrev word : Bytes
word = 0x6b ∷ 0xf0 ∷ 0x3c ∷ []

enc5-word : enc5 word ≡ some (11 ∷ 3 ∷ 28 ∷ 25 ∷ 3 ∷ [])
unfolding enc5
enc5-word = refl

enc5-AreDigits_example : (ds : List ℕ) × (enc5 word ≡ some ds) × AreDigits (load word) 24 ds
enc5-AreDigits_example = enc5-AreDigits word (omega arith) (omega arith)
