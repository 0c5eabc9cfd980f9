-- ===== src/Bech32/Injective.antt =====
-- inc/convert.h, `bytes_to_bech32`: the bytes of two runs with the same digits.
use pttp.Prelude.{ℕ, ◌<◌, ◌≡◌, refl, sym, ap, ap₂, ◌∙◌, arith, List, [], ◌∷◌, length, All}
use pttp.Bytes.{Bytes, IsBytes}
use pttp.Bloom.{load}
use pttp.Bech32.{enc5}
use pttp.Bech32.Digits.{from_digits, enc5-AreDigits}

from_digits-injective :
    (ds es : List ℕ)
    → length ds ≡ length es
    → All (λ d. d < 32) ds
    → All (λ d. d < 32) es
    → from_digits ds ≡ from_digits es
    → ds ≡ es
unfolding from_digits
from_digits-injective [] [] e h k v = refl
from_digits-injective [] (d ∷ es) e h k v = absurd (omega arith)
from_digits-injective (d ∷ ds) [] e h k v = absurd (omega arith)
from_digits-injective (d ∷ ds) (c ∷ es) e h k v =
    ap₂ ◌∷◌ (omega arith) (from_digits-injective ds es (omega arith) h.1 k.1 (omega arith))

load-injective :
    (b c : Bytes) → length b ≡ length c → IsBytes b → IsBytes c → load b ≡ load c → b ≡ c
unfolding load
load-injective [] [] e h k v = refl
load-injective [] (y ∷ c) e h k v = absurd (omega arith)
load-injective (x ∷ b) [] e h k v = absurd (omega arith)
load-injective (x ∷ b) (y ∷ c) e h k v =
    ap₂ ◌∷◌ (omega arith) (load-injective b c (omega arith) h.1 k.1 (omega arith))

-- Bytes of one size, at least one, that give the same 5-bit digits are the same bytes.
pub enc5-injective :
    (b c : Bytes)
    → IsBytes b
    → IsBytes c
    → 0 < length b
    → length b ≡ length c
    → enc5 b ≡ enc5 c
    → b ≡ c
enc5-injective b c small small' pos e h =
    let (ds, ran, (value, digits, count)) = enc5-AreDigits b small pos in
    let (es, ran', (value', digits', count')) = enc5-AreDigits c small' (omega arith) in
    let same : ds ≡ es = cc in
    load-injective b c e small small' (sym value ∙ ap from_digits same ∙ value')
