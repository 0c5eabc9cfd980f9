-- ===== src/Bytes/Examples.antt =====
-- The theorem on bit sets at sixteen bits, and a set that does not come back.
use pttp.Prelude.{◌≡◌, refl, List, [], ◌∷◌, none, some, Bool, true, false, ◌>>=◌}
use pttp.Bytes.{from_bits, to_bits}
use pttp.Bytes.Bitset.{to_bits-from_bits}

abbrev sixteen : List Bool
sixteen =
    true ∷ false ∷ false ∷ true ∷ false ∷ false ∷ false ∷ true ∷ true ∷ true ∷ false ∷ true ∷ false
    ∷ false ∷ false ∷ false ∷ []

to_bits-from_bits_example : (from_bits sixteen >>= λ b. to_bits 16 b) ≡ some sixteen
to_bits-from_bits_example = to_bits-from_bits sixteen refl

-- The ninth bit is not stored, and reading it back is out of range.
nine_bits :
    let nine = true ∷ true ∷ true ∷ true ∷ true ∷ true ∷ true ∷ true ∷ true ∷ [] in
    (from_bits nine >>= λ b. to_bits 9 b) ≡ none
unfolding from_bits to_bits
nine_bits = refl
