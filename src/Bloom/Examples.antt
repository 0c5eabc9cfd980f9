-- ===== src/Bloom/Examples.antt =====
-- The theorems on filters at small filters, and runs of the code.
use pttp.Prelude.{◌≡◌, refl, arith, List, [], ◌∷◌, some, true, false, ◌>>=◌}
use pttp.Bytes.{Bytes}
use pttp.Bloom.{Bloom, new, from_bytes, bytes, put_all}
use pttp.Bloom.Encoding.{sent_hits, from_bytes-bytes}
use pttp.Bloom.Membership.{IsValid, Counts, SetsAll, put_all-SetsAll, new-IsValid}
use pttp.Samples.{sum_hasher}

-- Eleven places, of which the second and the last are on.
abbrev eleven : Bloom
eleven = record {
  p = 11;
  hits = false ∷ true ∷ false ∷ false ∷ false ∷ false ∷ false ∷ false ∷ false ∷ false ∷ true ∷ [];
  key = 5 ∷ [];
  n_on = 2;
}

abbrev eight : Bloom
eight = record {
  p = 8;
  hits = true ∷ false ∷ false ∷ true ∷ false ∷ false ∷ false ∷ true ∷ [];
  key = 5 ∷ [];
  n_on = 3;
}

bytes-eleven : bytes eleven ≡ some (0x40 ∷ 0x20 ∷ [])
unfolding bytes
bytes-eleven = refl

eleven-IsValid : IsValid eleven
eleven-IsValid = record { sized = refl; positive = omega arith; is_int = omega arith }

from_bytes-bytes_example :
    (bytes eight >>= λ b. from_bytes b 8 (9 ∷ []))
    ≡ some (record { p = 8; hits = sent_hits eight; key = 9 ∷ []; n_on = 0 })
from_bytes-bytes_example = from_bytes-bytes eight (9 ∷ []) refl (omega arith)

abbrev empty : Bloom
empty = new 4999 (5 ∷ [])

abbrev elements : List Bytes
elements = (1 ∷ []) ∷ (100 ∷ 30 ∷ []) ∷ []

empty-IsValid : IsValid empty × Counts empty
empty-IsValid = new-IsValid 4999 (5 ∷ []) (omega arith) (omega arith)

put_all-SetsAll_example : SetsAll sum_hasher empty elements (put_all sum_hasher empty elements)
put_all-SetsAll_example = put_all-SetsAll sum_hasher empty elements empty-IsValid.0 empty-IsValid.1
