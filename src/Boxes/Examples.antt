-- ===== src/Boxes/Examples.antt =====
-- The theorems on boxes at a short message.
use pttp.Prelude.{◌≡◌, arith, [], ◌∷◌, some, ◌>>=◌}
use pttp.Bytes.{Bytes}
use pttp.Boxes.{Printed, fullenc, fulldec}
use pttp.Boxes.Demo.{Drawn}
use pttp.Boxes.RoundTrip.{fulldec-fullenc}
use pttp.Samples.{sample_sodium}
use pttp.Samples.Keys.{sample_api}

abbrev message : Bytes
message = 104 ∷ 105 ∷ []

abbrev no_text : Bytes → Bytes → Bytes → Bytes
no_text buffer pre digits = buffer

fulldec-fullenc_example :
    (fullenc sample_api sample_sodium no_text message (7 ∷ []) (3 ∷ 4 ∷ []) [] >>= λ out.
    fulldec sample_api sample_sodium (Printed.msg_hex out) (Printed.salt_hex out) (7 ∷ []))
    ≡ some message
fulldec-fullenc_example =
    fulldec-fullenc sample_api sample_sodium no_text message (7 ∷ []) (3 ∷ 4 ∷ []) [] (omega arith)
      (omega arith) (omega arith)

abbrev drawn : Drawn
drawn = record {
  pair1 = 1 ∷ [];
  pair2 = 2 ∷ [];
  kp3 = 3 ∷ [];
  nonce = 9 ∷ [];
  nonce' = 8 ∷ [];
  random = 7 ∷ [];
}
