-- ===== src/Cipher/Examples.antt =====
-- The round trips at a short message.
use pttp.Prelude.{◌≡◌, [], ◌∷◌, some, ◌>>=◌}
use pttp.Bytes.{Bytes}
use pttp.Cipher.{enc, dec}
use pttp.Cipher.RoundTrip.{dec-enc}
use pttp.Samples.{sample_sodium}

abbrev message : Bytes
message = 104 ∷ 105 ∷ []

abbrev password : Bytes
password = 120 ∷ []

abbrev salt : Bytes
salt = 1 ∷ 2 ∷ 3 ∷ 4 ∷ 5 ∷ 6 ∷ 7 ∷ 8 ∷ []

dec-enc_example :
    (enc sample_sodium message password salt >>= λ out. dec sample_sodium out.0 out.1 password)
    ≡ some message
dec-enc_example = dec-enc sample_sodium message password salt
