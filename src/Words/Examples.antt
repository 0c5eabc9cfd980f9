-- ===== src/Words/Examples.antt =====
-- The round trip at 24 words of a short list.
use pttp.Prelude.{refl, arith, List, [], ◌∷◌, replicate}
use pttp.Bytes.{Bytes, equal}
use pttp.Words.{find}
use pttp.Words.RoundTrip.{AreKnown, ComesBack, worddec-wordenc}
use pttp.Samples.{sample_sodium}

abbrev words : List Bytes
words = (97 ∷ 98 ∷ []) ∷ (98 ∷ []) ∷ (99 ∷ 99 ∷ []) ∷ []

abbrev phrase : List Bytes
phrase = (99 ∷ 99 ∷ []) ∷ replicate 23 (98 ∷ [])

phrase-AreKnown : AreKnown words phrase
unfolding find equal
phrase-AreKnown = omega arith

worddec-wordenc_example : ComesBack sample_sodium words phrase (120 ∷ []) (1 ∷ 2 ∷ [])
worddec-wordenc_example =
    worddec-wordenc sample_sodium words phrase (120 ∷ []) (1 ∷ 2 ∷ []) (omega arith) refl
      phrase-AreKnown
