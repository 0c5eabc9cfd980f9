-- ===== src/Chain/Examples/Arriving.antt =====
-- Two transactions that arrive in both orders, one of them twice.
use mathlib.Core.List.{Memᴰ}
use pttp.Prelude.{◌≡◌, refl, sym, ap, ◌∙◌, [], ◌∷◌, false}
use pttp.Prelude.Int.{ℤ, pos}
use pttp.Bytes.{Bytes, equal, equal_complete}
use pttp.Ledger.{Transaction, bytes, credit_bytes}
use pttp.Chain.{new, get_latest}
use pttp.Chain.Adding.{tx_hash}
use pttp.Chain.Arrival.{add_all, add_all_same}
use pttp.Chain.Adding.Twice.{AreTold}
use pttp.Samples.{digest_hasher}
use pttp.Samples.Messages.{sample_wire}

abbrev giving : Bytes → ℤ → Transaction
giving account amount = record {
  credits = record { account = account; amount = amount } ∷ [];
  witnesses = [] ∷ [];
}

abbrev first : Transaction
first = giving (4 ∷ []) (pos 6)

abbrev second : Transaction
second = giving (5 ∷ []) (pos 9)

hash : Transaction → Bytes
hash = tx_hash digest_hasher sample_wire

apart : equal (hash first) (hash second) ≡ false
unfolding equal hash tx_hash bytes credit_bytes
apart = refl

never : (tx tx' : Transaction) → tx ≡ first → tx' ≡ second → hash tx ≡ hash tx' → ⊥
never tx tx' e e' h =
    cc (apart, equal_complete (hash first) (hash second) (sym (ap hash e) ∙ h ∙ ap hash e'))

told_apart :
    (tx tx' : Transaction)
    → Memᴰ tx (first ∷ second ∷ [])
    → Memᴰ tx' (first ∷ second ∷ [])
    → AreTold digest_hasher sample_wire tx tx'
unfolding hash
told_apart tx tx' (Memᴰ.head e) (Memᴰ.head e') h = e ∙ sym e'
told_apart tx tx' (Memᴰ.head e) (Memᴰ.tail (Memᴰ.head e')) h = absurd (never tx tx' e e' h)
told_apart tx tx' (Memᴰ.head e) (Memᴰ.tail (Memᴰ.tail m)) h = elim m [ ]
told_apart tx tx' (Memᴰ.tail (Memᴰ.head e)) (Memᴰ.head e') h = absurd (never tx' tx e' e (sym h))
told_apart tx tx' (Memᴰ.tail (Memᴰ.head e)) (Memᴰ.tail (Memᴰ.head e')) h = e ∙ sym e'
told_apart tx tx' (Memᴰ.tail (Memᴰ.head e)) (Memᴰ.tail (Memᴰ.tail m)) h = elim m [ ]
told_apart tx tx' (Memᴰ.tail (Memᴰ.tail m)) m' h = elim m [ ]

into : (tx : Transaction) → Memᴰ tx (first ∷ second ∷ []) → Memᴰ tx (second ∷ first ∷ second ∷ [])
into tx m = Memᴰ.tail m

onto : (tx : Transaction) → Memᴰ tx (second ∷ first ∷ second ∷ []) → Memᴰ tx (first ∷ second ∷ [])
onto tx (Memᴰ.head e) = Memᴰ.tail (Memᴰ.head e)
onto tx (Memᴰ.tail m) = m

add_all_same_example :
    (add_all digest_hasher sample_wire (first ∷ second ∷ []) new
      ≡ add_all digest_hasher sample_wire (second ∷ first ∷ second ∷ []) new)
    × (get_latest digest_hasher (add_all digest_hasher sample_wire (first ∷ second ∷ []) new)
        ≡ get_latest digest_hasher
            (add_all digest_hasher sample_wire (second ∷ first ∷ second ∷ []) new))
add_all_same_example =
    add_all_same digest_hasher sample_wire (first ∷ second ∷ []) (second ∷ first ∷ second ∷ []) new
      into onto told_apart
