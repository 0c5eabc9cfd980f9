-- ===== src/Chain/Spec.antt =====
-- What `get_latest` is to choose, on balances as a function of the account.
use pttp.Prelude.{
  ℕ, List, [], ◌∷◌, length, Option, none, some, Bool, true, false, not, ◌&&◌, ◌||◌, if◌then◌else◌,
  ◌+◌,
}
use pttp.Prelude.Int.{ℤ, pos, ◌+ℤ◌}
use pttp.Bytes.{Bytes, equal}
use pttp.Maps.{Map, lookup}
use pttp.Process.{Credit, is_negative}
use pttp.Ledger.{Transaction}

-- An account that is not there holds nothing.
abbrev pub or_zero : Option ℤ → ℤ
or_zero none = pos 0
or_zero (some v) = v

unfoldable pub funds : Map ℤ → Bytes → ℤ
funds m k = or_zero (lookup k m)

abbrev pub named : Bytes → List Credit → Bool
named k [] = false
named k (c ∷ cs) = equal k c.account || named k cs

-- No account is named twice.
abbrev pub distinct : List Credit → Bool
distinct [] = true
distinct (c ∷ cs) = not (named c.account cs) && distinct cs

-- No account goes below zero.
abbrev pub covered : (Bytes → ℤ) → List Credit → Bool
covered f [] = true
covered f (c ∷ cs) = not (is_negative (f c.account +ℤ c.amount)) && covered f cs

abbrev pub spendable : (Bytes → ℤ) → List Credit → Bool
spendable f cs = distinct cs && covered f cs

abbrev pub pay_one : (Bytes → ℤ) → Credit → Bytes → ℤ
pay_one f c k = if equal k c.account then f k +ℤ c.amount else f k

abbrev pub pay : (Bytes → ℤ) → List Credit → Bytes → ℤ
pay f [] = f
pay f (c ∷ cs) = pay (pay_one f c) cs

abbrev pub or_empty : Option Transaction → List Credit
or_empty none = []
or_empty (some tx) = tx.credits

unfoldable pub credits_of : Map Transaction → Bytes → List Credit
credits_of txs hash = or_empty (lookup hash txs)

-- Each transaction in turn is taken, whole, when the balances then allow it: the hashes that are taken.
abbrev pub chosen : Map Transaction → (Bytes → ℤ) → List Bytes → List Bytes
chosen txs f [] = []
chosen txs f (hash ∷ hashes) =
    if spendable f (credits_of txs hash)
    then hash ∷ chosen txs (pay f (credits_of txs hash)) hashes
    else chosen txs f hashes

-- The balances after them.
abbrev pub settled : Map Transaction → (Bytes → ℤ) → List Bytes → Bytes → ℤ
settled txs f [] = f
settled txs f (hash ∷ hashes) =
    if spendable f (credits_of txs hash)
    then settled txs (pay f (credits_of txs hash)) hashes
    else settled txs f hashes

-- The number of credits in the transactions.
abbrev pub weight : Map Transaction → List Bytes → ℕ
weight txs [] = 0
weight txs (hash ∷ hashes) = length (credits_of txs hash) + weight txs hashes
