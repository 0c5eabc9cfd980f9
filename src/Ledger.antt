-- ===== src/Ledger.antt =====
-- bin/p2p.cc, `pttp::Credit` and `pttp::Transaction`: the form in which a node keeps a transaction.
-- A run is `none` where the constructor throws, and where an index is out of range.
pub mod Parsing
pub mod Storing
pub mod Created
pub mod Header
mod Examples
use pttp.Prelude.{
  ℕ, suc, ◌+◌, ◌≡◌, List, [], ◌∷◌, length, get_elem?, leb, replicate, map, Option, none, some, Bool,
  true, false, if◌then◌else◌, ◌>>=◌, ◌>>◌,
}
use pttp.Bytes.{Bytes, update_at}
use pttp.Process
use pttp.Process.{Credit, Wire, Signer, to_int, is_negative}

-- `pttp::Transaction`, with a `pttp::Credit` for each credit; both fields of that are those of the message.
pub record Transaction : Type 0 where
  pub credits : List Credit
  pub witnesses : List Bytes

-- `credits[i]`, whose amount went through an `int`.
unfoldable pub stored : Credit → Credit
stored c = record c { amount = to_int c.amount }

module _ (signer : Signer) where
  -- The constructor's loop, with the credits left, `n_neg` and the witnesses, which have been resized to
  -- the number of credits: the guard compares `n_neg` with that size.
  unfoldable pub verify_all :
      Bytes → List Bytes → List Credit → ℕ → List Bytes → Option (List Bytes)
  verify_all credit_data cap_witnesses [] n_neg witnesses = some witnesses
  verify_all credit_data cap_witnesses (c ∷ cs) n_neg witnesses =
      let unsigned = verify_all credit_data cap_witnesses cs n_neg witnesses in
      let witnessed = get_elem? cap_witnesses n_neg >>= λ w.
      update_at witnesses n_neg (λ _. w) >>= λ witnesses'.
      let rest = verify_all credit_data cap_witnesses cs (suc n_neg) witnesses' in
      if signer.verify w credit_data c.account then rest else none in
      if is_negative (to_int c.amount)
      then (if leb (length witnesses) n_neg then none else witnessed)
      else unsigned

  module _ (wire : Wire) where
    -- `Transaction(Bytes b)`, from the message that `b` holds.
    unfoldable pub parse : Process.Transaction → Option Transaction
    parse tx = do
      cs ← wire.read_credits tx.credit_set
      witnesses ← verify_all tx.credit_set tx.signatures cs 0 (replicate (length cs) [])
      some (record { credits = map stored cs; witnesses = witnesses })

-- `credit_bytes()`
unfoldable pub credit_bytes : Wire → Transaction → Bytes
credit_bytes wire tx = wire.write_credits tx.credits

-- `bytes()`
unfoldable pub bytes : Wire → Transaction → Bytes
bytes wire tx =
    wire.write_transaction (record { credit_set = credit_bytes wire tx; signatures = tx.witnesses })
