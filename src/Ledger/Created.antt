-- ===== src/Ledger/Created.antt =====
-- `create_transaction` of src/process.cc with `pttp::Transaction` of bin/p2p.cc: from the bytes that a
-- client makes to those that a node stores.
use pttp.Prelude.{◌≡◌, List, [], ◌∷◌, length, some, All, ◌>>=◌}
use pttp.Prelude.Int.{ℤ}
use pttp.Process.{Credit, IsInt, Wire, SignKeyPair, Signer, credits, create_transaction}
use pttp.Process.Creation.{IsMade, made, create-signatures, signs-signatures}
use pttp.Ledger.{Transaction, parse, bytes}
use pttp.Ledger.Storing.{parse-bytes}

credits-IsInt :
    (accounts : List SignKeyPair) (amounts : List ℤ)
    → All IsInt amounts
    → All (λ c. IsInt (Credit.amount c)) (credits accounts amounts)
unfolding credits
credits-IsInt [] amounts small = tt
credits-IsInt (acc ∷ accounts) [] small = tt
credits-IsInt (acc ∷ accounts) (a ∷ amounts) small =
    (small.0, credits-IsInt accounts amounts small.1)

-- What `create_transaction` makes, for accounts made from seeds and as many amounts, which an `int` holds,
-- as accounts, is kept by the constructor of `pttp::Transaction` with the accounts and amounts that were
-- asked for, and what is kept is read back from the bytes that `bytes` writes of it.
pub parse-create_transaction :
    (signer : Signer) (wire : Wire) (accounts : List SignKeyPair) (amounts : List ℤ)
    → length accounts ≡ length amounts
    → All (IsMade signer) accounts
    → All IsInt amounts
    → (t : Transaction) × ((create_transaction signer wire accounts amounts >>= λ b.
          wire.read_transaction b >>= λ tx. parse signer wire tx)
        ≡ some t)
      × (t.credits ≡ credits accounts amounts)
      × ((wire.read_transaction (bytes wire t) >>= λ tx. parse signer wire tx) ≡ some t)
unfolding create_transaction
parse-create_transaction signer wire accounts amounts e from_seed small =
    let tx = made signer wire accounts amounts e in
    let signed = signs-signatures signer tx.credit_set accounts amounts e from_seed small in
    let stored =
      parse-bytes signer wire (credits accounts amounts) (credits-IsInt accounts amounts small)
        tx.signatures signed in
    (
      stored.0,
      rw (create-signatures signer wire accounts amounts e, wire.read-write_transaction tx)
          stored.1,
      stored.2,
      stored.3,
    )
