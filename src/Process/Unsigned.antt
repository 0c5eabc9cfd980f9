-- ===== src/Process/Unsigned.antt =====
-- `process_transaction` on credits without a signature.
use pttp.Prelude.{◌≡◌, refl, List, [], ◌∷◌, ◌++◌, append-nil, some, true, false, All}
use pttp.Process.{Credit, Transaction, IsInt64, Wire, Signer, to_int, is_negative, Outcome, process}
use pttp.Process.Signed.{debtors, ints, accounts_of, signs, process-delivered}

no_debtors :
    (cs : List Credit)
    → All (λ c. is_negative (to_int (Credit.amount c)) ≡ false) cs
    → debtors cs ≡ []
no_debtors [] h = refl
no_debtors (c ∷ cs) h = rw h.0 (no_debtors cs h.1)

-- `process_transaction` accepts, without a signature, credits none of whose amounts is negative as an
-- `int`, whatever the sign of the 64-bit amount in the message.
pub process-unsigned :
    (signer : Signer) (wire : Wire) (cs : List Credit) (out : Outcome)
    → All (λ c. IsInt64 (Credit.amount c)) cs
    → All (λ c. is_negative (to_int (Credit.amount c)) ≡ false) cs
    → process signer wire (record { credit_set = wire.write_credits cs; signatures = [] }) out
      ≡ some (
        true,
        record { accounts = out.accounts ++ accounts_of cs; amounts = ints cs; sigs = out.sigs },
      )
process-unsigned signer wire cs out fits harmless =
    let tx : Transaction = record { credit_set = wire.write_credits cs; signatures = [] } in
    let none_pay = no_debtors cs harmless in
    let ok : signs signer tx.credit_set (debtors cs) [] ≡ true = rw none_pay refl in
    rw
      (
        process-delivered signer wire tx cs out (wire.read-write_credits cs fits) ok,
        none_pay,
        append-nil out.sigs,
      )
      refl
