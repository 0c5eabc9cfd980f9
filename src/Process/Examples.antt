-- ===== src/Process/Examples.antt =====
-- The theorems on transactions at a payment.
use pttp.Prelude.{◌-◌, ◌^◌, ◌≡◌, refl, arith, List, [], ◌∷◌, map, some, true, ◌>>=◌}
use pttp.Prelude.Int.{ℤ, pos, negsuc}
use pttp.Process.{
  Credit, Transaction, SignKeyPair, to_int, Outcome, credits, create_transaction, process,
  process_transaction,
}
use pttp.Process.Signed.{debtors, signs, process-signs}
use pttp.Process.Creation.{signatures, empty, process_transaction-create}
use pttp.Process.Unsigned.{process-unsigned}
use pttp.Samples.Messages.{pair_of, sample_wire, sample_signer, write_all}

-- The first account pays 5 to the second.
abbrev pair : List SignKeyPair
pair = pair_of (3 ∷ []) ∷ pair_of (4 ∷ []) ∷ []

abbrev payment : List ℤ
payment = negsuc 4 ∷ pos 5 ∷ []

process_transaction-create_example :
    (create_transaction sample_signer sample_wire pair payment >>= λ b.
    process_transaction sample_signer sample_wire b empty)
    ≡ some (
      true,
      record {
        accounts = map (λ acc. SignKeyPair.pub_key acc) pair;
        amounts = payment;
        sigs = signatures sample_signer (write_all (credits pair payment)) pair payment;
      },
    )
process_transaction-create_example =
    process_transaction-create sample_signer sample_wire pair payment refl
      ((3 ∷ [], refl), ((4 ∷ [], refl), tt)) (omega arith)

-- The same payment with a forged signature.
abbrev forged_credits : List Credit
forged_credits =
    record { account = 3 ∷ []; amount = negsuc 4 }
    ∷ record { account = 4 ∷ []; amount = pos 5 }
    ∷ []

abbrev forged : Transaction
forged = record { credit_set = write_all forged_credits; signatures = (9 ∷ []) ∷ [] }

process-signs_example :
    (out' : Outcome) × (process sample_signer sample_wire forged empty
      ≡ some
          (signs sample_signer forged.credit_set (debtors forged_credits) forged.signatures, out'))
process-signs_example = process-signs sample_signer sample_wire forged forged_credits empty refl

abbrev signed : Transaction
signed = record { credit_set = write_all forged_credits; signatures = (3 ∷ 19 ∷ []) ∷ [] }

-- A payment of 2^32, which is no negative `int`.
abbrev huge : List Credit
huge = record { account = 3 ∷ []; amount = negsuc (2 ^ 32 - 1) } ∷ []

process-unsigned_example :
    process sample_signer sample_wire
      (record { credit_set = write_all huge; signatures = [] })
      empty
    ≡ some (true, record { accounts = (3 ∷ []) ∷ []; amounts = pos 0 ∷ []; sigs = [] })
unfolding to_int
process-unsigned_example =
    process-unsigned sample_signer sample_wire huge empty (omega arith) (refl, tt)
