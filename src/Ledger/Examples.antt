-- ===== src/Ledger/Examples.antt =====
-- The theorems on stored transactions and block headers at a payment and a header.
use pttp.Prelude.{
  arith, ◌≡◌, refl, List, [], ◌∷◌, map, some, none, replicate, length, if◌then◌else◌, ◌>>=◌,
}
use pttp.Prelude.Int.{ℤ, pos, negsuc}
use pttp.Process
use pttp.Process.{Credit, SignKeyPair, to_int, credits, create_transaction}
use pttp.Process.Signed.{debtors, signs}
use pttp.Ledger.{Transaction, stored, parse, bytes}
use pttp.Ledger.Created.{parse-create_transaction}
use pttp.Ledger.Parsing.{filled, parse-signs}
use pttp.Ledger.Header.{
  BlockHeader, new_header, read_header, header_bytes, calculate_hash, read_header-header_bytes,
}
use pttp.Samples.{digest_hasher, join}
use pttp.Samples.Blocks.{sample_blocks}
use pttp.Samples.Messages.{pair_of, sample_wire, sample_signer, write_all}

-- The first account pays 5 to the second.
abbrev paid : List Credit
paid =
    record { account = 3 ∷ []; amount = negsuc 4 }
    ∷ record { account = 4 ∷ []; amount = pos 5 }
    ∷ []

abbrev payment : Process.Transaction
payment = record { credit_set = write_all paid; signatures = (3 ∷ 19 ∷ []) ∷ [] }

parse-signs_example : parse sample_signer sample_wire payment ≡ (
    if signs sample_signer payment.credit_set (debtors paid) payment.signatures
    then some (record {
      credits = map stored paid;
      witnesses = filled (debtors paid) payment.signatures 0 (replicate (length paid) []);
    })
    else none)
parse-signs_example = parse-signs sample_signer sample_wire payment paid refl

abbrev two_pairs : List SignKeyPair
two_pairs = pair_of (3 ∷ []) ∷ pair_of (4 ∷ []) ∷ []

abbrev moved : List ℤ
moved = negsuc 4 ∷ pos 5 ∷ []

parse-create_transaction_example :
    (t : Transaction) × ((create_transaction sample_signer sample_wire two_pairs moved >>= λ b.
    sample_wire.read_transaction b >>= λ tx. parse sample_signer sample_wire tx)
      ≡ some t)
    × (t.credits ≡ credits two_pairs moved)
    × ((sample_wire.read_transaction (bytes sample_wire t) >>= λ tx.
          parse sample_signer sample_wire tx)
        ≡ some t)
parse-create_transaction_example =
    parse-create_transaction sample_signer sample_wire two_pairs moved refl
      ((3 ∷ [], refl), ((4 ∷ [], refl), tt)) (omega arith, (omega arith, tt))

abbrev header : BlockHeader
header = record {
  hash = 1 ∷ [];
  prev_hash = 2 ∷ [];
  tx_hash = 3 ∷ [];
  utxo_hash = 4 ∷ [];
  nonce = 5 ∷ [];
  t = 6;
  height = 7;
}

read_header-header_bytes_example :
    (h' : BlockHeader) × (read_header sample_blocks new_header (header_bytes sample_blocks header)
      ≡ some h')
    × (h' ≡ record header { hash = 2 ∷ []; prev_hash = []; height = 0 })
    × (calculate_hash sample_blocks digest_hasher join h'
        ≡ calculate_hash sample_blocks digest_hasher join (record header { prev_hash = [] }))
read_header-header_bytes_example =
    read_header-header_bytes sample_blocks digest_hasher join header (omega arith)
