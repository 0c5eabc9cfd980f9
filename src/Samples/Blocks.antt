-- ===== src/Samples/Blocks.antt =====
-- A concrete message format for blocks, at which the examples run: five stored fields.
use pttp.Prelude.{ℕ, ◌≡◌, refl, List, [], ◌∷◌, Option, none, some, ◌>>=◌}
use pttp.Bytes.{Bytes}
use pttp.Prelude.Int.{ℤ, pos, negsuc}
use pttp.Process.{Credit}
use pttp.Ledger.Header.{Block, BlockWire}
use pttp.Samples.Messages.{write_all, read_all, read-write_all, as_credit}

-- The four texts as accounts, the time as the amount of the first.
abbrev pub as_credits : Block → List Credit
as_credits b =
    record { account = b.prev_hash; amount = pos b.time }
    ∷ as_credit b.transaction_hash
    ∷ as_credit b.utxo_hash
    ∷ as_credit b.nonce
    ∷ []

abbrev pub time_of : ℤ → ℕ
time_of (pos n) = n
time_of (negsuc n) = 0

abbrev pub as_block : List Credit → Option Block
as_block (a ∷ b ∷ c ∷ d ∷ []) = some (record {
  prev_hash = a.account;
  transaction_hash = b.account;
  utxo_hash = c.account;
  nonce = d.account;
  time = time_of a.amount;
})
as_block [] = none
as_block (a ∷ []) = none
as_block (a ∷ b ∷ []) = none
as_block (a ∷ b ∷ c ∷ []) = none
as_block (a ∷ b ∷ c ∷ d ∷ e ∷ rest) = none

abbrev pub read_five : Bytes → Option Block
read_five b = read_all b >>= as_block

pub read_five_lem : (b : Block) → read_five (write_all (as_credits b)) ≡ some b
read_five_lem b = rw (read-write_all (as_credits b)) refl

abbrev pub sample_blocks : BlockWire
sample_blocks = record {
  write_block = λ b. write_all (as_credits b);
  read_block = read_five;
  read-write_block = λ b fits. read_five_lem b;
}
