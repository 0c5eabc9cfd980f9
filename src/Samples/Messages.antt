-- ===== src/Samples/Messages.antt =====
-- A concrete message format and a concrete signer, at which the examples run.
use pttp.Prelude.{ℕ, zero, suc, ◌≡◌, refl, ap, List, [], ◌∷◌, ◌++◌, map, Option, none, some, ◌>>=◌}
use pttp.Prelude.Int.{ℤ, pos, negsuc}
use pttp.Bytes.{Bytes, equal, equal_refl}
use pttp.Process.{Credit, Transaction, Wire, SignKeyPair, Signer}
use pttp.Samples.{sum}

-- Each byte of an account after a 1; then a 0, the sign and the size of the amount.
abbrev pub write_account : Bytes → Bytes → Bytes
write_account [] rest = rest
write_account (x ∷ a) rest = 1 ∷ x ∷ write_account a rest

abbrev pub write_amount : ℤ → Bytes → Bytes
write_amount (pos n) rest = 0 ∷ 0 ∷ n ∷ rest
write_amount (negsuc n) rest = 0 ∷ 1 ∷ n ∷ rest

abbrev pub write_all : List Credit → Bytes
write_all [] = []
write_all (c ∷ cs) = write_account c.account (write_amount c.amount (write_all cs))

abbrev pub read_amount : ℕ → ℕ → ℤ
read_amount zero n = pos n
read_amount (suc s) n = negsuc n

-- `x` before the first account.
abbrev pub push_front : ℕ → List Credit → Option (List Credit)
push_front x [] = none
push_front x (c ∷ cs) = some (record c { account = x ∷ c.account } ∷ cs)

abbrev pub read_all : Bytes → Option (List Credit)
read_all [] = some []
read_all (zero ∷ s ∷ n ∷ rest) =
    read_all rest >>= λ cs. some (record { account = []; amount = read_amount s n } ∷ cs)
read_all (suc t ∷ x ∷ rest) = read_all rest >>= push_front x
read_all (zero ∷ s ∷ []) = none
read_all (zero ∷ []) = none
read_all (suc t ∷ []) = none

read_all-account :
    (a : Bytes) (amount : ℤ) (rest : Bytes) (cs : List Credit)
    → read_all rest ≡ some (record { account = []; amount = amount } ∷ cs)
    → read_all (write_account a rest) ≡ some (record { account = a; amount = amount } ∷ cs)
read_all-account [] amount rest cs h = h
read_all-account (x ∷ a) amount rest cs h = rw (read_all-account a amount rest cs h) refl

read_all-amount :
    (amount : ℤ) (rest : Bytes) (cs : List Credit)
    → read_all rest ≡ some cs
    → read_all (write_amount amount rest) ≡ some (record { account = []; amount = amount } ∷ cs)
read_all-amount (pos n) rest cs h = rw h refl
read_all-amount (negsuc n) rest cs h = rw h refl

pub read-write_all : (cs : List Credit) → read_all (write_all cs) ≡ some cs
read-write_all [] = refl
read-write_all (c ∷ cs) =
    read_all-account c.account c.amount (write_amount c.amount (write_all cs)) cs
      (read_all-amount c.amount (write_all cs) cs (read-write_all cs))

-- A transaction as accounts without amounts, the credit set first.
abbrev pub as_credit : Bytes → Credit
as_credit b = record { account = b; amount = pos 0 }

abbrev pub contents : List Credit → List Bytes
contents [] = []
contents (c ∷ cs) = c.account ∷ contents cs

abbrev pub as_transaction : List Credit → Option Transaction
as_transaction [] = none
as_transaction (c ∷ cs) = some (record { credit_set = c.account; signatures = contents cs })

contents-map : (bs : List Bytes) → contents (map as_credit bs) ≡ bs
contents-map [] = refl
contents-map (b ∷ bs) = ap (λ t. b ∷ t) (contents-map bs)

abbrev pub write_tx : Transaction → Bytes
write_tx tx = write_all (as_credit tx.credit_set ∷ map as_credit tx.signatures)

abbrev pub read_tx : Bytes → Option Transaction
read_tx b = read_all b >>= as_transaction

pub read-write_tx : (tx : Transaction) → read_tx (write_tx tx) ≡ some tx
read-write_tx tx =
    rw
      (
        read-write_all (as_credit tx.credit_set ∷ map as_credit tx.signatures),
        contents-map tx.signatures,
      )
      refl

abbrev pub sample_wire : Wire
sample_wire = record {
  write_credits = write_all;
  read_credits = read_all;
  write_transaction = write_tx;
  read_transaction = read_tx;
  read-write_credits = λ cs fits. read-write_all cs;
  read-write_transaction = read-write_tx;
}

abbrev pub pair_of : Bytes → SignKeyPair
pair_of seed = record { priv = seed; pub_key = seed }

abbrev pub sample_signer : Signer
sample_signer = record {
  keypair = pair_of;
  sign = λ m priv. priv ++ (sum m ∷ []);
  verify = λ w m key. equal w (key ++ (sum m ∷ []));
  verify-sign = λ seed m. equal_refl (seed ++ (sum m ∷ []));
}
