-- ===== src/Process.antt =====
-- src/process.cc: transactions, which move credits between accounts and carry a signature for each
-- account that pays, with `Signature` of src/curve.cc. Messages are those of cap/messages.capnp.
-- A run is `none` where an index is out of range, or where a message cannot be read or made.
pub mod Signed
pub mod Creation
pub mod Unsigned
mod Examples
use pttp.Prelude.{
  ℕ, suc, ◌+◌, ◌-◌, ◌%◌, ◌^◌, ◌<◌, ◌≤◌, ◌≡◌, List, [], ◌∷◌, ◌++◌, length, get_elem?, set, take,
  replicate, Option, none, some, Bool, true, false, not, ltb, ◌==◌, if◌then◌else◌, ◌>>=◌, All, map,
}
use pttp.Prelude.Int.{ℤ, pos, negsuc}
use pttp.Bytes.{Bytes, update_at}

-- `Credit`, whose amount is an `Int64`.
pub record Credit : Type 0 where
  pub account : Bytes
  pub amount : ℤ

-- `Transaction`: the bytes of its `CreditSet` and the data of its witnesses.
pub record Transaction : Type 0 where
  pub credit_set : Bytes
  pub signatures : List Bytes

-- An amount that 32 bits hold.
abbrev pub IsInt : ℤ → Type 0
IsInt (pos n) = n < 2 ^ 31
IsInt (negsuc n) = n < 2 ^ 31

-- An amount that 64 bits hold.
abbrev pub IsInt64 : ℤ → Type 0
IsInt64 (pos n) = n < 2 ^ 63
IsInt64 (negsuc n) = n < 2 ^ 63

-- Cap'n Proto: a message is read back from its bytes, and no bytes are read as two messages.
pub record Wire : Type 0 where
  pub write_credits : List Credit → Bytes
  pub read_credits : Bytes → Option (List Credit)
  pub write_transaction : Transaction → Bytes
  pub read_transaction : Bytes → Option Transaction
  pub read-write_credits :
      (cs : List Credit)
      → All (λ c. IsInt64 c.amount) cs
      → read_credits (write_credits cs) ≡ some cs
  pub read-write_transaction :
      (tx : Transaction) → read_transaction (write_transaction tx) ≡ some tx

-- `SignKeyPair`
pub record SignKeyPair : Type 0 where
  pub priv : Bytes
  pub pub_key : Bytes

-- `crypto_sign_detached` and `crypto_sign_verify_detached` of libsodium: what the secret key of a pair
-- made from a seed signs, its public key verifies.
pub record Signer : Type 0 where
  pub keypair : Bytes → SignKeyPair
  pub sign : Bytes → Bytes → Bytes
  pub verify : Bytes → Bytes → Bytes → Bool
  pub verify-sign :
      (seed message : Bytes)
      → verify
          (sign message (SignKeyPair.priv (keypair seed)))
          message
          (SignKeyPair.pub_key (keypair seed))
        ≡ true

-- The conversion of `getAmount()` to `int`.
signed : ℕ → ℤ
signed r = if ltb r (2 ^ 31) then pos r else negsuc (2 ^ 32 - 1 - r)

unfoldable pub to_int : ℤ → ℤ
unfolding signed
to_int (pos n) = signed (n % 2 ^ 32)
to_int (negsuc n) = signed (2 ^ 32 - 1 - n % 2 ^ 32)

abbrev pub is_negative : ℤ → Bool
is_negative (pos n) = false
is_negative (negsuc n) = true

-- The first loop of `create_transaction`: the credits and `n_negative`.
unfoldable pub credits : List SignKeyPair → List ℤ → List Credit
credits (acc ∷ accounts) (a ∷ amounts) =
    record { account = acc.pub_key; amount = a } ∷ credits accounts amounts
credits [] amounts = []
credits (acc ∷ accounts) [] = []

unfoldable pub count_negative : List ℤ → ℕ
count_negative [] = 0
count_negative (a ∷ amounts) =
    let rest = count_negative amounts in if is_negative a then suc rest else rest

-- What `process_transaction` gives back: the vectors that it is handed, after the call. The overload
-- on bytes passes no vector for the signatures; what is collected here is then dropped.
pub record Outcome : Type 0 where
  pub accounts : List Bytes
  pub amounts : List ℤ
  pub sigs : List Bytes

-- `amounts->resize(n)`
abbrev pub resize : ℕ → List ℤ → List ℤ
resize n xs = take n (xs ++ replicate n (pos 0))

module _ (signer : Signer) where
  -- The second loop, which signs for each account that pays; `c` is the index of the next signature.
  unfoldable pub sign_all : Bytes → List SignKeyPair → List ℤ → ℕ → List Bytes → Option (List Bytes)
  sign_all credit_data (acc ∷ accounts) (a ∷ amounts) c sigs =
      let signed_one = update_at sigs c (λ _. signer.sign credit_data acc.priv) >>= λ sigs'.
      sign_all credit_data accounts amounts (suc c) sigs' in
      let skipped = sign_all credit_data accounts amounts c sigs in
      if is_negative a then signed_one else skipped
  sign_all credit_data [] amounts c sigs = some sigs
  sign_all credit_data (acc ∷ accounts) [] c sigs = some sigs

  -- The loop of `process_transaction` from index `i` on, with the credits left and `n_neg`.
  unfoldable pub check_all : Bytes → List Bytes → List Credit → ℕ → ℕ → Outcome → Bool × Outcome
  check_all credit_data witnesses [] i n_neg out = (true, out)
  check_all credit_data witnesses (credit ∷ rest) i n_neg out =
      let a = to_int credit.amount in
      let noted = record out {
        amounts = set out.amounts i a;
        accounts = out.accounts ++ (credit.account ∷ []);
      } in
      let unsigned = check_all credit_data witnesses rest (suc i) n_neg noted in
      let by = λ (w : Bytes). record noted { sigs = noted.sigs ++ (w ∷ []) } in
      let next = λ (w : Bytes). check_all credit_data witnesses rest (suc i) (suc n_neg) (by w) in
      if is_negative a
      then elim (get_elem? witnesses n_neg) [
        | none ↦ (false, noted)
        | some w ↦ if signer.verify w credit_data credit.account then next w else (false, by w)
      ]
      else unsigned

  module _ (wire : Wire) where
    -- `create_transaction(Builder &, ...)`; where it returns false, the inner option is `none`.
    unfoldable pub create : List SignKeyPair → List ℤ → Option (Option Transaction)
    create accounts amounts =
        let credit_data = wire.write_credits (credits accounts amounts) in
        let built =
          sign_all credit_data accounts amounts 0 (replicate (count_negative amounts) [])
          >>= λ sigs. some (some (record { credit_set = credit_data; signatures = sigs })) in
        if length amounts == length accounts then built else some none

    -- `create_transaction` to bytes; where it throws, there are none.
    unfoldable pub create_transaction : List SignKeyPair → List ℤ → Option Bytes
    create_transaction accounts amounts = do
      result ← create accounts amounts
      tx ← result
      some (wire.write_transaction tx)

    -- `process_transaction(Reader &, ...)`
    unfoldable pub process : Transaction → Outcome → Option (Bool × Outcome)
    process tx out = do
      cs ← wire.read_credits tx.credit_set
      let sized = record out { amounts = resize (length cs) out.amounts }
      some (check_all tx.credit_set tx.signatures cs 0 0 sized)

    -- `process_transaction` from bytes.
    unfoldable pub process_transaction : Bytes → Outcome → Option (Bool × Outcome)
    process_transaction b out = wire.read_transaction b >>= λ tx. process tx out
