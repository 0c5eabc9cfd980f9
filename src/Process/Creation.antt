-- ===== src/Process/Creation.antt =====
-- What `create_transaction` makes, and `process_transaction` on it.
use pttp.Prelude.{
  ℕ, suc, ◌+◌, ◌<◌, ◌≡◌, refl, sym, ap, ap₂, arith, ◌∙◌, List, [], ◌∷◌, ◌++◌, append-nil, length,
  set, take, length-set, length-replicate, replicate, map, some, true, ◌==◌, ◌&&◌, if◌then◌else◌,
  Bool-cases, inl, inr, All, ◌>>=◌,
}
use pttp.Prelude.Int.{ℤ, pos, negsuc}
use pttp.Bytes.{Bytes}
use pttp.Cuckoo.Lookup.{update_at-set}
use pttp.Process.{
  Credit, Transaction, IsInt, IsInt64, Wire, SignKeyPair, Signer, to_int, is_negative, credits,
  count_negative, Outcome, sign_all, create, create_transaction, process_transaction,
}
use pttp.Process.Signed.{
  debtors, ints, accounts_of, signs, take-suc-set, take_all, process-delivered,
}

pub to_int_same : (a : ℤ) → IsInt a → to_int a ≡ a
unfolding to_int
to_int_same (pos n) h = ground arith
to_int_same (negsuc n) h = ground arith

-- The account comes from a seed.
abbrev pub IsMade : Signer → SignKeyPair → Type 0
IsMade signer acc = (seed : Bytes) × (acc ≡ signer.keypair seed)

module _ (signer : Signer) (m : Bytes) where
  -- The signatures of `m` by the accounts that pay.
  abbrev pub signatures : List SignKeyPair → List ℤ → List Bytes
  signatures [] amounts = []
  signatures (acc ∷ accounts) [] = []
  signatures (acc ∷ accounts) (a ∷ amounts) =
      if is_negative a
      then signer.sign m acc.priv ∷ signatures accounts amounts
      else signatures accounts amounts

  sign_all-signatures :
      (accounts : List SignKeyPair) (amounts : List ℤ) (c : ℕ) (sigs : List Bytes)
      → length accounts ≡ length amounts
      → length sigs ≡ c + count_negative amounts
      → sign_all signer m accounts amounts c sigs
        ≡ some (take c sigs ++ signatures accounts amounts)
  unfolding sign_all count_negative
  sign_all-signatures [] [] c sigs e size =
      ap some (sym (append-nil (take c sigs) ∙ take_all sigs c (omega arith)))
  sign_all-signatures [] (a ∷ amounts) c sigs e size = absurd (omega arith)
  sign_all-signatures (acc ∷ accounts) [] c sigs e size = absurd (omega arith)
  sign_all-signatures (acc ∷ accounts) (a ∷ amounts) c sigs e size =
      elim (Bool-cases (is_negative a)) [
        | inl neg ↦
            let s = signer.sign m acc.priv in
            let size' : length sigs ≡ c + suc (count_negative amounts) = rw neg at size in
            let h : c < length sigs = omega arith in
            rw (neg, update_at-set sigs c s h)
              (sign_all-signatures accounts amounts (suc c) (set sigs c s) (omega arith)
                  (omega (arith, length-set sigs c s))
                ∙ ap some (take-suc-set sigs c s (signatures accounts amounts) h))
        | inr pays ↦
            rw pays (sign_all-signatures accounts amounts c sigs (omega arith) (rw pays at size))
      ]

  verify-made :
      (acc : SignKeyPair)
      → IsMade signer acc
      → signer.verify (signer.sign m acc.priv) m acc.pub_key ≡ true
  verify-made acc (seed, same) = rw same (signer.verify-sign seed m)

  pub signs-signatures :
      (accounts : List SignKeyPair) (amounts : List ℤ)
      → length accounts ≡ length amounts
      → All (IsMade signer) accounts
      → All IsInt amounts
      → signs signer m (debtors (credits accounts amounts)) (signatures accounts amounts) ≡ true
  unfolding credits
  signs-signatures [] amounts e made fits = refl
  signs-signatures (acc ∷ accounts) [] e made fits = refl
  signs-signatures (acc ∷ accounts) (a ∷ amounts) e made fits = elim (Bool-cases (is_negative a)) [
    | inl neg ↦
        rw (to_int_same a fits.0, neg)
          (ap₂ ◌&&◌ (verify-made acc made.0)
            (signs-signatures accounts amounts (omega arith) made.1 fits.1))
    | inr pays ↦
        rw (to_int_same a fits.0, pays)
          (signs-signatures accounts amounts (omega arith) made.1 fits.1)
  ]

  length-signatures :
      (accounts : List SignKeyPair) (amounts : List ℤ)
      → length accounts ≡ length amounts
      → All IsInt amounts
      → length (debtors (credits accounts amounts)) ≡ length (signatures accounts amounts)
  unfolding credits
  length-signatures [] amounts e fits = refl
  length-signatures (acc ∷ accounts) [] e fits = refl
  length-signatures (acc ∷ accounts) (a ∷ amounts) e fits = elim (Bool-cases (is_negative a)) [
    | inl neg ↦
        rw (to_int_same a fits.0, neg)
          (ap suc (length-signatures accounts amounts (omega arith) fits.1))
    | inr pays ↦
        rw (to_int_same a fits.0, pays) (length-signatures accounts amounts (omega arith) fits.1)
  ]

ints-credits :
    (accounts : List SignKeyPair) (amounts : List ℤ)
    → length accounts ≡ length amounts
    → All IsInt amounts
    → ints (credits accounts amounts) ≡ amounts
unfolding credits
ints-credits [] [] e fits = refl
ints-credits [] (a ∷ amounts) e fits = absurd (omega arith)
ints-credits (acc ∷ accounts) [] e fits = absurd (omega arith)
ints-credits (acc ∷ accounts) (a ∷ amounts) e fits =
    ap₂ ◌∷◌ (to_int_same a fits.0) (ints-credits accounts amounts (omega arith) fits.1)

accounts_of-credits :
    (accounts : List SignKeyPair) (amounts : List ℤ)
    → length accounts ≡ length amounts
    → accounts_of (credits accounts amounts) ≡ map (λ acc. SignKeyPair.pub_key acc) accounts
unfolding credits
accounts_of-credits [] amounts e = refl
accounts_of-credits (acc ∷ accounts) [] e = absurd (omega arith)
accounts_of-credits (acc ∷ accounts) (a ∷ amounts) e =
    ap (λ t. acc.pub_key ∷ t) (accounts_of-credits accounts amounts (omega arith))

credits-IsInt64 :
    (accounts : List SignKeyPair) (amounts : List ℤ)
    → All IsInt amounts
    → All (λ c. IsInt64 (Credit.amount c)) (credits accounts amounts)
unfolding credits
credits-IsInt64 [] amounts fits = tt
credits-IsInt64 (acc ∷ accounts) [] fits = tt
credits-IsInt64 (acc ∷ accounts) (pos n ∷ amounts) fits =
    (omega arith, credits-IsInt64 accounts amounts fits.1)
credits-IsInt64 (acc ∷ accounts) (negsuc n ∷ amounts) fits =
    (omega arith, credits-IsInt64 accounts amounts fits.1)

-- The vectors that a caller starts with.
abbrev pub empty : Outcome
empty = record { accounts = []; amounts = []; sigs = [] }

module _ (signer : Signer) (wire : Wire) (accounts : List SignKeyPair) (amounts : List ℤ)
    (e : length accounts ≡ length amounts) where
  abbrev pub made : Transaction
  made = record {
    credit_set = wire.write_credits (credits accounts amounts);
    signatures = signatures signer (wire.write_credits (credits accounts amounts)) accounts amounts;
  }

  -- With as many amounts as accounts, `create_transaction` signs the credits once for each negative
  -- amount, in order, and never writes past the signatures that it has made room for.
  pub create-signatures : create signer wire accounts amounts ≡ some (some made)
  unfolding create
  create-signatures =
      let n = count_negative amounts in
      let same : length amounts == length accounts ≡ true = ground (arith, e) in
      rw
        (
          same,
          sign_all-signatures signer made.credit_set accounts amounts 0 (replicate n []) e
              (omega (arith, length-replicate {A = Bytes} n [])),
        )
        refl

  -- A transaction that `create_transaction` makes, for accounts made from seeds and as many amounts,
  -- which an `int` holds, as accounts, is accepted by `process_transaction`, which gives back the public
  -- keys, the amounts and the signatures.
  pub process_transaction-create :
      All (IsMade signer) accounts
      → All IsInt amounts
      → (create_transaction signer wire accounts amounts >>= λ b.
          process_transaction signer wire b empty)
        ≡ some (
          true,
          record {
            accounts = map (λ acc. SignKeyPair.pub_key acc) accounts;
            amounts = amounts;
            sigs = made.signatures;
          },
        )
  unfolding create_transaction process_transaction
  process_transaction-create from_seed fits =
      let known =
        wire.read-write_credits (credits accounts amounts)
          (credits-IsInt64 accounts amounts fits) in
      let ok = signs-signatures signer made.credit_set accounts amounts e from_seed fits in
      let accepted = process-delivered signer wire made (credits accounts amounts) empty known ok in
      rw (create-signatures, wire.read-write_transaction made, accepted)
        (ap₂
          (λ (o : List Bytes) (r : List ℤ × List Bytes).
            some (true, record { accounts = o; amounts = r.0; sigs = r.1 }))
          (accounts_of-credits accounts amounts e)
          (ap₂ (λ r s. (r, s)) (ints-credits accounts amounts e fits)
            (take_all made.signatures (length (debtors (credits accounts amounts)))
              (sym (length-signatures signer made.credit_set accounts amounts e fits)))))
