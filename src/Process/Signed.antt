-- ===== src/Process/Signed.antt =====
-- What `process_transaction` accepts, and what it gives back.
use pttp.Prelude.{
  ℕ, zero, suc, ◌+◌, ◌<◌, ◌≡◌, refl, ap, ap₂, arith, ◌∙◌, List, [], ◌∷◌, ◌++◌, append_assoc,
  append-nil, length, length-set, length-append, length-take, length-replicate, get_elem?, set,
  take, drop, replicate, none, some, Bool, true, false, ◌&&◌, if◌then◌else◌, Bool-cases,
  Option-cases, inl, inr,
}
use pttp.Prelude.Int.{ℤ, pos}
use pttp.Bytes.{Bytes}
use pttp.Process.{
  Credit, Transaction, Wire, Signer, to_int, is_negative, Outcome, check_all, resize, process,
}

-- The accounts that pay: those whose amount is negative as an `int`.
abbrev pub debtors : List Credit → List Bytes
debtors [] = []
debtors (c ∷ cs) = if is_negative (to_int c.amount) then c.account ∷ debtors cs else debtors cs

-- The amounts as `int`.
abbrev pub ints : List Credit → List ℤ
ints [] = []
ints (c ∷ cs) = to_int c.amount ∷ ints cs

abbrev pub accounts_of : List Credit → List Bytes
accounts_of [] = []
accounts_of (c ∷ cs) = c.account ∷ accounts_of cs

-- Each account in turn has a signature of the message, in the order of the signatures.
abbrev pub signs : Signer → Bytes → List Bytes → List Bytes → Bool
signs signer m [] ws = true
signs signer m (d ∷ ds) [] = false
signs signer m (d ∷ ds) (w ∷ ws) = signer.verify w m d && signs signer m ds ws

module _ {ℓ} {A : Type ℓ} where
  pub drop-some :
      (xs : List A) (n : ℕ) {x : A} → get_elem? xs n ≡ some x → drop n xs ≡ x ∷ drop (suc n) xs
  drop-some [] n h = cc
  drop-some (x ∷ xs) zero h = cc
  drop-some (x ∷ xs) (suc n) h = drop-some xs n h

  pub drop-none : (xs : List A) (n : ℕ) → get_elem? xs n ≡ none → drop n xs ≡ []
  drop-none [] zero h = refl
  drop-none [] (suc n) h = refl
  drop-none (x ∷ xs) zero h = cc
  drop-none (x ∷ xs) (suc n) h = drop-none xs n h

  pub take-suc-set :
      (xs : List A) (i : ℕ) (a : A) (ys : List A)
      → i < length xs
      → take (suc i) (set xs i a) ++ ys ≡ take i xs ++ a ∷ ys
  take-suc-set [] i a ys h = absurd (omega arith)
  take-suc-set (x ∷ xs) zero a ys h = refl
  take-suc-set (x ∷ xs) (suc i) a ys h = ap (λ t. x ∷ t) (take-suc-set xs i a ys (omega arith))

  pub take_all : (xs : List A) (n : ℕ) → length xs ≡ n → take n xs ≡ xs
  take_all [] zero h = refl
  take_all [] (suc n) h = refl
  take_all (x ∷ xs) zero h = absurd (omega arith)
  take_all (x ∷ xs) (suc n) h = ap (λ t. x ∷ t) (take_all xs n (omega arith))

module _ (signer : Signer) (m : Bytes) (ws : List Bytes) where
  -- The loop's verdict is whether the witnesses that are left sign for the debtors that are left.
  check_all-signs :
      (cs : List Credit) (i n : ℕ) (out : Outcome)
      → (check_all signer m ws cs i n out).0 ≡ signs signer m (debtors cs) (drop n ws)
  unfolding check_all
  check_all-signs [] i n out = refl
  check_all-signs (c ∷ cs) i n out = elim (Bool-cases (is_negative (to_int c.amount))) [
    | inr e ↦ rw e (check_all-signs cs (suc i) n _)
    | inl e ↦ elim (Option-cases (get_elem? ws n)) [
      | inl gone ↦ rw (e, gone, drop-none ws n gone) refl
      | inr (w, there) ↦ elim (Bool-cases (signer.verify w m c.account)) [
        | inl good ↦
            rw (e, there, drop-some ws n there, good) (check_all-signs cs (suc i) (suc n) _)
        | inr bad ↦ rw (e, there, drop-some ws n there, bad) refl
      ]
    ]
  ]

  -- The vectors after the loop, where it accepts with signatures for `ds`.
  after : List Bytes → List Credit → ℕ → ℕ → Outcome → Outcome
  after ds cs i n out = record {
    accounts = out.accounts ++ accounts_of cs;
    amounts = take i out.amounts ++ ints cs;
    sigs = out.sigs ++ take (length ds) (drop n ws);
  }

  module _ (ds : List Bytes) (c : Credit) (cs : List Credit) (i n : ℕ) (out : Outcome)
      (h : i < length out.amounts) where
    abbrev noted : List Bytes → Outcome
    noted sigs = record {
      accounts = out.accounts ++ (c.account ∷ []);
      amounts = set out.amounts i (to_int c.amount);
      sigs = sigs;
    }

    after-skip : after ds cs (suc i) n (noted out.sigs) ≡ after ds (c ∷ cs) i n out
    unfolding after
    after-skip = rw (
      append_assoc out.accounts (c.account ∷ []) (accounts_of cs),
      take-suc-set out.amounts i (to_int c.amount) (ints cs) h,
    )

    after-sign :
        (d w : Bytes)
        → get_elem? ws n ≡ some w
        → after ds cs (suc i) (suc n) (noted (out.sigs ++ (w ∷ [])))
          ≡ after (d ∷ ds) (c ∷ cs) i n out
    unfolding after
    after-sign d w there = rw (
      append_assoc out.accounts (c.account ∷ []) (accounts_of cs),
      take-suc-set out.amounts i (to_int c.amount) (ints cs) h,
      drop-some ws n there,
      append_assoc out.sigs (w ∷ []) (take (length ds) (drop (suc n) ws)),
    )

  check_all-after :
      (cs : List Credit) (i n : ℕ) (out : Outcome)
      → signs signer m (debtors cs) (drop n ws) ≡ true
      → length out.amounts ≡ i + length cs
      → (check_all signer m ws cs i n out).1 ≡ after (debtors cs) cs i n out
  unfolding check_all
  check_all-after [] i n out ok size =
      unfold after in
      rw (
        append-nil out.accounts,
        append-nil (take i out.amounts),
        append-nil out.sigs,
        take_all out.amounts i (omega arith),
      )
  check_all-after (c ∷ cs) i n out ok size =
      let h : i < length out.amounts = omega arith in
      let size' : length (set out.amounts i (to_int c.amount)) ≡ suc i + length cs =
        omega (arith, length-set out.amounts i (to_int c.amount)) in
      elim (Bool-cases (is_negative (to_int c.amount))) [
        | inr e ↦ rw e (
            check_all-after cs (suc i) n (noted (debtors cs) c cs i n out h out.sigs) (rw e at ok)
              size'
            ∙ after-skip (debtors cs) c cs i n out h)
        | inl e ↦ elim (Option-cases (get_elem? ws n)) [
          | inl gone ↦ cc (rw (e, drop-none ws n gone) at ok)
          | inr (w, there) ↦ elim (Bool-cases (signer.verify w m c.account)) [
            | inl good ↦
                rw (e, there, good)
                  (check_all-after cs (suc i) (suc n)
                      (noted (debtors cs) c cs i n out h (out.sigs ++ (w ∷ [])))
                      (rw (e, drop-some ws n there, good) at ok) size'
                    ∙ after-sign (debtors cs) c cs i n out h c.account w there)
            | inr bad ↦ cc (rw (e, drop-some ws n there, bad) at ok)
          ]
        ]
      ]

-- What `process_transaction` gives back of a message whose credits are `cs`, where it accepts.
abbrev pub delivered : Transaction → List Credit → Outcome → Outcome
delivered tx cs out = record {
  accounts = out.accounts ++ accounts_of cs;
  amounts = ints cs;
  sigs = out.sigs ++ take (length (debtors cs)) tx.signatures;
}

module _ (signer : Signer) (wire : Wire) (tx : Transaction) (cs : List Credit) (out : Outcome)
    (known : wire.read_credits tx.credit_set ≡ some cs) where
  abbrev sized : Outcome
  sized = record out { amounts = resize (length cs) out.amounts }

  sized_lem : length sized.amounts ≡ length cs
  sized_lem =
      let padded = out.amounts ++ replicate (length cs) (pos 0) in
      omega (
        arith,
        length-take (length cs) padded,
        length-append out.amounts (replicate (length cs) (pos 0)),
        length-replicate (length cs) (pos 0),
      )

  -- On a message whose credit set can be read, `process_transaction` runs to its end. It accepts if and
  -- only if the first signatures, in their order, verify for the accounts whose amount is negative as
  -- an `int`, in theirs; one signature too few is a refusal.
  pub process-signs :
      (out' : Outcome) × (process signer wire tx out
        ≡ some (signs signer tx.credit_set (debtors cs) tx.signatures, out'))
  unfolding process
  process-signs = (
    (check_all signer tx.credit_set tx.signatures cs 0 0 sized).1,
    rw known (
        ap (λ b. some (b, (check_all signer tx.credit_set tx.signatures cs 0 0 sized).1))
          (check_all-signs signer tx.credit_set tx.signatures cs 0 0 sized)),
  )

  -- On a message whose credit set can be read, and whose first signatures verify in order for the
  -- accounts whose amount is negative as an `int`, `process_transaction` accepts. It appends the accounts in order, replaces the
  -- amounts by those of the message as `int`, and appends the signatures that it has checked.
  pub process-delivered :
      signs signer tx.credit_set (debtors cs) tx.signatures ≡ true
      → process signer wire tx out ≡ some (true, delivered tx cs out)
  unfolding process
  process-delivered ok =
      let outputs : (check_all signer tx.credit_set tx.signatures cs 0 0 sized).1
          ≡ delivered tx cs out =
        unfold after in
        check_all-after signer tx.credit_set tx.signatures cs 0 0 sized ok
          (omega (arith, sized_lem)) in
      rw known (
        ap₂ (λ b o. some (b, o))
          (check_all-signs signer tx.credit_set tx.signatures cs 0 0 sized ∙ ok) outputs)
