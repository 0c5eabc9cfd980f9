-- ===== src/Chain/Selecting.antt =====
-- `BlockChain::get_latest`: the loop over the mempool, and the whole of it.
use pttp.Prelude.{
  ℕ, ◌+◌, ◌*◌, ◌^◌, ◌<◌, ◌≤◌, ◌≡◌, refl, sym, ap, ◌∙◌, arith, List, [], ◌∷◌, length, some, true,
  false, Bool-cases, inl, inr, All,
}
use pttp.Prelude.Int.{ℤ}
use pttp.Bytes.{Bytes}
use pttp.Maps.{Map, lookup}
use pttp.Process.{Credit, IsInt}
use pttp.Ledger.{Transaction}
use pttp.Chain.{is_spendable, apply_credits, select}
use pttp.Chain.Spec.{funds, credits_of, spendable, pay, chosen, settled, weight}
use pttp.Chain.Spending.{AreWithin, AreWithin-weaken, is_spendable-spendable}
use pttp.Chain.Applying.{IsPaid, apply_credits-pay}

-- The transaction is there, and its amounts are those that its constructor reads into an `int`.
abbrev pub IsKnown : Map Transaction → Bytes → Type 0
IsKnown txs hash =
    (tx : Transaction) × (lookup hash txs ≡ some tx) × All (λ c. IsInt (Credit.amount c)) tx.credits

-- What the loop is to return.
abbrev pub IsSettled : Map Transaction → List Bytes → (Bytes → ℤ) → ℕ → List Bytes × Map ℤ → Type 0
IsSettled txs hashes f bound r =
    (r.0 ≡ chosen txs f hashes) × IsPaid bound (settled txs f hashes) r.1

select_takes :
    (txs : Map Transaction) (hash : Bytes) (hashes : List Bytes) (m m' : Map ℤ) (tx : Transaction)
    (r : List Bytes × Map ℤ)
    → lookup hash txs ≡ some tx
    → is_spendable m [] tx.credits ≡ some true
    → apply_credits m tx.credits ≡ some m'
    → select txs hashes m' ≡ some r
    → select txs (hash ∷ hashes) m ≡ some (hash ∷ r.0, r.1)
unfolding select
select_takes txs hash hashes m m' tx r found valid paid e = rw (found, valid, paid, e) refl

select_skips :
    (txs : Map Transaction) (hash : Bytes) (hashes : List Bytes) (m : Map ℤ) (tx : Transaction)
    → lookup hash txs ≡ some tx
    → is_spendable m [] tx.credits ≡ some false
    → select txs (hash ∷ hashes) m ≡ select txs hashes m
unfolding select
select_skips txs hash hashes m tx found invalid = rw (found, invalid) refl

pub credits_of-found :
    (txs : Map Transaction) (hash : Bytes) (tx : Transaction)
    → lookup hash txs ≡ some tx
    → credits_of txs hash ≡ tx.credits
unfolding credits_of
credits_of-found txs hash tx found = rw found refl

keep_taken :
    (txs : Map Transaction) (hash : Bytes) (hashes : List Bytes) (f g : Bytes → ℤ) (bound : ℕ)
    (r : List Bytes × Map ℤ)
    → spendable f (credits_of txs hash) ≡ true
    → g ≡ pay f (credits_of txs hash)
    → IsSettled txs hashes g bound r
    → IsSettled txs (hash ∷ hashes) f bound (hash ∷ r.0, r.1)
keep_taken txs hash hashes f g bound r good paid s = rw good (
  ap (λ hs. hash ∷ hs) s.0 ∙ ap (λ b. hash ∷ chosen txs b hashes) paid,
  (s.1.0, s.1.1 ∙ ap (λ b. settled txs b hashes) paid),
)

keep_skipped :
    (txs : Map Transaction) (hash : Bytes) (hashes : List Bytes) (f : Bytes → ℤ) (bound : ℕ)
    (r : List Bytes × Map ℤ)
    → spendable f (credits_of txs hash) ≡ false
    → IsSettled txs hashes f bound r
    → IsSettled txs (hash ∷ hashes) f bound r
keep_skipped txs hash hashes f bound r bad s = rw bad s

IsSettled-weaken :
    (txs : Map Transaction) (hashes : List Bytes) (f : Bytes → ℤ) (bound more : ℕ)
    (r : List Bytes × Map ℤ)
    → bound ≤ more
    → IsSettled txs hashes f bound r
    → IsSettled txs hashes f more r
IsSettled-weaken txs hashes f bound more r le s =
    (s.0, (AreWithin-weaken bound more r.1 le s.1.0, s.1.1))

pub select-settles :
    (txs : Map Transaction) (hashes : List Bytes) (m : Map ℤ) (bound : ℕ)
    → All (IsKnown txs) hashes
    → AreWithin bound m
    → bound + 2 ^ 31 * weight txs hashes < 2 ^ 63
    → (r : List Bytes × Map ℤ) × (select txs hashes m ≡ some r)
      × IsSettled txs hashes (funds m) (bound + 2 ^ 31 * weight txs hashes) r
unfolding select
select-settles txs [] m bound known w room =
    (([], m), refl, (refl, (AreWithin-weaken bound _ m (omega arith) w, refl)))
select-settles txs (hash ∷ hashes) m bound ((tx, found, ints), known) w room =
    let valid = is_spendable-spendable bound m tx.credits ints w in
    let cs = credits_of-found txs hash tx found in
    let room' : bound + 2 ^ 31 * (length tx.credits + weight txs hashes) < 2 ^ 63 = rw cs at room in
    elim (Bool-cases (spendable (funds m) tx.credits)) [
      | inl good ↦
          let paid =
            apply_credits-pay bound m tx.credits ints (ground (arith, good)) (ground (arith, good))
              w (omega (arith, room')) in
          let r =
            select-settles txs hashes paid.0 (bound + 2 ^ 31 * length tx.credits) known paid.2.0
              (omega (arith, room')) in
          (
            (hash ∷ r.0.0, r.0.1),
            select_takes txs hash hashes m paid.0 tx r.0 found (valid ∙ ap some good) paid.1 r.1,
            IsSettled-weaken txs (hash ∷ hashes) (funds m) _ _ (hash ∷ r.0.0, r.0.1)
                (rw cs (omega arith))
                (keep_taken txs hash hashes (funds m) (funds paid.0) _ r.0 (rw cs good)
                  (paid.2.1 ∙ ap (pay (funds m)) (sym cs)) r.2),
          )
      | inr bad ↦
          let r = select-settles txs hashes m bound known w (omega (arith, room')) in
          (
            r.0,
            select_skips txs hash hashes m tx found (valid ∙ ap some bad) ∙ r.1,
            IsSettled-weaken txs (hash ∷ hashes) (funds m) _ _ r.0 (rw cs (omega arith))
                (keep_skipped txs hash hashes (funds m) _ r.0 (rw cs bad) r.2),
          )
    ]
