-- ===== src/Chain/Conserving.antt =====
-- `BlockChain::get_latest`: what the transactions that it takes do to the sum of all balances.
use pttp.Prelude.{
  ℕ, ◌+◌, ◌*◌, ◌^◌, ◌<◌, ◌≡◌, sym, ap, ◌∙◌, List, [], ◌∷◌, none, some, >>=-eq-some, Bool-cases,
  Option-cases, inl, inr, All, of_some, subst,
}
use pttp.Prelude.Int.{ℤ, pos, ◌+ℤ◌, ◌-ℤ◌, +ℤ_assoc, +ℤ_cancel, int_laws}
use pttp.Bytes.{Bytes, equal}
use pttp.Maps.{Map, lookup, assign, before}
use pttp.Maps.Order.{IsOrdered, assign-IsOrdered, lookup-before}
use pttp.Process.{Credit}
use pttp.Ledger.{Transaction}
use pttp.Chain.{fits, add64, is_spendable, apply_credits, select}
use pttp.Chain.Spec.{funds, or_zero, credits_of, chosen, weight}
use pttp.Chain.Spending.{AreWithin}
use pttp.Chain.Selecting.{IsKnown, credits_of-found, select-settles}

-- The sum of all balances.
abbrev pub total : Map ℤ → ℤ
total [] = pos 0
total (e ∷ m) = e.1 +ℤ total m

-- The sum of a transaction's credits.
abbrev pub net : List Credit → ℤ
net [] = pos 0
net (c ∷ cs) = c.amount +ℤ net cs

-- The sum of the credits of the transactions.
abbrev pub issued : Map Transaction → List Bytes → ℤ
issued txs [] = pos 0
issued txs (hash ∷ hashes) = net (credits_of txs hash) +ℤ issued txs hashes

total-assign :
    (k : Bytes) (v : ℤ) (m : Map ℤ)
    → IsOrdered m
    → total (assign k v m) +ℤ or_zero (lookup k m) ≡ total m +ℤ v
unfolding assign lookup
total-assign k v [] o = omega int_laws
total-assign k v (e ∷ m) o = elim (Bool-cases (equal k e.0)) [
  | inl same ↦ rw same (omega int_laws)
  | inr other ↦ elim (Bool-cases (before k e.0)) [
    | inl b ↦ rw (other, b, lookup-before k e.0 m b o.0) (omega int_laws)
    | inr b ↦
        let rest = total-assign k v m o.1 in
        let f = or_zero (lookup k m) in
        rw (other, b)
          (+ℤ_assoc e.1 (total (assign k v m)) f
            ∙ ap (λ t. e.1 +ℤ t) rest
            ∙ sym (+ℤ_assoc e.1 (total m) v))
  ]
]

add64-sum : (a b s : ℤ) → add64 a b ≡ some s → s ≡ a +ℤ b
unfolding add64
add64-sum a b s h = elim (Bool-cases (fits (a +ℤ b))) [
  | inl e ↦ sym (of_some (rw e at h))
  | inr e ↦ cc (rw e at h)
]

raise : (old new b a : ℤ) → new +ℤ b ≡ old +ℤ (b +ℤ a) → new ≡ old +ℤ a
raise old new b a h = sym (+ℤ_cancel new b) ∙ ap (λ t. t -ℤ b) h ∙ shift
  where
    shift : old +ℤ (b +ℤ a) -ℤ b ≡ old +ℤ a
    shift = omega int_laws

-- The total after one credit, of an account with a balance and of one without.
total-assign_old :
    (k : Bytes) (m : Map ℤ) (b a s : ℤ)
    → IsOrdered m
    → lookup k m ≡ some b
    → s ≡ b +ℤ a
    → total (assign k s m) ≡ total m +ℤ a
total-assign_old k m b a s o found sum = raise (total m) (total (assign k s m)) b a (
    ap (λ f. total (assign k s m) +ℤ or_zero f) (sym found)
    ∙ total-assign k s m o
    ∙ ap (λ t. total m +ℤ t) sum)

total-assign_new :
    (k : Bytes) (m : Map ℤ) (a : ℤ)
    → IsOrdered m
    → lookup k m ≡ none
    → total (assign k a m) ≡ total m +ℤ a
total-assign_new k m a o gone =
    raise (total m) (total (assign k a m)) (pos 0) a
      (ap (λ f. total (assign k a m) +ℤ or_zero f) (sym gone) ∙ total-assign k a m o ∙ padded)
  where
    padded : total m +ℤ a ≡ total m +ℤ (pos 0 +ℤ a)
    padded = omega int_laws

zero-right : (a : ℤ) → a ≡ a +ℤ pos 0
zero-right a = omega int_laws

next_total : (t t' t'' a n : ℤ) → t' ≡ t +ℤ a → t'' ≡ t' +ℤ n → t'' ≡ t +ℤ (a +ℤ n)
next_total t t' t'' a n h k = k ∙ ap (λ u. u +ℤ n) h ∙ +ℤ_assoc t a n

-- What the second loop leaves is ordered, and its total is raised by the transaction's credits.
apply_credits-total :
    (m m' : Map ℤ) (cs : List Credit)
    → IsOrdered m
    → apply_credits m cs ≡ some m'
    → IsOrdered m' × (total m' ≡ total m +ℤ net cs)
unfolding apply_credits
apply_credits-total m m' [] o h =
    subst (λ x. IsOrdered x × (total x ≡ total m +ℤ pos 0)) (of_some h) (o, zero-right (total m))
apply_credits-total m m' (c ∷ cs) o h = elim (Option-cases (lookup c.account m)) [
  | inl gone ↦
      let m1 = assign c.account c.amount m in
      let rest =
        apply_credits-total m1 m' cs (assign-IsOrdered c.account c.amount m o)
          (rw (apply_credits, gone) at h) in
      (
        rest.0,
        next_total (total m) (total m1) (total m') c.amount (net cs)
            (total-assign_new c.account m c.amount o gone) rest.1,
      )
  | inr (b, found) ↦
      let added = >>=-eq-some (add64 b c.amount) _ (rw (apply_credits, found) at h) in
      let m1 = assign c.account added.0 m in
      let rest = apply_credits-total m1 m' cs (assign-IsOrdered c.account added.0 m o) added.2 in
      (
        rest.0,
        next_total (total m) (total m1) (total m') c.amount (net cs)
            (total-assign_old c.account m b c.amount added.0 o found
              (add64-sum b c.amount added.0 added.1))
            rest.1,
      )
]

-- The total is raised by the credits of the transactions that were taken.
IsConserved : Map Transaction → Map ℤ → List Bytes × Map ℤ → Type 0
IsConserved txs m r = total r.1 ≡ total m +ℤ issued txs r.0

select-IsConserved :
    (txs : Map Transaction) (hashes : List Bytes) (m : Map ℤ) (r : List Bytes × Map ℤ)
    → IsOrdered m
    → select txs hashes m ≡ some r
    → IsConserved txs m r
unfolding select IsConserved
select-IsConserved txs [] m r o h =
    subst (λ x. total x.1 ≡ total m +ℤ issued txs x.0) (of_some h) (zero-right (total m))
select-IsConserved txs (hash ∷ hashes) m r o h =
    let (tx, found, h1) = >>=-eq-some (lookup hash txs) _ h in
    let (valid, decided, h2) = >>=-eq-some (is_spendable m [] tx.credits) _ h1 in
    elim (Bool-cases valid) [
      | inr e ↦ select-IsConserved txs hashes m r o (rw e at h2)
      | inl e ↦
          let (m1, paid, h3) = >>=-eq-some (apply_credits m tx.credits) _ (rw e at h2) in
          let (r1, later, h4) = >>=-eq-some (select txs hashes m1) _ h3 in
          let first = apply_credits-total m m1 tx.credits o paid in
          let rest = select-IsConserved txs hashes m1 r1 first.0 later in
          subst (λ x. total x.1 ≡ total m +ℤ issued txs x.0) (of_some h4)
            (next_total (total m) (total m1) (total r1.1) (net (credits_of txs hash))
              (issued txs r1.0)
              (first.1 ∙ ap (λ cs. total m +ℤ net cs) (sym (credits_of-found txs hash tx found)))
              rest)
    ]

-- Where each hash is that of a kept transaction whose amounts are `int`s, and the balances are in the order of
-- their accounts, not negative, and within a bound that leaves room in 64 bits for every credit, the loop over the
-- mempool comes to its end; it keeps the transactions that the ledger chooses; the balances after it are not
-- negative and within that bound and 2^31 for each credit; and their sum is the sum before it plus the sum of
-- the credits of the transactions that it has chosen, which may be of either sign.
pub select-total :
    (txs : Map Transaction) (hashes : List Bytes) (m : Map ℤ) (bound : ℕ)
    → All (IsKnown txs) hashes
    → AreWithin bound m
    → IsOrdered m
    → bound + 2 ^ 31 * weight txs hashes < 2 ^ 63
    → (r : List Bytes × Map ℤ) × (select txs hashes m ≡ some r)
      × (r.0 ≡ chosen txs (funds m) hashes)
      × AreWithin (bound + 2 ^ 31 * weight txs hashes) r.1
      × (total r.1 ≡ total m +ℤ issued txs (chosen txs (funds m) hashes))
unfolding IsConserved
select-total txs hashes m bound known w o room =
    let (r, e, settles) = select-settles txs hashes m bound known w room in
    (
      r,
      e,
      settles.0,
      settles.1.0,
      select-IsConserved txs hashes m r o e ∙ ap (λ hs. total m +ℤ issued txs hs) settles.0,
    )
