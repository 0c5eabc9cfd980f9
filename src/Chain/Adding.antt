-- ===== src/Chain/Adding.antt =====
-- `BlockChain::add`: the transactions that are kept and the mempool.
pub mod Twice
use pttp.Prelude.{
  ◌≡◌, refl, sym, subst, arith, length, replicate, >>=-eq-some, ap, ◌∙◌, List, [], ◌∷◌, map, some,
  none, Bool-cases, Option-cases, inl, inr, All,
}
use pttp.Prelude.Int.{ℤ, pos, negsuc}
use pttp.Bytes.{Bytes, equal}
use pttp.Maps.{Map, lookup, assign, include, before}
use pttp.Maps.Laws.{lookup-assign, lookup-assign_self}
use pttp.Merkle.{GenericHasher, hash_size}
use pttp.Process
use pttp.Process.{Credit, IsInt, Wire, Signer, to_int}
use pttp.Ledger
use pttp.Ledger.{Transaction, parse, stored, verify_all}
use pttp.Chain.{BlockChain, add}
use pttp.Chain.Selecting.{IsKnown}
use pttp.Chain.Latest.{IsSound}

All-include :
    (P : Bytes → Type 0) (k : Bytes) (xs : List Bytes) → P k → All P xs → All P (include k xs)
unfolding include
All-include P k [] p all = (p, tt)
All-include P k (x ∷ xs) p all = elim (Bool-cases (equal k x)) [
  | inl e ↦ rw e all
  | inr e ↦ elim (Bool-cases (before k x)) [
    | inl b ↦ rw (e, b) (p, all)
    | inr b ↦ rw (e, b) (all.0, All-include P k xs p all.1)
  ]
]

IsKnown-assign :
    (txs : Map Transaction) (hash k : Bytes) (tx : Transaction)
    → All (λ c. IsInt (Credit.amount c)) tx.credits
    → IsKnown txs k
    → IsKnown (assign hash tx txs) k
IsKnown-assign txs hash k tx ints (old, found, olds) = elim (Bool-cases (equal k hash)) [
  | inl e ↦ (tx, rw (lookup-assign k hash tx txs, e) refl, ints)
  | inr e ↦ (old, rw (lookup-assign k hash tx txs, e) found, olds)
]

All-IsKnown :
    (txs : Map Transaction) (hash : Bytes) (ks : List Bytes) (tx : Transaction)
    → All (λ c. IsInt (Credit.amount c)) tx.credits
    → All (IsKnown txs) ks
    → All (IsKnown (assign hash tx txs)) ks
All-IsKnown txs hash [] tx ints all = tt
All-IsKnown txs hash (k ∷ ks) tx ints all =
    (IsKnown-assign txs hash k tx ints all.0, All-IsKnown txs hash ks tx ints all.1)

to_int-IsInt : (a : ℤ) → IsInt (to_int a)
unfolding to_int
to_int-IsInt (pos n) = ground arith
to_int-IsInt (negsuc n) = ground arith

map-stored-IsInt : (cs : List Credit) → All (λ c. IsInt (Credit.amount c)) (map stored cs)
unfolding stored
map-stored-IsInt [] = tt
map-stored-IsInt (c ∷ cs) = (to_int-IsInt c.amount, map-stored-IsInt cs)

kept_ints :
    (cs : List Credit) (kept tx : Transaction)
    → kept.credits ≡ map stored cs
    → some kept ≡ some tx
    → All (λ c. IsInt (Credit.amount c)) tx.credits
kept_ints cs kept tx same h =
    let e : kept ≡ tx = cc h in
    subst (All (λ c. IsInt (Credit.amount c))) (sym same ∙ ap Transaction.credits e)
      (map-stored-IsInt cs)

pub parse-IsInt :
    (signer : Signer) (wire : Wire) (p : Process.Transaction) (tx : Transaction)
    → parse signer wire p ≡ some tx
    → All (λ c. IsInt (Credit.amount c)) tx.credits
unfolding parse
parse-IsInt signer wire p tx h =
    let read = >>=-eq-some (wire.read_credits p.credit_set) _ h in
    let checked =
      >>=-eq-some
        (verify_all signer p.credit_set p.signatures read.0 0 (replicate (length read.0) [])) _
        read.2 in
    kept_ints read.0 _ tx refl checked.2

unfoldable pub tx_hash : GenericHasher → Wire → Transaction → Bytes
tx_hash hasher wire tx = hasher.digest hash_size (Ledger.bytes wire tx)

pub add-known :
    (hasher : GenericHasher) (wire : Wire) (tx : Transaction) (c : BlockChain) (old : Transaction)
    → lookup (tx_hash hasher wire tx) c.txs ≡ some old
    → add hasher wire tx c ≡ c
unfolding add tx_hash
add-known hasher wire tx c old e = rw (e, add) refl

pub add-new :
    (hasher : GenericHasher) (wire : Wire) (tx : Transaction) (c : BlockChain)
    → lookup (tx_hash hasher wire tx) c.txs ≡ none
    → add hasher wire tx c ≡ record c {
      txs = assign (tx_hash hasher wire tx) tx c.txs;
      mempool = include (tx_hash hasher wire tx) c.mempool;
    }
unfolding add tx_hash
add-new hasher wire tx c e = rw (e, add) refl

pub add-IsSound :
    (hasher : GenericHasher) (wire : Wire) (tx : Transaction) (c : BlockChain)
    → All (λ c. IsInt (Credit.amount c)) tx.credits
    → IsSound c
    → IsSound (add hasher wire tx c)
add-IsSound hasher wire tx c ints sound =
    let hash = tx_hash hasher wire tx in
    elim (Option-cases (lookup hash c.txs)) [
      | inr (old, e) ↦ subst IsSound (sym (add-known hasher wire tx c old e)) sound
      | inl e ↦ subst IsSound (sym (add-new hasher wire tx c e)) (
          All-include (IsKnown (assign hash tx c.txs)) hash c.mempool
            (tx, lookup-assign_self hash tx c.txs, ints)
            (All-IsKnown c.txs hash c.mempool tx ints sound))
    ]

pub add-balance :
    (hasher : GenericHasher) (wire : Wire) (tx : Transaction) (c : BlockChain)
    → BlockChain.balance (add hasher wire tx c) ≡ c.balance
add-balance hasher wire tx c = elim (Option-cases (lookup (tx_hash hasher wire tx) c.txs)) [
  | inr (old, e) ↦ ap BlockChain.balance (add-known hasher wire tx c old e)
  | inl e ↦ ap BlockChain.balance (add-new hasher wire tx c e)
]
