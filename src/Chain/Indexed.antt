-- ===== src/Chain/Indexed.antt =====
-- `BlockChain`: how the transactions that are kept and the mempool agree.
use pttp.Prelude.{
  ◌≡◌, refl, sym, ap, subst, ◌∙◌, List, [], Option, none, some, Bool, true, false, Bool-cases,
  Option-cases, inl, inr, of_some,
}
use pttp.Bytes.{Bytes, equal, equal_sound}
use pttp.Maps.{Map, member, lookup, include, assign}
use pttp.Maps.Laws.{member-include, lookup-assign}
use pttp.Maps.Order.{IsOrdered, assign-IsOrdered}
use pttp.Merkle.{GenericHasher}
use pttp.Process.{Wire, Signer}
use pttp.Ledger.{Transaction}
use pttp.Chain.{BlockChain, new, add}
use pttp.Chain.Adding.{tx_hash, add-known, add-new}
use pttp.Chain.Reachable.{
  Reaches, start, added, latest_taken, get_latest-SameLedger, SameLedger, Reaches-IsSound,
}
use pttp.Chain.Latest.{IsSound}

abbrev pub present {ℓ} : {A : Type ℓ} → Option A → Bool
present none = false
present (some a) = true

-- The mempool has the keys of the kept transactions, and each of these is kept under its hash.
abbrev pub AreFiled : GenericHasher → Wire → Map Transaction → List Bytes → Type 0
AreFiled hasher wire txs mempool =
    IsOrdered txs
    × ((k : Bytes) → member k mempool ≡ present (lookup k txs))
    × ((k : Bytes) (tx : Transaction) → lookup k txs ≡ some tx → k ≡ tx_hash hasher wire tx)

abbrev pub IsIndexed : GenericHasher → Wire → BlockChain → Type 0
IsIndexed hasher wire c = AreFiled hasher wire c.txs c.mempool

new-IsIndexed : (hasher : GenericHasher) (wire : Wire) → IsIndexed hasher wire new
unfolding new lookup member
new-IsIndexed hasher wire = (tt, λ k. refl, λ k tx h. cc h)

module _ (hasher : GenericHasher) (wire : Wire) (tx : Transaction) (c : BlockChain)
    (old : IsIndexed hasher wire c) where
  abbrev h : Bytes
  h = tx_hash hasher wire tx

  agreed : (k : Bytes) → member k (include h c.mempool) ≡ present (lookup k (assign h tx c.txs))
  agreed k = elim (Bool-cases (equal k h)) [
    | inl e ↦ rw (member-include k h c.mempool, lookup-assign k h tx c.txs, e) refl
    | inr e ↦ rw (member-include k h c.mempool, lookup-assign k h tx c.txs, e) (old.1 k)
  ]

  addressed :
      (k : Bytes) (t : Transaction)
      → lookup k (assign h tx c.txs) ≡ some t
      → k ≡ tx_hash hasher wire t
  addressed k t found = elim (Bool-cases (equal k h)) [
    | inl e ↦
        let same : tx ≡ t = of_some (rw (lookup-assign k h tx c.txs, e) at found) in
        equal_sound k h e ∙ ap (tx_hash hasher wire) same
    | inr e ↦ old.2 k t (rw (lookup-assign k h tx c.txs, e) at found)
  ]

  add-IsIndexed : IsIndexed hasher wire (add hasher wire tx c)
  add-IsIndexed = elim (Option-cases (lookup h c.txs)) [
    | inr (t, e) ↦ subst (IsIndexed hasher wire) (sym (add-known hasher wire tx c t e)) old
    | inl e ↦
        subst (IsIndexed hasher wire) (sym (add-new hasher wire tx c e))
          (assign-IsOrdered h tx c.txs old.0, agreed, addressed)
  ]

IsIndexed-same :
    (hasher : GenericHasher) (wire : Wire) (c c' : BlockChain)
    → SameLedger c c'
    → IsIndexed hasher wire c
    → IsIndexed hasher wire c'
IsIndexed-same hasher wire c c' (txs, pool, bal) old =
    subst (λ t. AreFiled hasher wire t c'.mempool) txs (subst (AreFiled hasher wire c.txs) pool old)

Reaches-AreFiled :
    (hasher : GenericHasher) (signer : Signer) (wire : Wire) (c : BlockChain)
    → Reaches hasher signer wire c
    → IsIndexed hasher wire c
Reaches-AreFiled hasher signer wire c start = new-IsIndexed hasher wire
Reaches-AreFiled hasher signer wire c (added {c = before} r p tx parsed) =
    add-IsIndexed hasher wire tx before (Reaches-AreFiled hasher signer wire before r)
Reaches-AreFiled hasher signer wire c (latest_taken {c = before} r hash c' taken) =
    IsIndexed-same hasher wire before c (get_latest-SameLedger hasher before c hash taken)
      (Reaches-AreFiled hasher signer wire before r)

-- In every state that a chain reaches from its constructor by adding transactions that its parser let through, and by
-- calls of `get_latest`, the kept transactions are in the order of their keys, the key of each is the hash of its
-- bytes, the mempool has exactly these keys, the amounts of the transactions in it are `int`s, and no account has a balance: nothing ever writes
-- one.
pub Reaches-IsIndexed :
    (hasher : GenericHasher) (signer : Signer) (wire : Wire) (c : BlockChain)
    → Reaches hasher signer wire c
    → IsIndexed hasher wire c × IsSound c × (c.balance ≡ [])
Reaches-IsIndexed hasher signer wire c r =
    let (sound, empty) = Reaches-IsSound hasher signer wire c r in
    (Reaches-AreFiled hasher signer wire c r, sound, empty)
