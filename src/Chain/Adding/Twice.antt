-- ===== src/Chain/Adding/Twice.antt =====
-- `BlockChain::add` on two transactions.
use pttp.Prelude.{
  ◌≡◌, refl, sym, ap, ap₂, ◌∙◌, none, some, false, Bool-cases, Option-cases, inl, inr,
}
use pttp.Bytes.{Bytes, equal, equal_sound}
use pttp.Maps.{lookup, include, assign}
use pttp.Maps.Laws.{equal_sym, lookup-assign_ne}
use pttp.Maps.Commuting.{include_comm, assign_comm}
use pttp.Merkle.{GenericHasher}
use pttp.Process.{Wire}
use pttp.Ledger.{Transaction}
use pttp.Chain.{BlockChain, add}
use pttp.Chain.Adding.{tx_hash, add-known, add-new}

module _ (hasher : GenericHasher) (wire : Wire) where
  -- Two transactions with the same hash are the same.
  abbrev pub AreTold : Transaction → Transaction → Type 0
  AreTold tx tx' = tx_hash hasher wire tx ≡ tx_hash hasher wire tx' → tx ≡ tx'

  -- Another transaction does not take the place of one that is kept.
  pub lookup-add_kept :
      (k : Bytes) (tx : Transaction) (c : BlockChain) (old : Transaction)
      → equal k (tx_hash hasher wire tx) ≡ false
      → lookup k c.txs ≡ some old
      → lookup k (BlockChain.txs (add hasher wire tx c)) ≡ some old
  lookup-add_kept k tx c old other found =
      let h = tx_hash hasher wire tx in
      elim (Option-cases (lookup h c.txs)) [
        | inr (old', e) ↦
            ap (λ d. lookup k (BlockChain.txs d)) (add-known hasher wire tx c old' e) ∙ found
        | inl e ↦
            ap (λ d. lookup k (BlockChain.txs d)) (add-new hasher wire tx c e)
            ∙ lookup-assign_ne k h tx c.txs other
            ∙ found
      ]

  add-known_after :
      (tx tx' : Transaction) (c : BlockChain) (old : Transaction)
      → equal (tx_hash hasher wire tx) (tx_hash hasher wire tx') ≡ false
      → lookup (tx_hash hasher wire tx) c.txs ≡ some old
      → add hasher wire tx (add hasher wire tx' c) ≡ add hasher wire tx' (add hasher wire tx c)
  add-known_after tx tx' c old other found =
      add-known hasher wire tx (add hasher wire tx' c) old
        (lookup-add_kept (tx_hash hasher wire tx) tx' c old other found)
      ∙ ap (add hasher wire tx') (sym (add-known hasher wire tx c old found))

  -- The chain with one more transaction that it does not have.
  abbrev with_new : Transaction → BlockChain → BlockChain
  with_new tx c = record c {
    txs = assign (tx_hash hasher wire tx) tx c.txs;
    mempool = include (tx_hash hasher wire tx) c.mempool;
  }

  add-new_twice :
      (tx tx' : Transaction) (c : BlockChain)
      → equal (tx_hash hasher wire tx) (tx_hash hasher wire tx') ≡ false
      → lookup (tx_hash hasher wire tx) c.txs ≡ none
      → lookup (tx_hash hasher wire tx') c.txs ≡ none
      → add hasher wire tx (add hasher wire tx' c) ≡ with_new tx (with_new tx' c)
  add-new_twice tx tx' c other e e' =
      ap (add hasher wire tx) (add-new hasher wire tx' c e')
      ∙ add-new hasher wire tx (with_new tx' c)
          (lookup-assign_ne (tx_hash hasher wire tx) (tx_hash hasher wire tx') tx' c.txs other ∙ e)

  with_new_comm :
      (tx tx' : Transaction) (c : BlockChain)
      → equal (tx_hash hasher wire tx) (tx_hash hasher wire tx') ≡ false
      → with_new tx (with_new tx' c) ≡ with_new tx' (with_new tx c)
  with_new_comm tx tx' c other =
      ap₂ (λ t p. record c { txs = t; mempool = p })
        (assign_comm (tx_hash hasher wire tx) (tx_hash hasher wire tx') tx tx' c.txs other)
        (include_comm (tx_hash hasher wire tx) (tx_hash hasher wire tx') c.mempool other)

  pub add-add_comm :
      (tx tx' : Transaction) (c : BlockChain)
      → AreTold tx tx'
      → add hasher wire tx (add hasher wire tx' c) ≡ add hasher wire tx' (add hasher wire tx c)
  add-add_comm tx tx' c told =
      let h = tx_hash hasher wire tx in
      let h' = tx_hash hasher wire tx' in
      elim (Bool-cases (equal h h')) [
        | inl same ↦ let e = told (equal_sound h h' same) in rw e refl
        | inr other ↦
            let other' : equal h' h ≡ false = equal_sym h' h ∙ other in
            elim (Option-cases (lookup h c.txs)) [
              | inr (old, e) ↦ add-known_after tx tx' c old other e
              | inl e ↦ elim (Option-cases (lookup h' c.txs)) [
                | inr (old, e') ↦ sym (add-known_after tx' tx c old other' e')
                | inl e' ↦
                    add-new_twice tx tx' c other e e'
                    ∙ with_new_comm tx tx' c other
                    ∙ sym (add-new_twice tx' tx c other' e' e)
              ]
            ]
      ]
