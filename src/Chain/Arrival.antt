-- ===== src/Chain/Arrival.antt =====
-- `BlockChain`: the order in which transactions arrive.
use mathlib.Core.List.{Memᴰ}
use pttp.Prelude.{
  ◌≡◌, refl, sym, ap, subst, ◌∙◌, List, [], ◌∷◌, some, Bool-cases, Option-cases, inl, inr,
}
use pttp.Bytes.{equal, equal_sound}
use pttp.Maps.{lookup}
use pttp.Maps.Laws.{lookup-assign_self}
use pttp.Merkle.{GenericHasher}
use pttp.Process.{Wire}
use pttp.Ledger.{Transaction}
use pttp.Chain.{BlockChain, add, get_latest}
use pttp.Chain.Adding.{tx_hash, add-known, add-new}
use pttp.Chain.Adding.Twice.{AreTold, lookup-add_kept, add-add_comm}

module _ (hasher : GenericHasher) (wire : Wire) where
  -- The transactions are added one after the other.
  abbrev pub add_all : List Transaction → BlockChain → BlockChain
  add_all [] c = c
  add_all (tx ∷ txs) c = add_all txs (add hasher wire tx c)

  -- A transaction with this one's hash is kept.
  IsHeld : Transaction → BlockChain → Type 0
  IsHeld tx c = (old : Transaction) × (lookup (tx_hash hasher wire tx) c.txs ≡ some old)

  IsHeld-add :
      (tx tx' : Transaction) (c : BlockChain) → IsHeld tx c → IsHeld tx (add hasher wire tx' c)
  unfolding IsHeld
  IsHeld-add tx tx' c (old, found) =
      let h = tx_hash hasher wire tx in
      let h' = tx_hash hasher wire tx' in
      elim (Bool-cases (equal h h')) [
        | inr other ↦ (old, lookup-add_kept hasher wire h tx' c old other found)
        | inl same ↦
            let found' : lookup h' c.txs ≡ some old =
              ap (λ k. lookup k c.txs) (sym (equal_sound h h' same)) ∙ found in
            (
              old,
              ap (λ d. lookup h (BlockChain.txs d)) (add-known hasher wire tx' c old found')
                  ∙ found,
            )
      ]

  IsHeld-added : (tx : Transaction) (c : BlockChain) → IsHeld tx (add hasher wire tx c)
  unfolding IsHeld
  IsHeld-added tx c =
      let h = tx_hash hasher wire tx in
      elim (Option-cases (lookup h c.txs)) [
        | inr (old, e) ↦
            (old, ap (λ d. lookup h (BlockChain.txs d)) (add-known hasher wire tx c old e) ∙ e)
        | inl e ↦ (
          tx,
          ap (λ d. lookup h (BlockChain.txs d)) (add-new hasher wire tx c e)
              ∙ lookup-assign_self h tx c.txs,
        )
      ]

  IsHeld-add_all :
      (tx : Transaction) (txs : List Transaction) (c : BlockChain)
      → IsHeld tx c
      → IsHeld tx (add_all txs c)
  IsHeld-add_all tx [] c held = held
  IsHeld-add_all tx (t ∷ txs) c held =
      IsHeld-add_all tx txs (add hasher wire t c) (IsHeld-add tx t c held)

  each_kept :
      (tx : Transaction) (txs : List Transaction) (c : BlockChain)
      → Memᴰ tx txs
      → IsHeld tx (add_all txs c)
  each_kept tx [] c m = elim m [ ]
  each_kept tx (t ∷ txs) c (Memᴰ.head e) =
      IsHeld-add_all tx txs (add hasher wire t c)
        (subst (λ u. IsHeld tx (add hasher wire u c)) e (IsHeld-added tx c))
  each_kept tx (t ∷ txs) c (Memᴰ.tail m) = each_kept tx txs (add hasher wire t c) m

  -- Transactions that are all kept change nothing.
  add_all-held :
      (txs : List Transaction) (c : BlockChain)
      → ((tx : Transaction) → Memᴰ tx txs → IsHeld tx c)
      → add_all txs c ≡ c
  unfolding IsHeld
  add_all-held [] c held = refl
  add_all-held (t ∷ txs) c held =
      let (old, found) = held t (Memᴰ.head refl) in
      ap (add_all txs) (add-known hasher wire t c old found)
      ∙ add_all-held txs c (λ tx m. held tx (Memᴰ.tail m))

  add_all-add_comm :
      (tx : Transaction) (txs : List Transaction) (c : BlockChain)
      → ((t : Transaction) → Memᴰ t txs → AreTold hasher wire t tx)
      → add_all txs (add hasher wire tx c) ≡ add hasher wire tx (add_all txs c)
  add_all-add_comm tx [] c told = refl
  add_all-add_comm tx (t ∷ txs) c told =
      ap (add_all txs) (add-add_comm hasher wire t tx c (told t (Memᴰ.head refl)))
      ∙ add_all-add_comm tx txs (add hasher wire t c) (λ u m. told u (Memᴰ.tail m))

  add_all-add_all_comm :
      (xs ys : List Transaction) (c : BlockChain)
      → ((t t' : Transaction) → Memᴰ t xs → Memᴰ t' ys → AreTold hasher wire t t')
      → add_all xs (add_all ys c) ≡ add_all ys (add_all xs c)
  add_all-add_all_comm xs [] c told = refl
  add_all-add_all_comm xs (y ∷ ys) c told =
      add_all-add_all_comm xs ys (add hasher wire y c) (λ t t' m m'. told t t' m (Memᴰ.tail m'))
      ∙ ap (add_all ys) (add_all-add_comm y xs c (λ t m. told t y m (Memᴰ.head refl)))

-- Two chains in the same state that add the same transactions, each in any order and any number of times,
-- come to the same state, where no two different ones of these transactions have the same hash. So the hash that `get_latest` then returns is
-- the same, or both calls fail.
pub add_all_same :
    (hasher : GenericHasher) (wire : Wire) (xs ys : List Transaction) (c : BlockChain)
    → ((tx : Transaction) → Memᴰ tx xs → Memᴰ tx ys)
    → ((tx : Transaction) → Memᴰ tx ys → Memᴰ tx xs)
    → ((tx tx' : Transaction) → Memᴰ tx xs → Memᴰ tx' xs → AreTold hasher wire tx tx')
    → (add_all hasher wire xs c ≡ add_all hasher wire ys c)
      × (get_latest hasher (add_all hasher wire xs c)
          ≡ get_latest hasher (add_all hasher wire ys c))
add_all_same hasher wire xs ys c into onto told =
    let from_ys = add_all hasher wire ys c in
    let from_xs = add_all hasher wire xs c in
    let e : from_xs ≡ from_ys =
      sym (add_all-held hasher wire ys from_xs (λ tx m. each_kept hasher wire tx xs c (onto tx m)))
      ∙ sym (add_all-add_all_comm hasher wire xs ys c (λ t t' m m'. told t t' m (onto t' m')))
      ∙ add_all-held hasher wire xs from_ys (λ tx m. each_kept hasher wire tx ys c (into tx m)) in
    (e, ap (get_latest hasher) e)
