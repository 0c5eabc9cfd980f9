-- ===== src/Chain/Reachable.antt =====
-- The states that a `BlockChain` takes from its constructor on.
use pttp.Prelude.{◌*◌, ◌^◌, ◌<◌, ◌≡◌, refl, sym, subst, arith, >>=-eq-some, ap, ◌∙◌, [], some, All}
use pttp.Prelude.Int.{pos}
use pttp.Bytes.{Bytes}
use pttp.Maps.{lookup, before}
use pttp.Merkle.{GenericHasher, hash_vec}
use pttp.Process
use pttp.Process.{Credit, IsInt, Wire, Signer, to_int}
use pttp.Ledger.{Transaction, parse}
use pttp.Chain.{BlockChain, new, add, select, get_latest}
use pttp.Chain.Spec.{funds, chosen, weight}
use pttp.Chain.Spending.{AreWithin}
use pttp.Chain.Selecting.{IsKnown}
use pttp.Chain.Latest.{IsSound, latest, get_latest-chosen}
use pttp.Chain.Adding.{add-IsSound, add-balance, parse-IsInt}

pub data Reaches (hasher : GenericHasher) (signer : Signer) (wire : Wire)
    : BlockChain → Type 0 where
  start : Reaches hasher signer wire new
  added :
      {c : BlockChain}
      → Reaches hasher signer wire c
      → (p : Process.Transaction) (tx : Transaction) → parse signer wire p ≡ some tx
      → Reaches hasher signer wire (add hasher wire tx c)
  latest_taken :
      {c : BlockChain}
      → Reaches hasher signer wire c
      → (hash : Bytes) (c' : BlockChain) → get_latest hasher c ≡ some (hash, c')
      → Reaches hasher signer wire c'

-- `get_latest` leaves the mempool, the transactions and the balances as they are.
abbrev pub SameLedger : BlockChain → BlockChain → Type 0
SameLedger c c' = (c.txs ≡ c'.txs) × (c.mempool ≡ c'.mempool) × (c.balance ≡ c'.balance)

SameLedger-of :
    (c : BlockChain) (p q : Bytes × BlockChain)
    → some p ≡ some q
    → SameLedger c p.1
    → SameLedger c q.1
SameLedger-of c p q h same = let e : p ≡ q = cc h in subst (λ r. SameLedger c r.1) e same

pub get_latest-SameLedger :
    (hasher : GenericHasher) (c c' : BlockChain) (hash : Bytes)
    → get_latest hasher c ≡ some (hash, c')
    → SameLedger c c'
unfolding get_latest
get_latest-SameLedger hasher c c' hash h =
    let chosen = >>=-eq-some (select c.txs c.mempool c.balance) _ h in
    let hashed = >>=-eq-some (hash_vec hasher chosen.0.0) _ chosen.2 in
    SameLedger-of c _ (hash, c') hashed.2 (refl, refl, refl)

new-IsSound : IsSound new × (BlockChain.balance new ≡ [])
unfolding new
new-IsSound = (tt, refl)

IsSound-same : (c c' : BlockChain) → SameLedger c c' → IsSound c → IsSound c'
IsSound-same c c' (txs, pool, bal) sound =
    subst (λ t. All (IsKnown t) c'.mempool) txs (subst (All (IsKnown c.txs)) pool sound)

pub Reaches-IsSound :
    (hasher : GenericHasher) (signer : Signer) (wire : Wire) (c : BlockChain)
    → Reaches hasher signer wire c
    → IsSound c × (c.balance ≡ [])
Reaches-IsSound hasher signer wire c start = new-IsSound
Reaches-IsSound hasher signer wire c (added {c = before} r p tx parsed) =
    let old = Reaches-IsSound hasher signer wire before r in
    (
      add-IsSound hasher wire tx before (parse-IsInt signer wire p tx parsed) old.0,
      add-balance hasher wire tx before ∙ old.1,
    )
Reaches-IsSound hasher signer wire c (latest_taken {c = before} r hash c' taken) =
    let old = Reaches-IsSound hasher signer wire before r in
    let same = get_latest-SameLedger hasher before c hash taken in
    (IsSound-same before c same old.0, sym same.2 ∙ old.1)

-- The mempool's hashes, against empty accounts.
funds-nil : funds [] ≡ (λ k. pos 0)
unfolding funds lookup
funds-nil = refl

-- In every state that a chain reaches from its constructor by adding parsed transactions and by calls of `get_latest`,
-- and in which the mempool has fewer than 2 ^ 32 credits, `get_latest` takes the transactions of the
-- mempool in order, each when the balances, which start at zero, then allow it, and returns the
-- `hash_vec` of those; it fails when it takes none.
pub Reaches-get_latest :
    (hasher : GenericHasher) (signer : Signer) (wire : Wire) (c : BlockChain)
    → Reaches hasher signer wire c
    → 2 ^ 31 * weight c.txs c.mempool < 2 ^ 63
    → get_latest hasher c ≡ latest hasher c (chosen c.txs (λ k. pos 0) c.mempool)
Reaches-get_latest hasher signer wire c r room =
    let (sound, empty) = Reaches-IsSound hasher signer wire c r in
    get_latest-chosen hasher c 0 sound (subst (AreWithin 0) (sym empty) tt) (omega (arith, room))
    ∙ ap (λ f. latest hasher c (chosen c.txs f c.mempool)) (ap funds empty ∙ funds-nil)
