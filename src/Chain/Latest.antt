-- ===== src/Chain/Latest.antt =====
-- `BlockChain::add` and `BlockChain::get_latest`.
use pttp.Prelude.{ℕ, ◌+◌, ◌*◌, ◌^◌, ◌<◌, ◌≡◌, refl, List, Option, some, All, ◌>>=◌}
use pttp.Bytes.{Bytes}
use pttp.Merkle.{GenericHasher, hash_vec}
use pttp.Chain.{BlockChain, get_latest}
use pttp.Chain.Spec.{funds, chosen, weight}
use pttp.Chain.Spending.{AreWithin}
use pttp.Chain.Selecting.{IsKnown, select-settles}

-- Every hash of the mempool is that of a transaction that is kept.
abbrev pub IsSound : BlockChain → Type 0
IsSound c = All (IsKnown c.txs) c.mempool

-- What `get_latest` is to return, from the hashes that it is to choose.
abbrev pub latest : GenericHasher → BlockChain → List Bytes → Option (Bytes × BlockChain)
latest hasher c hashes = hash_vec hasher hashes >>= λ hash.
    some (hash, record c { latest_set = hashes; latest_hash = hash })

-- Where each hash of the mempool is that of a kept transaction whose amounts are `int`s, and the
-- balances are not negative and leave room in 64 bits for every credit of the mempool, `get_latest`
-- chooses the transactions that the abstract ledger takes, in the order of the mempool, and returns
-- their `hash_vec`, which fails when none is taken.
pub get_latest-chosen :
    (hasher : GenericHasher) (c : BlockChain) (bound : ℕ)
    → IsSound c
    → AreWithin bound c.balance
    → bound + 2 ^ 31 * weight c.txs c.mempool < 2 ^ 63
    → get_latest hasher c ≡ latest hasher c (chosen c.txs (funds c.balance) c.mempool)
unfolding get_latest
get_latest-chosen hasher c bound sound w room =
    let r = select-settles c.txs c.mempool c.balance bound sound w room in rw (r.1, r.2.0) refl
