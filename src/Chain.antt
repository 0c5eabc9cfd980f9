-- ===== src/Chain.antt =====
-- bin/p2p.cc, `pttp::BlockChain`: the transactions that a node keeps, and the balances of the accounts.
-- A run is `none` where a 64-bit sum overflows, an assertion fails, or a null pointer is read.
pub mod Spec
pub mod Spending
pub mod Applying
pub mod Selecting
pub mod Latest
pub mod Conserving
pub mod Adding
pub mod Arrival
pub mod Reachable
pub mod Indexed
pub mod Marking
pub mod Heights
mod Examples
use pttp.Prelude.{
  ℕ, suc, ◌+◌, ◌-◌, ◌^◌, ◌<◌, ◌≡◌, List, [], ◌∷◌, ◌++◌, replicate, Option, none, some, Bool, true,
  false, not, ◌&&◌, ◌||◌, ltb, ◌==◌, if◌then◌else◌, ◌>>=◌,
}
use pttp.Prelude.Int.{ℤ, pos, negsuc, ltb_ℤ, ◌+ℤ◌}
use pttp.Bytes.{Bytes, equal}
use pttp.Maps.{Map, member, include, lookup, assign}
use pttp.Merkle.{GenericHasher, hash_size, hash_vec}
use pttp.Process.{Credit, Wire, is_negative}
use pttp.Ledger.{Transaction}
use pttp.Ledger
use pttp.Ledger.Header.{BlockWire, BlockHeader, calculate_hash}

-- `BlockChain`, without the members that nothing uses.
pub record BlockChain : Type 0 where
  pub blocks : Map BlockHeader
  pub heights : Map ℤ
  pub txs : Map Transaction
  pub mempool : List Bytes
  pub latest_set : List Bytes
  pub latest_hash : Bytes
  pub hash_sets : Map (List Bytes)
  pub balance : Map ℤ

-- `BlockChain()`
unfoldable pub new : BlockChain
new = record {
  blocks = [];
  heights = [];
  txs = [];
  mempool = [];
  latest_set = [];
  latest_hash = [];
  hash_sets = [];
  balance = [];
}

-- The sum of two `int64_t`, and the negative of one.
abbrev pub fits : ℤ → Bool
fits (pos n) = ltb n (2 ^ 63)
fits (negsuc n) = ltb n (2 ^ 63)

unfoldable pub add64 : ℤ → ℤ → Option ℤ
add64 a b = if fits (a +ℤ b) then some (a +ℤ b) else none

abbrev pub opposite : ℤ → ℤ
opposite (pos ℕ.zero) = pos 0
opposite (pos (suc n)) = negsuc n
opposite (negsuc n) = pos (suc n)

unfoldable pub neg64 : ℤ → Option ℤ
neg64 a = if fits (opposite a) then some (opposite a) else none

-- `add`
unfoldable pub add : GenericHasher → Wire → Transaction → BlockChain → BlockChain
add hasher wire tx c =
    let hash = hasher.digest hash_size (Ledger.bytes wire tx) in
    elim (lookup hash c.txs) [
      | some _ ↦ c
      | none ↦ record c { txs = assign hash tx c.txs; mempool = include hash c.mempool }
    ]

-- `!balance_cpy.count(pub) || balance_cpy[pub] < -amount`
short : Map ℤ → Credit → Option Bool
unfolding neg64
short balances cred = elim (lookup cred.account balances) [
  | none ↦ some true
  | some b ↦ neg64 cred.amount >>= λ need. some (ltb_ℤ b need)
]

-- The first loop over the credits of a transaction, with `pub_set`: the final `valid`.
unfoldable pub is_spendable : Map ℤ → List Bytes → List Credit → Option Bool
unfolding short
is_spendable balances pub_set [] = some true
is_spendable balances pub_set (cred ∷ creds) =
    let rest = is_spendable balances (include cred.account pub_set) creds in
    let covered = short balances cred >>= λ is_short. if is_short then some false else rest in
    if member cred.account pub_set
    then some false
    else if is_negative cred.amount
    then covered
    else rest

-- The second loop, which changes the balances.
unfoldable pub apply_credits : Map ℤ → List Credit → Option (Map ℤ)
unfolding add64
apply_credits balances [] = some balances
apply_credits balances (cred ∷ creds) = elim (lookup cred.account balances) [
  | some b ↦ add64 b cred.amount >>= λ sum. apply_credits (assign cred.account sum balances) creds
  | none ↦ apply_credits (assign cred.account cred.amount balances) creds
]

-- The loop over `mempool`: the valid hashes, in order, and the balances after them.
unfoldable pub select : Map Transaction → List Bytes → Map ℤ → Option (List Bytes × Map ℤ)
select txs [] balances = some ([], balances)
select txs (hash ∷ mempool) balances = lookup hash txs >>= λ tx.
    is_spendable balances [] tx.credits >>= λ valid.
    let skipped = select txs mempool balances in
    let taken = apply_credits balances tx.credits >>= λ balances'.
    select txs mempool balances' >>= λ r. some (hash ∷ r.0, r.1) in
    if valid then taken else skipped

-- `get_latest`: the hash that it returns, and the chain after it. The balances are a copy.
unfoldable pub get_latest : GenericHasher → BlockChain → Option (Bytes × BlockChain)
get_latest hasher c = select c.txs c.mempool c.balance >>= λ r.
    hash_vec hasher r.0 >>= λ hash. some (hash, record c { latest_set = r.0; latest_hash = hash })
