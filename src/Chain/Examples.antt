-- ===== src/Chain/Examples.antt =====
-- The theorems on the block chain at a few transactions.
mod Arriving
use pttp.Prelude.{
  ℕ, ◌+◌, ◌*◌, ◌^◌, if◌then◌else◌, Bool-cases, inl, inr, none, of_some, subst, ◌≡◌, refl, arith,
  List, [], ◌∷◌, some,
}
use pttp.Prelude.Int.{ℤ, pos, negsuc, ◌+ℤ◌}
use pttp.Bytes.{Bytes, equal}
use pttp.Maps.{Map, before, lookup, include, assign}
use pttp.Process.{Credit, to_int}
use pttp.Process
use pttp.Ledger.{Transaction, parse, verify_all, stored, bytes, credit_bytes}
use pttp.Chain.{BlockChain, new, add, select, get_latest}
use pttp.Chain.Spending.{AreWithin}
use pttp.Chain.Conserving.{total, issued, select-total}
use pttp.Chain.Marking.{zero_block, height, mark_blocks}
use pttp.Chain.Heights.Walking.{IsDepth, AreDepths}
use pttp.Chain.Heights.Walking.Loop.{mark_blocks-depth}
use pttp.Ledger.Header.{BlockHeader}
use pttp.Chain.Spec.{funds, credits_of, chosen, weight}
use pttp.Chain.Latest.{IsSound, latest, get_latest-chosen}
use pttp.Chain.Reachable.{Reaches, start, added, Reaches-IsSound, Reaches-get_latest}
use pttp.Chain.Indexed.{IsIndexed, Reaches-IsIndexed}
use pttp.Samples.{digest_hasher}
use pttp.Samples.Messages.{sample_wire, sample_signer, write_all}

-- Account 1 has 5; it pays 3 to account 2, which pays 2 to account 3; and it cannot pay 3 again.
abbrev move : Bytes → Bytes → ℤ → ℤ → Transaction
move a b out into = record {
  credits = record { account = a; amount = out } ∷ record { account = b; amount = into } ∷ [];
  witnesses = [] ∷ [] ∷ [];
}

abbrev some_chain : BlockChain
some_chain = record {
  blocks = [];
  heights = [];
  txs =
      (7 ∷ [], move (1 ∷ []) (2 ∷ []) (negsuc 2) (pos 3))
      ∷ (8 ∷ [], move (1 ∷ []) (3 ∷ []) (negsuc 2) (pos 3))
      ∷ (9 ∷ [], move (2 ∷ []) (3 ∷ []) (negsuc 1) (pos 2))
      ∷ [];
  mempool = (7 ∷ []) ∷ (8 ∷ []) ∷ (9 ∷ []) ∷ [];
  latest_set = [];
  latest_hash = [];
  hash_sets = [];
  balance = (1 ∷ [], pos 5) ∷ [];
}

some_chain-IsSound : IsSound some_chain
unfolding lookup equal
some_chain-IsSound = (
  (move (1 ∷ []) (2 ∷ []) (negsuc 2) (pos 3), refl, (omega arith, (omega arith, tt))),
  (
    (move (1 ∷ []) (3 ∷ []) (negsuc 2) (pos 3), refl, (omega arith, (omega arith, tt))),
    ((move (2 ∷ []) (3 ∷ []) (negsuc 1) (pos 2), refl, (omega arith, (omega arith, tt))), tt),
  ),
)

weight_some : weight some_chain.txs some_chain.mempool ≡ 6
unfolding credits_of lookup equal
weight_some = refl

chosen_some :
    chosen some_chain.txs (funds some_chain.balance) some_chain.mempool ≡ (7 ∷ []) ∷ (9 ∷ []) ∷ []
unfolding credits_of lookup equal ◌+ℤ◌ funds
chosen_some = refl

get_latest-chosen_example :
    get_latest digest_hasher some_chain
    ≡ latest digest_hasher some_chain
        (chosen some_chain.txs (funds some_chain.balance) some_chain.mempool)
get_latest-chosen_example =
    get_latest-chosen digest_hasher some_chain 5 some_chain-IsSound ((refl, omega arith), tt)
      (omega (arith, weight_some))

select-total_example :
    (r : List Bytes × Map ℤ) × (select some_chain.txs some_chain.mempool some_chain.balance
      ≡ some r)
    × (r.0 ≡ chosen some_chain.txs (funds some_chain.balance) some_chain.mempool)
    × AreWithin (5 + 2 ^ 31 * weight some_chain.txs some_chain.mempool) r.1
    × (total r.1
        ≡ total some_chain.balance
          +ℤ issued some_chain.txs
              (chosen some_chain.txs (funds some_chain.balance) some_chain.mempool))
select-total_example =
    select-total some_chain.txs some_chain.mempool some_chain.balance 5 some_chain-IsSound
      ((refl, omega arith), tt) (tt, tt) (omega (arith, weight_some))

-- A transaction that only gives.
abbrev gift : Process.Transaction
gift = record {
  credit_set = write_all (record { account = 4 ∷ []; amount = pos 6 } ∷ []);
  signatures = [];
}

abbrev kept_gift : Transaction
kept_gift = record {
  credits = record { account = 4 ∷ []; amount = pos 6 } ∷ [];
  witnesses = [] ∷ [];
}

abbrev grown : BlockChain
grown = add digest_hasher sample_wire kept_gift new

parse-gift : parse sample_signer sample_wire gift ≡ some kept_gift
unfolding parse verify_all to_int stored
parse-gift = refl

grown_reached : Reaches digest_hasher sample_signer sample_wire grown
grown_reached = added start gift kept_gift parse-gift

Reaches-IsIndexed_example :
    IsIndexed digest_hasher sample_wire grown × IsSound grown × (grown.balance ≡ [])
Reaches-IsIndexed_example =
    Reaches-IsIndexed digest_hasher sample_signer sample_wire grown grown_reached

-- Two blocks, one after the other.
abbrev block_after : Bytes → BlockHeader
block_after prev = record {
  hash = [];
  prev_hash = prev;
  tx_hash = [];
  utxo_hash = [];
  nonce = [];
  t = 0;
  height = 0;
}

abbrev two_blocks : BlockChain
two_blocks = record some_chain {
  blocks = (4 ∷ [], block_after (5 ∷ [])) ∷ (5 ∷ [], block_after zero_block) ∷ [];
  heights = (4 ∷ [], negsuc 0) ∷ [];
}

abbrev depth_two : Bytes → ℕ
depth_two k = if equal k (4 ∷ []) then 2 else 1

two_blocks-AreDepths : AreDepths two_blocks.blocks depth_two
unfolding lookup equal
two_blocks-AreDepths k b found = elim (Bool-cases (equal k (4 ∷ []))) [
  | inl e ↦
      subst (IsDepth two_blocks.blocks depth_two k) (of_some (rw e at found))
        (inr (refl, (block_after zero_block, refl, (rw e refl))))
  | inr e ↦ elim (Bool-cases (equal k (5 ∷ []))) [
    | inl e' ↦
        subst (IsDepth two_blocks.blocks depth_two k) (of_some (rw (e, e') at found))
          (inl (refl, (rw e refl)))
    | inr e' ↦ let gone : none ≡ some b = rw (e, e') at found in absurd (cc gone)
  ]
]

mark_blocks-depth_example :
    (hs : Map ℤ) × (mark_blocks 2 two_blocks ≡ some (record two_blocks { heights = hs }))
    × ((k : Bytes) (b : BlockHeader)
        → lookup k two_blocks.blocks ≡ some b
        → height hs k ≡ pos (depth_two k))
unfolding lookup equal
mark_blocks-depth_example =
    mark_blocks-depth two_blocks depth_two 2 two_blocks-AreDepths (refl, (refl, tt))
      (omega arith, (omega arith, tt))

-- The second block goes back to one that is not there, so the third, which is the first of all, gets no height.
abbrev orphans : BlockChain
orphans = record some_chain {
  blocks =
      (1 ∷ [], block_after (2 ∷ []))
      ∷ (2 ∷ [], block_after (9 ∷ []))
      ∷ (3 ∷ [], block_after zero_block)
      ∷ [];
}

mark_blocks-orphans :
    mark_blocks 3 orphans
    ≡ some (record orphans {
      heights = (1 ∷ [], negsuc 0) ∷ (2 ∷ [], negsuc 0) ∷ (3 ∷ [], pos 0) ∷ [];
    })
unfolding mark_blocks lookup assign equal before
mark_blocks-orphans = refl
