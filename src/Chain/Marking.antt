-- ===== src/Chain/Marking.antt =====
-- bin/p2p.cc, `BlockChain::mark_blocks`: the heights of the blocks.
-- A height is an `int`: there are fewer than 2 ^ 31 blocks.
use pttp.Prelude.{
  ℕ, zero, suc, List, [], ◌∷◌, replicate, Option, none, some, Bool, true, false, if◌then◌else◌,
  ◌>>=◌,
}
use pttp.Prelude.Int.{ℤ, pos, negsuc, ◌+ℤ◌}
use pttp.Bytes.{Bytes, equal}
use pttp.Maps.{Map, lookup, assign}
use pttp.Ledger.Header.{BlockHeader}
use pttp.Chain.{BlockChain}

-- `zero_block`
abbrev pub zero_block : Bytes
zero_block = replicate 32 0

-- `heights[k]`, which makes a 0 where there is none. Every key that is read is that of a block, and has its
-- height from the first loop on.
abbrev pub height_or : Option ℤ → ℤ
height_or none = pos 0
height_or (some h) = h

unfoldable pub height : Map ℤ → Bytes → ℤ
height heights k = height_or (lookup k heights)

-- `heights[e] = -1` for every element of `list`.
unfoldable pub set_low : List Bytes → Map ℤ → Map ℤ
set_low [] heights = heights
set_low (e ∷ list) heights = set_low list (assign e (negsuc 0) heights)

-- The loops that number the elements of `list`, the last one first, after `h`.
unfoldable pub number : ℤ → List Bytes → Map ℤ → Map ℤ
number h [] heights = heights
number h (e ∷ list) heights = number (h +ℤ pos 1) list (assign e (h +ℤ pos 1) heights)

abbrev pub is_low : ℤ → Bool
is_low (negsuc zero) = true
is_low (negsuc (suc n)) = false
is_low (pos n) = false

abbrev pub is_above : ℤ → Bool
is_above (pos zero) = false
is_above (pos (suc n)) = true
is_above (negsuc n) = false

-- `while (true)`, with the last element of `list` first. Each round goes back by one block.
unfoldable pub walk : ℕ → Map BlockHeader → List Bytes → BlockHeader → Map ℤ → Option (Map ℤ)
unfolding set_low number height
walk zero blocks list cur heights = none
walk (suc fuel) blocks list cur heights =
    let prev = cur.prev_hash in
    let h = height heights prev in
    elim (lookup prev blocks) [
      | none ↦
          some (if equal prev zero_block then number (pos 0) list heights else set_low list heights)
      | some b ↦
          let on = walk fuel blocks (prev ∷ list) b heights in
          if equal prev zero_block
          then some (number (pos 0) list heights)
          else if is_low h
          then some (set_low list heights)
          else if is_above h
          then some (number h list heights)
          else on
    ]

-- The loop over the blocks, which ends at a block whose height is -1.
unfoldable pub mark_from : ℕ → Map BlockHeader → Map BlockHeader → Map ℤ → Option (Map ℤ)
unfolding walk
mark_from fuel blocks [] heights = some heights
mark_from fuel blocks ((k, b) ∷ rest) heights =
    let on =
      walk fuel blocks (k ∷ []) b heights >>= λ heights'. mark_from fuel blocks rest heights' in
    if is_low (height heights k) then some heights else on

-- The first loop.
unfoldable pub all_zero : Map BlockHeader → Map ℤ → Map ℤ
all_zero [] heights = heights
all_zero ((k, b) ∷ rest) heights = all_zero rest (assign k (pos 0) heights)

-- `mark_blocks`; the fuel is for the blocks of the longest way back.
unfoldable pub mark_blocks : ℕ → BlockChain → Option BlockChain
unfolding mark_from all_zero
mark_blocks fuel c = mark_from fuel c.blocks c.blocks (all_zero c.blocks c.heights) >>= λ heights.
    some (record c { heights = heights })
