-- ===== src/Chain/Heights/Walking/Loop.antt =====
-- `BlockChain::mark_blocks`: the loop over the blocks.
use pttp.Prelude.{
  ℕ, ◌-◌, ◌≤◌, ◌<◌, ◌≡◌, refl, ◌∙◌, arith, [], ◌∷◌, some, Bool, true, false, inl, inr,
  if◌then◌else◌, All, Bool-cases,
}
use pttp.Prelude.Int.{ℤ, pos}
use pttp.Bytes.{Bytes, equal, equal_sound}
use pttp.Maps.{Map, lookup, assign}
use pttp.Ledger.Header.{BlockHeader}
use pttp.Chain.{BlockChain}
use pttp.Chain.Marking.{height, is_low, walk, mark_from, all_zero, mark_blocks}
use pttp.Chain.Heights.{
  Improves, Improves-refl, Improves-trans, stays, height-assign, IsPath, AreMarked,
}
use pttp.Chain.Heights.Walking.{AreDepths, Partly, Partly-Improves, depth_pos, walk-AreMarked}

-- The blocks from some place of the map on are found by their hashes.
abbrev pub AreBlocks : Map BlockHeader → Map BlockHeader → Type 0
AreBlocks blocks rest = All (λ (e : Bytes × BlockHeader). (lookup e.0 blocks ≡ some e.1)) rest

abbrev pub AreShallow : (Bytes → ℕ) → ℕ → Map BlockHeader → Type 0
AreShallow d fuel rest = All (λ (e : Bytes × BlockHeader). d e.0 ≤ fuel) rest

module _ (blocks : Map BlockHeader) (d : Bytes → ℕ) (deep : AreDepths blocks d) where
  Marks : Map ℤ → Map BlockHeader → Type 0
  Marks hs rest = All (λ (e : Bytes × BlockHeader). height hs e.0 ≡ pos (d e.0)) rest

  not_low :
      (k : Bytes) (b : BlockHeader) (hs : Map ℤ)
      → lookup k blocks ≡ some b
      → Partly blocks d deep hs
      → is_low (height hs k) ≡ false
  unfolding Partly
  not_low k b hs found part = elim (part k b found) [ inl e ↦ rw e refl | inr e ↦ rw e refl ]

  mark_step :
      (fuel : ℕ) (k : Bytes) (b : BlockHeader) (rest : Map BlockHeader) (hs hs' : Map ℤ)
      → is_low (height hs k) ≡ false
      → walk fuel blocks (k ∷ []) b hs ≡ some hs'
      → mark_from fuel blocks ((k, b) ∷ rest) hs ≡ mark_from fuel blocks rest hs'
  unfolding mark_from
  mark_step fuel k b rest hs hs' high ran = rw (high, ran) refl

  lone : (k : Bytes) → 0 < d k → IsPath d (d k - 1) (k ∷ [])
  unfolding IsPath
  lone k above = (omega (arith, above), tt)

  first_marked : (hs : Map ℤ) (k : Bytes) → AreMarked d hs (k ∷ []) → height hs k ≡ pos (d k)
  unfolding AreMarked
  first_marked hs k all = all.0

  mark_from-Marks :
      (fuel : ℕ) (rest : Map BlockHeader) (hs : Map ℤ)
      → AreBlocks blocks rest
      → AreShallow d fuel rest
      → Partly blocks d deep hs
      → (hs' : Map ℤ) × (mark_from fuel blocks rest hs ≡ some hs')
        × Improves d hs hs'
        × Marks hs' rest
  unfolding mark_from Marks
  mark_from-Marks fuel [] hs known near part = (hs, refl, Improves-refl d hs, tt)
  mark_from-Marks fuel ((k, b) ∷ rest) hs known near part =
      let (hs', ran, better, marked) =
        walk-AreMarked blocks d deep fuel (d k - 1) k b [] hs known.0
          (lone k (depth_pos blocks d deep k b known.0)) near.0 part in
      let (hs'', ran', better', marks) =
        mark_from-Marks fuel rest hs' known.1 near.1
          (Partly-Improves blocks d deep hs hs' better part) in
      (
        hs'',
        mark_step fuel k b rest hs hs' (not_low k b hs known.0 part) ran ∙ ran',
        Improves-trans d hs hs' hs'' better better',
        (stays d hs' hs'' k better' (first_marked hs' k marked), marks),
      )

  either_zero : (b : Bool) (h : ℤ) → h ≡ pos 0 → (if b then pos 0 else h) ≡ pos 0
  either_zero true h e = refl
  either_zero false h e = e

  all_zero-keeps :
      (rest : Map BlockHeader) (hs : Map ℤ) (k : Bytes)
      → height hs k ≡ pos 0
      → height (all_zero rest hs) k ≡ pos 0
  unfolding all_zero
  all_zero-keeps [] hs k e = e
  all_zero-keeps ((j, b) ∷ rest) hs k e =
      all_zero-keeps rest (assign j (pos 0) hs) k
        (height-assign d k j (pos 0) hs ∙ either_zero (equal k j) (height hs k) e)

  all_zero-zero :
      (rest : Map BlockHeader) (hs : Map ℤ) (k : Bytes) (b : BlockHeader)
      → lookup k rest ≡ some b
      → height (all_zero rest hs) k ≡ pos 0
  unfolding all_zero lookup
  all_zero-zero [] hs k b found = absurd (cc found)
  all_zero-zero ((j, c) ∷ rest) hs k b found = elim (Bool-cases (equal k j)) [
    | inl e ↦
        all_zero-keeps rest (assign j (pos 0) hs) k (height-assign d k j (pos 0) hs ∙ rw e refl)
    | inr e ↦ all_zero-zero rest (assign j (pos 0) hs) k b (rw e at found)
  ]

  all_zero-Partly : (hs : Map ℤ) → Partly blocks d deep (all_zero blocks hs)
  unfolding Partly
  all_zero-Partly hs k b found = inl (all_zero-zero blocks hs k b found)

  Marks-lookup :
      (hs : Map ℤ) (rest : Map BlockHeader) (k : Bytes) (b : BlockHeader)
      → Marks hs rest
      → lookup k rest ≡ some b
      → height hs k ≡ pos (d k)
  unfolding Marks lookup
  Marks-lookup hs [] k b marks found = absurd (cc found)
  Marks-lookup hs ((j, c) ∷ rest) k b marks found = elim (Bool-cases (equal k j)) [
    | inl e ↦ let e' : k ≡ j = equal_sound k j e in rw e' marks.0
    | inr e ↦ Marks-lookup hs rest k b marks.1 (rw e at found)
  ]

-- In a chain in which each block is found by its key, and goes back, through blocks of the chain, to
-- the zero block, with fuel for the deepest, `mark_blocks` ends, changes nothing but the heights, and
-- gives each block the number of the blocks on its way back, itself included, whatever the heights
-- were before.
pub mark_blocks-depth :
    (c : BlockChain) (d : Bytes → ℕ) (fuel : ℕ)
    → AreDepths c.blocks d
    → AreBlocks c.blocks c.blocks
    → AreShallow d fuel c.blocks
    → (hs : Map ℤ) × (mark_blocks fuel c ≡ some (record c { heights = hs }))
      × ((k : Bytes) (b : BlockHeader) → lookup k c.blocks ≡ some b → height hs k ≡ pos (d k))
unfolding mark_blocks
mark_blocks-depth c d fuel deep known near =
    let (hs, ran, better, marks) =
      mark_from-Marks c.blocks d deep fuel c.blocks (all_zero c.blocks c.heights) known near
        (all_zero-Partly c.blocks d deep c.heights) in
    (hs, rw ran refl, λ k b found. Marks-lookup c.blocks d deep hs c.blocks k b marks found)
