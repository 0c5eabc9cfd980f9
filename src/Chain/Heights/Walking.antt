-- ===== src/Chain/Heights/Walking.antt =====
-- `BlockChain::mark_blocks` on blocks that all go back to the zero block.
pub mod Loop
use pttp.Prelude.{
  ℕ, zero, suc, ◌+◌, ◌-◌, subst, ◌≤◌, ◌<◌, ◌≡◌, refl, sym, ap, ◌∙◌, arith, List, [], ◌∷◌, Option,
  none, some, Bool, true, false, ◌⊎◌, inl, inr, if◌then◌else◌, ◌>>=◌, All, Bool-cases, Option-cases,
}
use pttp.Prelude.Int.{ℤ, pos, negsuc, ◌+ℤ◌}
use pttp.Bytes.{Bytes, equal, equal_sound, equal_refl}
use pttp.Maps.{Map, lookup, assign, member}
use pttp.Maps.Laws.{lookup-assign}
use pttp.Ledger.Header.{BlockHeader}
use pttp.Chain.{BlockChain}
use pttp.Chain.Marking.{
  zero_block, height, height_or, number, is_low, is_above, walk, mark_from, all_zero, mark_blocks,
}
use pttp.Chain.Heights.{
  Improves, Improves-refl, Improves-trans, stays, height-assign, assign-Improves, IsPath, AreMarked,
  AreMarked-Improves, pos_next, number_none, number_next, number-AreMarked, restart, go_back,
}

-- `d` counts the blocks on the way from a block back to the zero block, itself included.
abbrev pub IsDepth : Map BlockHeader → (Bytes → ℕ) → Bytes → BlockHeader → Type 0
IsDepth blocks d k b =
    ((equal b.prev_hash zero_block ≡ true) × (d k ≡ 1))
    ⊎ ((equal b.prev_hash zero_block ≡ false)
        × ((b' : BlockHeader) × (lookup b.prev_hash blocks ≡ some b') × (d k ≡ d b.prev_hash + 1)))

abbrev pub AreDepths : Map BlockHeader → (Bytes → ℕ) → Type 0
AreDepths blocks d = (k : Bytes) (b : BlockHeader) → lookup k blocks ≡ some b → IsDepth blocks d k b

module _ (blocks : Map BlockHeader) (d : Bytes → ℕ) (deep : AreDepths blocks d) where
  -- Each height is 0 or the depth.
  Partly : Map ℤ → Type 0
  Partly hs =
      (k : Bytes) (b : BlockHeader)
      → lookup k blocks ≡ some b
      → (height hs k ≡ pos 0) ⊎ (height hs k ≡ pos (d k))

  Partly-Improves : (hs hs' : Map ℤ) → Improves d hs hs' → Partly hs → Partly hs'
  unfolding Improves Partly
  Partly-Improves hs hs' f p k b found = elim (f k) [
    | inr e ↦ inr e
    | inl e ↦ elim (p k b found) [ inl e' ↦ inl (e ∙ e') | inr e' ↦ inr (e ∙ e') ]
  ]

  depth_pos : (k : Bytes) (b : BlockHeader) → lookup k blocks ≡ some b → 0 < d k
  depth_pos k b found = elim (deep k b found) [
    | inl (last, one) ↦ omega (arith, one)
    | inr (more, (b', found', deeper)) ↦ omega (arith, deeper)
  ]

  walk_last :
      (fuel : ℕ) (list : List Bytes) (b : BlockHeader) (hs : Map ℤ)
      → equal b.prev_hash zero_block ≡ true
      → walk (suc fuel) blocks list b hs ≡ some (number (pos 0) list hs)
  unfolding walk
  walk_last fuel list b hs last = elim (Option-cases (lookup b.prev_hash blocks)) [
    | inl e ↦ rw (e, walk, last) refl
    | inr (b', e) ↦ rw (e, walk, last) refl
  ]

  walk_on :
      (fuel : ℕ) (list : List Bytes) (b b' : BlockHeader) (hs : Map ℤ)
      → equal b.prev_hash zero_block ≡ false
      → lookup b.prev_hash blocks ≡ some b'
      → height hs b.prev_hash ≡ pos 0
      → walk (suc fuel) blocks list b hs ≡ walk fuel blocks (b.prev_hash ∷ list) b' hs
  unfolding walk
  walk_on fuel list b b' hs more found fresh = rw (found, walk, more, fresh) refl

  walk_known :
      (fuel : ℕ) (list : List Bytes) (b b' : BlockHeader) (hs : Map ℤ)
      → equal b.prev_hash zero_block ≡ false
      → lookup b.prev_hash blocks ≡ some b'
      → (m : ℕ) → 0 < m
      → height hs b.prev_hash ≡ pos m
      → walk (suc fuel) blocks list b hs ≡ some (number (pos m) list hs)
  unfolding walk
  walk_known fuel list b b' hs more found zero above known = absurd (omega (arith, above))
  walk_known fuel list b b' hs more found (suc m) above known = rw (found, walk, more, known) refl

  -- The walk from a path whose first block is `k`.
  walk-AreMarked :
      (fuel n : ℕ) (k : Bytes) (b : BlockHeader) (list : List Bytes) (hs : Map ℤ)
      → lookup k blocks ≡ some b
      → IsPath d n (k ∷ list)
      → d k ≤ fuel
      → Partly hs
      → (hs' : Map ℤ) × (walk fuel blocks (k ∷ list) b hs ≡ some hs')
        × Improves d hs hs'
        × AreMarked d hs' (k ∷ list)
  unfolding Partly AreMarked
  walk-AreMarked zero n k b list hs found path le part =
      absurd (omega (arith, le, depth_pos k b found))
  walk-AreMarked (suc fuel) n k b list hs found path le part = elim (deep k b found) [
    | inl (last, one) ↦
        let r = number-AreMarked d 0 (k ∷ list) hs (restart d 0 n k list path one) in
        (number (pos 0) (k ∷ list) hs, walk_last fuel (k ∷ list) b hs last, r.0, r.1)
    | inr (more, (b', found', deeper)) ↦ elim (part b.prev_hash b' found') [
      | inl fresh ↦
          let r =
            walk-AreMarked fuel (d b.prev_hash - 1) b.prev_hash b' (k ∷ list) hs found'
              (go_back d n k list b.prev_hash path (depth_pos b.prev_hash b' found') deeper)
              (omega (arith, le, deeper)) part in
          (r.0, walk_on fuel (k ∷ list) b b' hs more found' fresh ∙ r.1, r.2, r.3.1)
      | inr known ↦
          let r =
            number-AreMarked d (d b.prev_hash) (k ∷ list) hs
              (restart d (d b.prev_hash) n k list path deeper) in
          (
            number (pos (d b.prev_hash)) (k ∷ list) hs,
            walk_known fuel (k ∷ list) b b' hs more found' (d b.prev_hash)
                (depth_pos b.prev_hash b' found') known,
            r.0,
            r.1,
          )
    ]
  ]
