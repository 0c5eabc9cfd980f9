-- ===== src/Chain/Heights.antt =====
-- `BlockChain::mark_blocks`: the heights that one way back to the zero block is given.
pub mod Walking
use pttp.Prelude.{
  ℕ, zero, suc, ◌+◌, ◌-◌, subst, ◌≤◌, ◌<◌, ◌≡◌, refl, sym, ap, ◌∙◌, arith, List, [], ◌∷◌, Option,
  none, some, Bool, true, false, ◌⊎◌, inl, inr, if◌then◌else◌, ◌>>=◌, All, Bool-cases, Option-cases,
}
use pttp.Prelude.Int.{ℤ, pos, negsuc, ◌+ℤ◌}
use pttp.Bytes.{Bytes, equal, equal_sound, equal_refl}
use pttp.Maps.{Map, lookup, assign, member}
use pttp.Maps.Laws.{lookup-assign}
use pttp.Ledger.Header.{BlockHeader}
use pttp.Chain.{BlockChain}
use pttp.Chain.Marking.{
  zero_block, height, height_or, number, is_low, is_above, walk, mark_from, all_zero, mark_blocks,
}

module _ (d : Bytes → ℕ) where
  -- Each height stays, or becomes the depth.
  Improves : Map ℤ → Map ℤ → Type 0
  Improves hs hs' = (k : Bytes) → (height hs' k ≡ height hs k) ⊎ (height hs' k ≡ pos (d k))

  Improves-refl : (hs : Map ℤ) → Improves hs hs
  unfolding Improves
  Improves-refl hs k = inl refl

  Improves-trans : (hs hs' hs'' : Map ℤ) → Improves hs hs' → Improves hs' hs'' → Improves hs hs''
  unfolding Improves
  Improves-trans hs hs' hs'' f g k = elim (g k) [
    | inr e ↦ inr e
    | inl e ↦ elim (f k) [ inl e' ↦ inl (e ∙ e') | inr e' ↦ inr (e ∙ e') ]
  ]

  -- What has its depth keeps it.
  stays :
      (hs hs' : Map ℤ) (k : Bytes)
      → Improves hs hs'
      → height hs k ≡ pos (d k)
      → height hs' k ≡ pos (d k)
  unfolding Improves
  stays hs hs' k f e = elim (f k) [ inl e' ↦ e' ∙ e | inr e' ↦ e' ]

  height-assign :
      (j k : Bytes) (v : ℤ) (hs : Map ℤ)
      → height (assign k v hs) j ≡ (if equal j k then v else height hs j)
  unfolding height
  height-assign j k v hs =
      rw (lookup-assign j k v hs)
        (elim (Bool-cases (equal j k)) [ inl e ↦ rw e refl | inr e ↦ rw e refl ])

  assign-Improves : (k : Bytes) (hs : Map ℤ) → Improves hs (assign k (pos (d k)) hs)
  unfolding Improves
  assign-Improves k hs j = elim (Bool-cases (equal j k)) [
    | inl e ↦
        let e' : j ≡ k = equal_sound j k e in
        inr (height-assign j k (pos (d k)) hs ∙ rw (e, e') refl)
    | inr e ↦ inl (height-assign j k (pos (d k)) hs ∙ rw e refl)
  ]

  -- The elements, the last one first, go one step further from the zero block each.
  IsPath : ℕ → List Bytes → Type 0
  IsPath n [] = Unit
  IsPath n (k ∷ list) = (d k ≡ n + 1) × IsPath (n + 1) list

  AreMarked : Map ℤ → List Bytes → Type 0
  AreMarked hs list = All (λ k. height hs k ≡ pos (d k)) list

  AreMarked-Improves :
      (hs hs' : Map ℤ) (list : List Bytes)
      → Improves hs hs'
      → AreMarked hs list
      → AreMarked hs' list
  unfolding AreMarked
  AreMarked-Improves hs hs' [] f all = tt
  AreMarked-Improves hs hs' (k ∷ list) f all =
      (stays hs hs' k f all.0, AreMarked-Improves hs hs' list f all.1)

  pos_next : (n : ℕ) → pos n +ℤ pos 1 ≡ pos (n + 1)
  unfolding ◌+ℤ◌
  pos_next n = ground arith

  number_none :
      (n : ℕ) (hs : Map ℤ)
      → Improves hs (number (pos n) [] hs) × AreMarked (number (pos n) [] hs) []
  unfolding number AreMarked
  number_none n hs = (Improves-refl hs, tt)

  number_next :
      (n : ℕ) (k : Bytes) (list : List Bytes) (hs : Map ℤ)
      → d k ≡ n + 1
      → number (pos n) (k ∷ list) hs ≡ number (pos (n + 1)) list (assign k (pos (d k)) hs)
  unfolding number
  number_next n k list hs here = rw (pos_next n, here) refl

  number-AreMarked :
      (n : ℕ) (list : List Bytes) (hs : Map ℤ)
      → IsPath n list
      → Improves hs (number (pos n) list hs) × AreMarked (number (pos n) list hs) list
  unfolding IsPath AreMarked
  number-AreMarked n [] hs path = number_none n hs
  number-AreMarked n (k ∷ list) hs (here, path) =
      let hs' = assign k (pos (d k)) hs in
      let r = number-AreMarked (n + 1) list hs' path in
      let set_now : height hs' k ≡ pos (d k) =
        height-assign k k (pos (d k)) hs ∙ rw (equal_refl k) refl in
      subst (λ t. Improves hs t × AreMarked t (k ∷ list)) (sym (number_next n k list hs here))
        (Improves-trans hs hs' _ (assign-Improves k hs) r.0, (stays hs' _ k r.0 set_now, r.1))

  restart :
      (m n : ℕ) (k : Bytes) (list : List Bytes)
      → IsPath n (k ∷ list)
      → d k ≡ m + 1
      → IsPath m (k ∷ list)
  unfolding IsPath
  restart m n k list path e = let same : n ≡ m = omega (arith, path.0, e) in (e, rw (← same) path.1)

  go_back :
      (n : ℕ) (k : Bytes) (list : List Bytes) (prev : Bytes)
      → IsPath n (k ∷ list)
      → 0 < d prev
      → d k ≡ d prev + 1
      → IsPath (d prev - 1) (prev ∷ k ∷ list)
  unfolding IsPath
  go_back n k list prev path here deeper =
      let back : d prev - 1 + 1 ≡ n = omega (arith, path.0, deeper, here) in
      (omega (arith, here), rw back path)
