-- ===== src/Reconsiler/Filtering.antt =====
-- What `filter` keeps.
use pttp.Prelude.{
  ◌≡◌, refl, arith, List, [], ◌∷◌, map, some, Bool, true, false, ◌&&◌, ◌||◌, get_or, Bool-cases,
  inl, inr, All, Any, ◌>>=◌, if◌then◌else◌,
}
use pttp.Bytes.{Bytes}
use pttp.Bloom
use pttp.Bloom.{ShortHasher, Bloom, has, put_all}
use pttp.Bloom.Membership.{IsValid, Counts, elem, SetsAll, has-get_or, put_all-SetsAll}
use pttp.Reconsiler.{SetReconsiler, in_set, collect, filter}

-- The text is one of the list.
abbrev pub IsIn : Bytes → List Bytes → Type 0
IsIn s = Any (λ t. t ≡ s)

module _ (hasher : ShortHasher) where
  -- Every filter's place for the text is on.
  abbrev pub all_on : List Bloom → Bytes → Bool
  all_on [] s = true
  all_on (f ∷ fs) s = get_or f.hits (Bloom.hash hasher f s) false && all_on fs s

  abbrev pub sieve : List Bloom → List Bytes → List Bytes
  sieve fs [] = []
  sieve fs (s ∷ set) = if all_on fs s then s ∷ sieve fs set else sieve fs set

  in_set-all_on :
      (fs : List Bloom) (s : Bytes) → All IsValid fs → in_set hasher fs s ≡ some (all_on fs s)
  unfolding in_set
  in_set-all_on [] s v = refl
  in_set-all_on (f ∷ fs) s v =
      rw (has-get_or hasher f s v.0) (ground (arith, in_set-all_on fs s v.1))

  collect-sieve :
      (fs : List Bloom) (set : List Bytes)
      → All IsValid fs
      → collect hasher fs set ≡ some (sieve fs set)
  unfolding collect
  collect-sieve fs [] v = refl
  collect-sieve fs (s ∷ set) v = rw (in_set-all_on fs s v, collect-sieve fs set v) refl

  -- With valid filters, `filter` succeeds: it keeps the elements whose place is on in every filter, in
  -- their order, and nothing of the set before.
  pub filter-sieve :
      (r : SetReconsiler) (set : List Bytes)
      → All IsValid r.filters
      → filter hasher r set ≡ some (record r { current_set = sieve r.filters set })
  unfolding filter
  filter-sieve r set v = rw (collect-sieve r.filters set v) refl

  sieve-IsIn :
      (fs : List Bloom) (s : Bytes) (set : List Bytes)
      → all_on fs s ≡ true
      → IsIn s set
      → IsIn s (sieve fs set)
  sieve-IsIn fs s [] on h = h
  sieve-IsIn fs s (t ∷ set) on (inl e) = rw (e, on) (inl refl)
  sieve-IsIn fs s (t ∷ set) on (inr h) = elim (Bool-cases (all_on fs t)) [
    | inl kept ↦ rw kept (inr (sieve-IsIn fs s set on h))
    | inr gone ↦ rw gone (sieve-IsIn fs s set on h)
  ]

  -- The filter holds the elements `bs`, set in a valid filter that counts its hits.
  abbrev pub IsFilled : List Bytes → Bloom → Type 0
  IsFilled bs f = (g : Bloom) × IsValid g × Counts g × (put_all hasher g bs ≡ some f)

  elem-IsIn :
      (g : Bloom) (s : Bytes) (bs : List Bytes)
      → IsIn s bs
      → elem (Bloom.hash hasher g s) (map (Bloom.hash hasher g) bs) ≡ true
  unfolding elem
  elem-IsIn g s [] h = absurd h
  elem-IsIn g s (b ∷ bs) (inl e) = rw e (ground arith)
  elem-IsIn g s (b ∷ bs) (inr h) = ground (arith, elem-IsIn g s bs h)

  SetsAll-on :
      (g f : Bloom) (s : Bytes) (bs : List Bytes)
      → IsValid g
      → IsIn s bs
      → SetsAll hasher g bs (some f)
      → IsValid f × (get_or f.hits (Bloom.hash hasher f s) false ≡ true)
  SetsAll-on g f s bs v h (f', ran, v', same, counts, means) =
      let e : f' ≡ f = cc in
      let vf : IsValid f = rw e at v' in
      let answer : has hasher f s ≡ (
          has hasher g s >>= λ old.
          some (elem (Bloom.hash hasher g s) (map (Bloom.hash hasher g) bs) || old)) =
        rw e at (means s) in
      (
        vf,
        ground
            (arith, answer, has-get_or hasher g s v, has-get_or hasher f s vf, elem-IsIn g s bs h),
      )

  IsFilled-on :
      (f : Bloom) (s : Bytes) (bs : List Bytes)
      → IsIn s bs
      → IsFilled bs f
      → IsValid f × (get_or f.hits (Bloom.hash hasher f s) false ≡ true)
  IsFilled-on f s bs h (g, v, counts, filled) =
      SetsAll-on g f s bs v h (rw filled at (put_all-SetsAll hasher g bs v counts))

  All-filled :
      (fs : List Bloom) (s : Bytes) (bs : List Bytes)
      → IsIn s bs
      → All (IsFilled bs) fs
      → All IsValid fs × (all_on fs s ≡ true)
  All-filled [] s bs h filled = (tt, refl)
  All-filled (f ∷ fs) s bs h filled =
      let (v, on) = IsFilled-on f s bs h filled.0 in
      let (vs, ons) = All-filled fs s bs h filled.1 in ((v, vs), rw (on, ons) refl)

  -- What this node and the peer both have is kept: where each filter was made by setting the elements of
  -- the peer's set, `filter` succeeds, and an element of both sets is in the current set.
  pub filter-IsIn :
      (r : SetReconsiler) (set bs : List Bytes) (s : Bytes)
      → All (IsFilled bs) r.filters
      → IsIn s bs
      → IsIn s set
      → (r' : SetReconsiler) × (filter hasher r set ≡ some r') × IsIn s r'.current_set
  filter-IsIn r set bs s filled theirs ours =
      let (v, on) = All-filled r.filters s bs theirs filled in
      (_, filter-sieve r set v, sieve-IsIn r.filters s set on ours)
