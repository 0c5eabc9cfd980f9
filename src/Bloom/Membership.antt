-- ===== src/Bloom/Membership.antt =====
-- What the operations of a filter mean: membership by hash, and the count of hits.
use pttp.Prelude.{
  ℕ, zero, suc, ◌+◌, ◌-◌, ◌*◌, ◌/◌, ◌^◌, ◌≤◌, ◌<◌, ◌≡◌, refl, arith, ap, ◌∙◌, List, [], ◌∷◌, length,
  get_elem?, get_or, set, replicate, Option, none, some, Bool, true, false, ◌||◌, ◌==◌, to_nat,
  ◌>>=◌, length-set, length-replicate, map,
}
use native.Mathlib.Nat.{pow-suc, mul-le-mul_right}
use pttp.Bytes.{Bytes, IsBytes}
use pttp.Bloom.{ShortHasher, load, to_uint, Bloom, new, hash, has, switch_on, put, has_set, put_all}
use pttp.Bloom.Encoding.{IsSized}

-- `P` is a positive `int`, and there is a hit for each place.
pub record IsValid (f : Bloom) : Type 0 where
  pub sized : IsSized f
  pub positive : 0 < f.p
  pub is_int : f.p < 2 ^ 31

unfoldable pub count_on : List Bool → ℕ
count_on [] = 0
count_on (h ∷ hits) = to_nat h + count_on hits

-- Whether a place is among the places of a list.
unfoldable pub elem : ℕ → List ℕ → Bool
elem i [] = false
elem i (j ∷ js) = i == j || elem i js

-- `n_on` is the number of hits that are on.
abbrev pub Counts : Bloom → Type 0
Counts f = f.n_on ≡ count_on f.hits

load-lt : (bs : Bytes) → IsBytes bs → load bs < 256 ^ length bs
unfolding load
load-lt [] h = omega arith
load-lt (b ∷ bs) h = omega (arith, pow-suc 256 (length bs), load-lt bs h.1, h.0)

-- The scaled hash stays below the modulus, so it is an index of `hits`.
pub to_uint-lt :
    (h : Bytes) (m : ℕ) → length h ≡ 8 → IsBytes h → 0 < m → m < 2 ^ 31 → to_uint h m < m
unfolding to_uint
to_uint-lt h m size small pos int =
    let word : load h < 256 ^ 8 = rw size at (load-lt h small) in
    let high : load h / 2 ^ 32 ≤ 2 ^ 32 - 1 = omega arith in
    let scaled : load h / 2 ^ 32 * m ≤ (2 ^ 32 - 1) * m = mul-le-mul_right m high in omega arith

-- A place of the list, with `false` past its end.
get_or-set :
    (hits : List Bool) (i j : ℕ)
    → i < length hits
    → get_or (set hits i true) j false ≡ (j == i || get_or hits j false)
get_or-set [] i j h = absurd (omega arith)
get_or-set (x ∷ hits) zero zero h = refl
get_or-set (x ∷ hits) zero (suc j) h = ground arith
get_or-set (x ∷ hits) (suc i) zero h = ground arith
get_or-set (x ∷ hits) (suc i) (suc j) h = ground (arith, get_or-set hits i j (omega arith))

get_elem?-get_or :
    (hits : List Bool) (i : ℕ) → i < length hits → get_elem? hits i ≡ some (get_or hits i false)
get_elem?-get_or [] i h = absurd (omega arith)
get_elem?-get_or (x ∷ hits) zero h = refl
get_elem?-get_or (x ∷ hits) (suc i) h = get_elem?-get_or hits i (omega arith)

count_on-set :
    (hits : List Bool) (i : ℕ)
    → i < length hits
    → count_on (set hits i true) + to_nat (get_or hits i false) ≡ count_on hits + 1
unfolding count_on
count_on-set [] i h = absurd (omega arith)
count_on-set (x ∷ hits) zero h = ground arith
count_on-set (x ∷ hits) (suc i) h = omega (arith, count_on-set hits i (omega arith))

bind_or :
    (o : Option Bool) (a e : Bool)
    → ((o >>= λ old. some (a || old)) >>= λ old. some (e || old))
      ≡ (o >>= λ old. some ((a || e) || old))
bind_or none a e = refl
bind_or (some x) a e = ground arith

module _ (hasher : ShortHasher) where
  -- In a valid filter, whose size is positive and an `int`, each hash is a place of the vector.
  pub hash-lt : (f : Bloom) (b : Bytes) → IsValid f → hash hasher f b < f.p
  unfolding hash
  hash-lt f b v =
      to_uint-lt (hasher.short_hash f.key b) f.p (hasher.size f.key b)
        (hasher.short_hash-IsBytes f.key b) v.positive v.is_int

  -- `has` reads the place of the hash.
  pub has-get_or :
      (f : Bloom) (b : Bytes)
      → IsValid f
      → has hasher f b ≡ some (get_or f.hits (hash hasher f b) false)
  unfolding has
  has-get_or f b v =
      let some_places : f.p == 0 ≡ false = ground (arith, v.positive) in
      rw some_places (get_elem?-get_or f.hits (hash hasher f b) (rw v.sized (hash-lt f b v)))

  put_answers :
      (f : Bloom) (b : Bytes)
      → IsValid f
      → (f' : Bloom) × (put hasher f b ≡ some f')
        × IsValid f'
        × (hash hasher f' ≡ hash hasher f)
        × (Counts f → Counts f')
        × ((c : Bytes)
            → has hasher f' c
              ≡ (has hasher f c >>= λ old. some (hash hasher f c == hash hasher f b || old)))
  unfolding put switch_on hash
  put_answers f b v =
      let i = hash hasher f b in
      let inside : i < length f.hits = rw v.sized (hash-lt f b v) in
      let f' = switch_on f i (get_or f.hits i false) in
      let v' : IsValid f' = record {
        sized = length-set f.hits i true ∙ v.sized;
        positive = v.positive;
        is_int = v.is_int;
      } in
      (
        f',
        rw (get_elem?-get_or f.hits i inside),
        v',
        refl,
        (λ counts. ground (arith, count_on-set f.hits i inside)),
        (λ c.
            rw (has-get_or f' c v', has-get_or f c v)
              (ap some (get_or-set f.hits i (hash hasher f c) inside))),
      )

  -- On a valid filter `has_set` is `has`, and then `set`.
  pub has_set-put :
      (f : Bloom) (b : Bytes)
      → IsValid f
      → has_set hasher f b ≡ (has hasher f b >>= λ was. put hasher f b >>= λ f'. some (was, f'))
  unfolding has_set put
  has_set-put f b v =
      let i = hash hasher f b in
      let here = get_elem?-get_or f.hits i (rw v.sized (hash-lt f b v)) in
      rw (has-get_or f b v, here)

  -- A run that sets every element of a list.
  abbrev pub SetsAll : Bloom → List Bytes → Option Bloom → Type 0
  SetsAll f bs run =
      (f' : Bloom) × (run ≡ some f')
      × IsValid f'
      × (hash hasher f' ≡ hash hasher f)
      × Counts f'
      × ((c : Bytes)
          → has hasher f' c ≡ (
              has hasher f c >>= λ old.
              some (elem (hash hasher f c) (map (hash hasher f) bs) || old)))

  SetsAll-cons :
      (f g : Bloom) (b : Bytes) (bs : List Bytes) {run run' : Option Bloom}
      → run' ≡ run
      → hash hasher g ≡ hash hasher f
      → ((c : Bytes)
          → has hasher g c
            ≡ (has hasher f c >>= λ old. some (hash hasher f c == hash hasher f b || old)))
      → SetsAll g bs run
      → SetsAll f (b ∷ bs) run'
  unfolding elem
  SetsAll-cons f g b bs e same means (h, ran, v, same', counts, means') = (
    h,
    e ∙ ran,
    v,
    same' ∙ same,
    counts,
    (λ c.
        let places = map (hash hasher f) bs in
        let now : has hasher h c
            ≡ (has hasher g c >>= λ old. some (elem (hash hasher f c) places || old)) =
          rw same at (means' c) in
        rw (now, means c)
          (bind_or (has hasher f c) (hash hasher f c == hash hasher f b)
            (elem (hash hasher f c) places))),
  )

  -- Setting every element of a list in a valid filter succeeds. The result is valid, counts its hits
  -- and has the same hash function, and it answers true exactly for what the filter had before and
  -- for what has the hash of an element of the list: no element is missed.
  pub put_all-SetsAll :
      (f : Bloom) (bs : List Bytes) → IsValid f → Counts f → SetsAll f bs (put_all hasher f bs)
  unfolding put_all elem
  put_all-SetsAll f [] v counts = (f, refl, v, refl, counts, λ c. rw (has-get_or f c v))
  put_all-SetsAll f (b ∷ bs) v counts =
      let (g, ran, v', same, keeps, means) = put_answers f b v in
      SetsAll-cons f g b bs (rw ran) same means (put_all-SetsAll g bs v' (keeps counts))

-- A new filter is valid, counts its hits, and has nothing.
pub new-IsValid :
    (p : ℕ) (key : Bytes) → 0 < p → p < 2 ^ 31 → IsValid (new p key) × Counts (new p key)
unfolding new count_on
new-IsValid p key pos int =
    (record { sized = length-replicate p false; positive = pos; is_int = int }, none_on p)
  where
    none_on : (p : ℕ) → 0 ≡ count_on (replicate p false)
    none_on zero = refl
    none_on (suc p) = rw (← none_on p)
