-- ===== src/Keys/Increments.antt =====
-- `Curve::increment` and `Curve::bytes_equal`: a nonce that is counted up.
use pttp.Prelude.{
  ℕ, zero, suc, ◌+◌, ◌-◌, ◌%◌, ◌^◌, ◌<◌, ◌≤◌, ◌≡◌, refl, sym, ap, ◌∙◌, arith, [], ◌∷◌, ◌++◌, length,
  take, replicate, true, false, ◌↔◌, ==_iff, ◌==◌, Bool-cases, inl, inr, ltb, ltb→lt,
}
use native.Mathlib.Nat.{mod-eq_of_lt, mod-add-mod, add-mod_right, pow-suc, mod-lt}
use pttp.Bytes.{Bytes, IsBytes, equal, equal_sound, equal_complete}
use pttp.Keys.{little_endian, SodiumUtils, bytes_equal, increment, zero_bytes, resize_safe}

-- The buffer after `k` increments.
abbrev pub incremented : SodiumUtils → ℕ → Bytes → Bytes
incremented utils zero b = b
incremented utils (suc k) b = incremented utils k (increment utils b)

module _ (utils : SodiumUtils) where
  -- The comparison in constant time is that of vectors.
  pub bytes_equal-equal : (a b : Bytes) → bytes_equal utils a b ≡ equal a b
  unfolding bytes_equal
  bytes_equal-equal a b = elim (Bool-cases (length a == length b)) [
    | inl same ↦ rw same (utils.memcmp-equal a b ((==_iff (length a) (length b)).0 same))
    | inr other ↦ elim (Bool-cases (equal a b)) [
      | inl e ↦
          absurd (cc (other, (==_iff (length a) (length b)).1 (ap length (equal_sound a b e))))
      | inr e ↦ rw (other, e) refl
    ]
  ]

  length-incremented : (k : ℕ) (b : Bytes) → length (incremented utils k b) ≡ length b
  unfolding increment
  length-incremented zero b = refl
  length-incremented (suc k) b = length-incremented k (utils.add_one b) ∙ utils.length-add_one b

  incremented-IsBytes : (k : ℕ) (b : Bytes) → IsBytes b → IsBytes (incremented utils k b)
  unfolding increment
  incremented-IsBytes zero b small = small
  incremented-IsBytes (suc k) b small =
      incremented-IsBytes k (utils.add_one b) (utils.add_one-IsBytes b small)

  little_endian-incremented :
      (k m : ℕ) (b : Bytes)
      → IsBytes b
      → m ≡ 256 ^ length b
      → little_endian (incremented utils k b) % m ≡ (little_endian b + k) % m
  unfolding increment
  little_endian-incremented zero m b small size = ap (λ v. v % m) (omega arith)
  little_endian-incremented (suc k) m b small size =
      let b' = utils.add_one b in
      let size' : m ≡ 256 ^ length b' = size ∙ ap (λ n. 256 ^ n) (sym (utils.length-add_one b)) in
      let next : little_endian b' ≡ (little_endian b + 1) % m =
        utils.little_endian-add_one b small ∙ ap (λ n. (little_endian b + 1) % n) (sym size) in
      little_endian-incremented k m b' (utils.add_one-IsBytes b small) size'
      ∙ ap (λ v. (v + k) % m) next
      ∙ mod-add-mod (little_endian b + 1) m k
      ∙ ap (λ v. v % m) (omega arith)

-- Numbers that differ by less than `m` differ modulo `m`.
apart_mod : (v d m : ℕ) → 0 < d → d < m → v < m → (v + d) % m ≡ v % m → ⊥
apart_mod v d m pos small below same = elim (Bool-cases (ltb (v + d) m)) [
  | inl inside ↦ absurd (
      omega (
        arith,
        mod-eq_of_lt {n = v + d} {m = m} (ltb→lt _ _ inside),
        mod-eq_of_lt {n = v} {m = m} below,
        same,
      ))
  | inr outside ↦
      let over : m ≤ v + d = ground (arith, outside) in
      let wrapped : (v + d) % m ≡ v + d - m =
        ap (λ t. t % m) (omega (arith, over))
        ∙ add-mod_right (v + d - m) m
        ∙ mod-eq_of_lt {n = v + d - m} {m = m} (omega (arith, over)) in
      absurd (omega (arith, wrapped, mod-eq_of_lt {n = v} {m = m} below, same, over))
]

pub little_endian-lt : (b : Bytes) → IsBytes b → little_endian b < 256 ^ length b
unfolding little_endian
little_endian-lt [] small = omega arith
little_endian-lt (x ∷ xs) small =
    omega (arith, small.0, little_endian-lt xs small.1, pow-suc 256 (length xs))

incremented-add :
    (utils : SodiumUtils) (j d : ℕ) (b : Bytes)
    → incremented utils (j + d) b ≡ incremented utils d (incremented utils j b)
incremented-add utils zero d b =
    let e : zero + d ≡ d = omega arith in ap (λ n. incremented utils n b) e
incremented-add utils (suc j) d b =
    let e : suc j + d ≡ suc (j + d) = omega arith in
    ap (λ n. incremented utils n b) e ∙ incremented-add utils j d (increment utils b)

little_endian-injective :
    (xs ys : Bytes)
    → IsBytes xs
    → IsBytes ys
    → length xs ≡ length ys
    → little_endian xs ≡ little_endian ys
    → xs ≡ ys
unfolding little_endian
little_endian-injective [] [] small small' size e = refl
little_endian-injective [] (y ∷ ys) small small' size e = absurd (omega (arith, size))
little_endian-injective (x ∷ xs) [] small small' size e = absurd (omega (arith, size))
little_endian-injective (x ∷ xs) (y ∷ ys) small small' size e =
    let low : x ≡ y = omega (arith, e, small.0, small'.0) in
    let high : little_endian xs ≡ little_endian ys = omega (arith, e, small.0, small'.0) in
    let rest = little_endian-injective xs ys small.1 small'.1 (omega (arith, size)) high in
    ap (λ t. t ∷ xs) low ∙ ap (λ t. y ∷ t) rest

-- Adding `d` changes nothing modulo `m` exactly where `m` divides it.
add_mod_same : (v d m : ℕ) → v < m → ((v + d) % m ≡ v % m) ↔ (d % m ≡ 0)
add_mod_same v d m below =
    let shift : (v + d) % m ≡ (v + d % m) % m =
      ap (λ t. t % m) (omega arith) ∙ sym (mod-add-mod d m v) ∙ ap (λ t. t % m) (omega arith) in
    let rem : d % m < m = mod-lt d (omega (arith, below)) in
    (
      (λ same. elim (Bool-cases (d % m == 0)) [
        | inl e ↦ ground (arith, e)
        | inr e ↦ absurd (apart_mod v (d % m) m (ground (arith, e)) rem below (sym shift ∙ same))
      ]),
      (λ none_left. shift ∙ ap (λ r. (v + r) % m) none_left ∙ ap (λ t. t % m) (omega arith)),
    )

-- Of two values that a nonce takes while it is counted up by `increment`, `bytes_equal` says that they are equal exactly
-- where the number of increments between them is a multiple of 256 to the power of the nonce's size.
pub bytes_equal-increment :
    (utils : SodiumUtils) (b : Bytes) (j d : ℕ)
    → IsBytes b
    → (bytes_equal utils (incremented utils j b) (incremented utils (j + d) b) ≡ true)
      ↔ (d % 256 ^ length b ≡ 0)
bytes_equal-increment utils b j d small =
    let c = incremented utils j b in
    let c' = incremented utils (j + d) b in
    let m = 256 ^ length b in
    let size : m ≡ 256 ^ length c = ap (λ n. 256 ^ n) (sym (length-incremented utils j b)) in
    let size' : m ≡ 256 ^ length c' =
      ap (λ n. 256 ^ n) (sym (length-incremented utils (j + d) b)) in
    let c-small = incremented-IsBytes utils j b small in
    let c'-small = incremented-IsBytes utils (j + d) b small in
    let low : little_endian c < m = rw size (little_endian-lt c c-small) in
    let low' : little_endian c' < m = rw size' (little_endian-lt c' c'-small) in
    let counted : little_endian c' % m ≡ (little_endian c + d) % m =
      ap (λ t. little_endian t % m) (incremented-add utils j d b)
      ∙ little_endian-incremented utils d m c c-small size in
    let (same_to, same_from) = add_mod_same (little_endian c) d m low in
    (
      (λ e.
          let same : c ≡ c' = equal_sound c c' (sym (bytes_equal-equal utils c c') ∙ e) in
          same_to (sym counted ∙ ap (λ t. little_endian t % m) (sym same))),
      (λ e.
          let same : little_endian c ≡ little_endian c' =
            sym (mod-eq_of_lt low) ∙ sym (same_from e) ∙ sym counted ∙ mod-eq_of_lt low' in
          bytes_equal-equal utils c c'
          ∙ equal_complete c c' (
              little_endian-injective c c' c-small c'-small
                (length-incremented utils j b ∙ sym (length-incremented utils (j + d) b)) same)),
    )

take-replicate :
    (n k m : ℕ) → n ≤ m → take {A = ℕ} n (replicate k 0 ++ replicate m 0) ≡ replicate n 0
take-replicate zero k m le = refl
take-replicate (suc n) zero zero le = absurd (omega (arith, le))
take-replicate (suc n) zero (suc m) le =
    ap (λ t. 0 ∷ t) (take-replicate n zero m (omega (arith, le)))
take-replicate (suc n) (suc k) m le = ap (λ t. 0 ∷ t) (take-replicate n k m (omega (arith, le)))

-- `SafeBytes::resize` leaves zeros, whatever was there.
pub resize_safe-zeros : (n : ℕ) (b : Bytes) → resize_safe n b ≡ replicate n 0
unfolding resize_safe zero_bytes
resize_safe-zeros n [] = take-replicate n 0 n (omega arith)
resize_safe-zeros n (x ∷ xs) =
    let full : length (x ∷ xs) == 0 ≡ false = ground arith in
    rw full (take-replicate n (length (x ∷ xs)) n (omega arith))
