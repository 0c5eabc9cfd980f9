-- ===== src/Maps/Commuting.antt =====
-- Updates of a set or a map at different keys, in either order.
use pttp.Prelude.{◌≡◌, sym, ap, arith, List, [], ◌∷◌, true, false, not, Bool-cases, inl, inr}
use pttp.Bytes.{Bytes, equal, equal_sound}
use pttp.Maps.{Map, before, include, assign}
use pttp.Maps.Laws.{equal_sym, equal_cong}
use pttp.Maps.Order.{before-asym, before_trans, before_otherwise, before-equal}

-- Of two different keys exactly one is before the other.
before-not : (j k : Bytes) → equal j k ≡ false → before k j ≡ not (before j k)
before-not j k other = elim (Bool-cases (before j k)) [
  | inl e ↦ rw e (before-asym j k e)
  | inr e ↦ rw e (before_otherwise k j other e)
]

before_cong : (j x k : Bytes) → equal j x ≡ true → before k x ≡ before k j
before_cong j x k h = ap (before k) (sym (equal_sound j x h))

pub include_comm :
    (j k : Bytes) (xs : List Bytes)
    → equal j k ≡ false
    → include j (include k xs) ≡ include k (include j xs)
unfolding include
include_comm j k [] other = ground (arith, equal_sym j k, before-not j k other, other)
include_comm j k (x ∷ xs) other = ground (
  arith,
  include_comm j k xs other,
  equal_sym j k,
  before-not j k other,
  other,
  before_trans j k x,
  before_trans k j x,
  before-equal x j,
  before-equal x k,
  equal_cong j x k,
  equal_cong k x j,
  before_cong j x k,
  before_cong k x j,
)

pub assign_comm {ℓ} :
    {V : Type ℓ} (j k : Bytes) (v w : V) (m : Map V)
    → equal j k ≡ false
    → assign j v (assign k w m) ≡ assign k w (assign j v m)
unfolding assign
assign_comm j k v w [] other = ground (arith, equal_sym j k, before-not j k other, other)
assign_comm j k v w (e ∷ m) other =
    let x = e.0 in
    ground (
      arith,
      assign_comm j k v w m other,
      equal_sym j k,
      before-not j k other,
      other,
      before_trans j k x,
      before_trans k j x,
      before-equal x j,
      before-equal x k,
      equal_cong j x k,
      equal_cong k x j,
      before_cong j x k,
      before_cong k x j,
    )
