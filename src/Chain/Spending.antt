-- ===== src/Chain/Spending.antt =====
-- `BlockChain::get_latest`: one transaction against the balances.
use pttp.Prelude.{
  ℕ, ◌≤◌, ◌≡◌, refl, ap, ◌∙◌, arith, List, [], ◌∷◌, some, Bool, true, false, not, ◌&&◌,
  if◌then◌else◌, Bool-cases, Option-cases, inl, inr, All,
}
use pttp.Prelude.Int.{ℤ, ◌+ℤ◌, pos_part, neg_part}
use pttp.Bytes.{Bytes, equal}
use pttp.Maps.{Map, member, include, lookup, assign, before}
use pttp.Maps.Laws.{member-include, equal_sym}
use pttp.Process.{Credit, IsInt, is_negative}
use pttp.Chain.{neg64, short, is_spendable}
use pttp.Chain.Spec.{funds, named, distinct, covered, spendable}

-- No balance is negative, or above the bound.
abbrev pub IsWithin : ℕ → ℤ → Type 0
IsWithin bound b = (neg_part b ≡ 0) × (pos_part b ≤ bound)

abbrev pub AreWithin : ℕ → Map ℤ → Type 0
AreWithin bound [] = Unit
AreWithin bound (e ∷ m) = IsWithin bound e.1 × AreWithin bound m

pub assign-AreWithin :
    (bound : ℕ) (k : Bytes) (v : ℤ) (m : Map ℤ)
    → IsWithin bound v
    → AreWithin bound m
    → AreWithin bound (assign k v m)
unfolding assign
assign-AreWithin bound k v [] h w = (h, tt)
assign-AreWithin bound k v (e ∷ m) h w = elim (Bool-cases (equal k e.0)) [
  | inl same ↦ rw same (h, w.1)
  | inr other ↦ elim (Bool-cases (before k e.0)) [
    | inl b ↦ rw (other, b) (h, w)
    | inr b ↦ rw (other, b) (w.0, assign-AreWithin bound k v m h w.1)
  ]
]

pub AreWithin-weaken :
    (bound more : ℕ) (m : Map ℤ) → bound ≤ more → AreWithin bound m → AreWithin more m
AreWithin-weaken bound more [] le w = tt
AreWithin-weaken bound more (e ∷ m) le w =
    ((w.0.0, omega arith), AreWithin-weaken bound more m le w.1)

pub funds-IsWithin :
    (bound : ℕ) (m : Map ℤ) (k : Bytes) → AreWithin bound m → IsWithin bound (funds m k)
unfolding funds lookup
funds-IsWithin bound [] k w = (refl, omega arith)
funds-IsWithin bound (e ∷ m) k w = elim (Bool-cases (equal k e.0)) [
  | inl same ↦ rw same w.0
  | inr other ↦ rw other (funds-IsWithin bound m k w.1)
]

-- The test of the code is the test of the sum.
short_lem :
    (bound : ℕ) (m : Map ℤ) (c : Credit)
    → IsInt c.amount
    → is_negative c.amount ≡ true
    → AreWithin bound m
    → short m c ≡ some (is_negative (funds m c.account +ℤ c.amount))
unfolding short neg64 funds ◌+ℤ◌
short_lem bound m c int neg w = elim (Option-cases (lookup c.account m)) [
  | inl e ↦ rw e (ground (arith, neg))
  | inr (b, e) ↦
      let within : IsWithin bound b = rw e at (funds-IsWithin bound m c.account w) in
      rw e (ground (arith, neg, int, within))
]

-- A credit that is not negative is always covered.
not_short :
    (bound : ℕ) (m : Map ℤ) (c : Credit)
    → is_negative c.amount ≡ false
    → AreWithin bound m
    → is_negative (funds m c.account +ℤ c.amount) ≡ false
unfolding ◌+ℤ◌
not_short bound m c gives w =
    let within = funds-IsWithin bound m c.account w in ground (arith, gives, within)

-- The accounts are not in the set yet, and each is new when its turn comes.
fresh : List Bytes → List Credit → Bool
fresh seen [] = true
fresh seen (c ∷ cs) = not (member c.account seen) && fresh (include c.account seen) cs

unseen : List Bytes → List Credit → Bool
unseen seen [] = true
unseen seen (c ∷ cs) = not (member c.account seen) && unseen seen cs

unseen-include :
    (k : Bytes) (seen : List Bytes) (cs : List Credit)
    → unseen (include k seen) cs ≡ (not (named k cs) && unseen seen cs)
unfolding unseen
unseen-include k seen [] = refl
unseen-include k seen (c ∷ cs) =
    rw (member-include c.account k seen, unseen-include k seen cs, equal_sym c.account k)
      (ground arith)

fresh-distinct :
    (seen : List Bytes) (cs : List Credit) → fresh seen cs ≡ (unseen seen cs && distinct cs)
unfolding fresh unseen
fresh-distinct seen [] = refl
fresh-distinct seen (c ∷ cs) =
    rw (fresh-distinct (include c.account seen) cs, unseen-include c.account seen cs) (ground arith)

spends : (low f d : Bool) → (if low then some false else some (f && d)) ≡ some (f && (not low && d))
spends low f d = ground arith

is_spendable-fresh :
    (bound : ℕ) (m : Map ℤ) (seen : List Bytes) (cs : List Credit)
    → All (λ c. IsInt (Credit.amount c)) cs
    → AreWithin bound m
    → is_spendable m seen cs ≡ some (fresh seen cs && covered (funds m) cs)
unfolding is_spendable fresh
is_spendable-fresh bound m seen [] ints w = refl
is_spendable-fresh bound m seen (c ∷ cs) ints w =
    let rest = is_spendable-fresh bound m (include c.account seen) cs ints.1 w in
    elim (Bool-cases (member c.account seen)) [
      | inl dup ↦ rw dup refl
      | inr new ↦ elim (Bool-cases (is_negative c.amount)) [
        | inr gives ↦ rw (new, gives, rest, not_short bound m c gives w) refl
        | inl pays ↦
            rw (new, pays, short_lem bound m c ints.0 pays w, rest)
              (spends (is_negative (funds m c.account +ℤ c.amount))
                (fresh (include c.account seen) cs) (covered (funds m) cs))
      ]
    ]

unseen-nil : (cs : List Credit) → unseen [] cs ≡ true
unfolding unseen member
unseen-nil [] = refl
unseen-nil (c ∷ cs) = unseen-nil cs

-- The first loop decides whether the transaction is spendable.
pub is_spendable-spendable :
    (bound : ℕ) (m : Map ℤ) (cs : List Credit)
    → All (λ c. IsInt (Credit.amount c)) cs
    → AreWithin bound m
    → is_spendable m [] cs ≡ some (spendable (funds m) cs)
is_spendable-spendable bound m cs ints w =
    is_spendable-fresh bound m [] cs ints w
    ∙ ap (λ b. some (b && covered (funds m) cs))
        (fresh-distinct [] cs ∙ ap (λ b. b && distinct cs) (unseen-nil cs))
