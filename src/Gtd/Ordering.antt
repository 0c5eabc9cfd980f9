-- ===== src/Gtd/Ordering.antt =====
-- The order of tasks, as `std::greater` needs it.
use pttp.Prelude.{◌≡◌, arith, List, [], ◌∷◌, true, false, ◌⊎◌, All, Bool-cases, inl, inr}
use mathlib.Core.List.{Perm}
use mathlib.Core.List.Perm
use pttp.Gtd.{Task, less, greater, least}

-- `>` is `<` read backwards, and is a strict weak order: nothing is greater than itself, and of two
-- tasks in order a third is above the lower or below the upper.
pub greater_strict_weak :
    (a b c : Task)
    → (greater a b ≡ less b a)
      × (greater a a ≡ false)
      × ((greater a b ≡ false) ⊎ ((greater a c ≡ true) ⊎ (greater c b ≡ true)))
unfolding greater less
greater_strict_weak a b c = (ground arith, ground arith, ground arith)

-- No task of the list comes before `m`.
abbrev pub IsLeast : Task → List Task → Type 0
IsLeast m q = All (λ u. greater m u ≡ false) q

greater_trans_false :
    (a b c : Task) → greater a b ≡ false → greater b c ≡ false → greater a c ≡ false
unfolding greater
greater_trans_false a b c h k = ground arith

less_flip : (t u : Task) → greater t u ≡ true → greater u t ≡ false
unfolding greater
less_flip t u h = ground arith

IsLeast-weaken : (m t : Task) (q : List Task) → greater m t ≡ false → IsLeast t q → IsLeast m q
IsLeast-weaken m t [] h k = tt
IsLeast-weaken m t (u ∷ q) h k = (greater_trans_false m t u h k.0, IsLeast-weaken m t q h k.1)

-- `top` and `pop` keep the tasks, and take one that no other precedes.
pub record Takes (t : Task) (q : List Task) (m : Task) (rest : List Task) : Type 0 where
  pub kept : Perm (m ∷ rest) (t ∷ q)
  pub first : IsLeast m rest
  pub below : greater m t ≡ false
  pub overall : IsLeast m q

-- The two tasks that the walk compares: `hi` comes after `lo`, which goes on.
Takes-cons :
    (lo hi m : Task) (q rest : List Task)
    → greater lo hi ≡ false
    → Takes lo q m rest
    → Perm (m ∷ hi ∷ rest) (hi ∷ lo ∷ q) × IsLeast m (hi ∷ rest)
Takes-cons lo hi m q rest h t = (
  Perm.trans (Perm.swap _ _ _) (Perm.cons hi t.kept),
  (greater_trans_false m lo hi t.below h, t.first),
)

pub least-Takes : (t : Task) (q : List Task) → Takes t q (least t q).0 (least t q).1
unfolding least
least-Takes t [] = record {
  kept = Perm.refl _;
  first = tt;
  below = (greater_strict_weak t t t).1;
  overall = tt;
}
least-Takes t (u ∷ q) = elim (Bool-cases (greater t u)) [
  | inl h ↦
      let rest = least-Takes u q in
      let (kept, first) = Takes-cons u t _ q _ (less_flip t u h) rest in
      rw h (record {
        kept = kept;
        first = first;
        below = first.0;
        overall = (rest.below, rest.overall);
      })
  | inr h ↦
      let rest = least-Takes t q in
      let (kept, first) = Takes-cons t u _ q _ h rest in
      rw h (record {
        kept = Perm.trans kept (Perm.swap _ _ _);
        first = first;
        below = rest.below;
        overall = (first.0, rest.overall);
      })
]

-- The task taken is one of the tasks: what comes before none of them does not come before it.
pub least_among :
    (x t : Task) (q : List Task)
    → greater x t ≡ false
    → IsLeast x q
    → greater x (least t q).0 ≡ false
unfolding least
least_among x t [] h k = h
least_among x t (u ∷ q) h k = elim (Bool-cases (greater t u)) [
  | inl e ↦ rw e (least_among x u q k.0 k.1)
  | inr e ↦ rw e (least_among x t q h k.1)
]
