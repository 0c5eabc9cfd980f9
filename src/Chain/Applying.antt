-- ===== src/Chain/Applying.antt =====
-- `BlockChain::get_latest`: the second loop, which changes the balances.
use pttp.Prelude.{
  ℕ, ◌+◌, ◌*◌, ◌^◌, ◌<◌, ◌≡◌, refl, ap, ◌∙◌, arith, List, [], ◌∷◌, length, some, true, false,
  Bool-cases, Option-cases, inl, inr, All, fun_ext,
}
use pttp.Prelude.Int.{ℤ, pos, ◌+ℤ◌}
use pttp.Bytes.{Bytes, equal, equal_sound}
use pttp.Maps.{Map, lookup, assign}
use pttp.Maps.Laws.{lookup-assign, equal_sym}
use pttp.Process.{Credit, IsInt, is_negative}
use pttp.Chain.{add64, apply_credits}
use pttp.Chain.Spec.{funds, or_zero, named, distinct, covered, pay_one, pay}
use pttp.Chain.Spending.{IsWithin, AreWithin, assign-AreWithin, AreWithin-weaken, funds-IsWithin}

-- The balances after one credit.
abbrev pub credit_one : Map ℤ → Credit → Map ℤ
credit_one m c = assign c.account (funds m c.account +ℤ c.amount) m

funds-credit_one :
    (m : Map ℤ) (c : Credit) (k : Bytes) → funds (credit_one m c) k ≡ pay_one (funds m) c k
unfolding funds
funds-credit_one m c k =
    rw (lookup-assign k c.account (or_zero (lookup c.account m) +ℤ c.amount) m)
      (elim (Bool-cases (equal k c.account)) [
        | inl same ↦ rw (same, equal_sound k c.account same) refl
        | inr other ↦ rw other refl
      ])

covered-pay_one :
    (f : Bytes → ℤ) (c : Credit) (cs : List Credit)
    → named c.account cs ≡ false
    → covered (pay_one f c) cs ≡ covered f cs
covered-pay_one f c [] apart = refl
covered-pay_one f c (d ∷ cs) apart =
    let other : equal c.account d.account ≡ false = ground (arith, apart) in
    rw (equal_sym d.account c.account, other, covered-pay_one f c cs (ground (arith, apart))) refl

added-IsWithin :
    (bound : ℕ) (a b : ℤ)
    → IsInt b
    → is_negative (a +ℤ b) ≡ false
    → IsWithin bound a
    → IsWithin (bound + 2 ^ 31) (a +ℤ b)
unfolding ◌+ℤ◌
added-IsWithin bound a b int ok within = ground (arith, int, ok, within)

add64_lem :
    (bound : ℕ) (a b : ℤ)
    → IsInt b
    → is_negative (a +ℤ b) ≡ false
    → IsWithin bound a
    → bound + 2 ^ 31 < 2 ^ 63
    → add64 a b ≡ some (a +ℤ b)
unfolding ◌+ℤ◌ add64
add64_lem bound a b int ok within room = ground (arith, int, ok, within, room)

zero-+ℤ : (a : ℤ) → pos 0 +ℤ a ≡ a
unfolding ◌+ℤ◌
zero-+ℤ a = ground arith

apply_first :
    (bound : ℕ) (m : Map ℤ) (c : Credit) (cs : List Credit)
    → IsInt c.amount
    → is_negative (funds m c.account +ℤ c.amount) ≡ false
    → AreWithin bound m
    → bound + 2 ^ 31 < 2 ^ 63
    → apply_credits m (c ∷ cs) ≡ apply_credits (credit_one m c) cs
unfolding apply_credits funds
apply_first bound m c cs int ok w room = elim (Option-cases (lookup c.account m)) [
  | inl e ↦ rw (e, apply_credits, zero-+ℤ c.amount) refl
  | inr (b, e) ↦
      let within : IsWithin bound b = rw e at (funds-IsWithin bound m c.account w) in
      rw (e, apply_credits, add64_lem bound b c.amount int (rw e at ok) within room) refl
]

funds-assigned : (m : Map ℤ) (c : Credit) → funds (credit_one m c) ≡ pay_one (funds m) c
funds-assigned m c = fun_ext (funds-credit_one m c)

-- What the second loop leaves: the balances as paid, and not above the bound that each credit raises.
abbrev pub IsPaid : ℕ → (Bytes → ℤ) → Map ℤ → Type 0
IsPaid bound f m = AreWithin bound m × (funds m ≡ f)

pub apply_credits-pay :
    (bound : ℕ) (m : Map ℤ) (cs : List Credit)
    → All (λ c. IsInt (Credit.amount c)) cs
    → distinct cs ≡ true
    → covered (funds m) cs ≡ true
    → AreWithin bound m
    → bound + 2 ^ 31 * length cs < 2 ^ 63
    → (m' : Map ℤ) × (apply_credits m cs ≡ some m')
      × IsPaid (bound + 2 ^ 31 * length cs) (pay (funds m) cs) m'
unfolding apply_credits
apply_credits-pay bound m [] ints d cov w room =
    (m, refl, (AreWithin-weaken bound _ m (omega arith) w, refl))
apply_credits-pay bound m (c ∷ cs) ints d cov w room =
    let apart : named c.account cs ≡ false = ground (arith, d) in
    let ok : is_negative (funds m c.account +ℤ c.amount) ≡ false = ground (arith, cov) in
    let within =
      added-IsWithin bound (funds m c.account) c.amount ints.0 ok
        (funds-IsWithin bound m c.account w) in
    let later : covered (funds (credit_one m c)) cs ≡ true =
      rw (funds-assigned m c, covered-pay_one (funds m) c cs apart) (ground (arith, cov)) in
    let r =
      apply_credits-pay (bound + 2 ^ 31) (credit_one m c) cs ints.1 (ground (arith, d)) later
        (assign-AreWithin _ c.account _ m within (AreWithin-weaken bound _ m (omega arith) w))
        (omega (arith, room)) in
    (
      r.0,
      apply_first bound m c cs ints.0 ok w (omega (arith, room)) ∙ r.1,
      (
        AreWithin-weaken _ _ r.0 (omega arith) r.2.0,
        r.2.1 ∙ ap (λ f. pay f cs) (funds-assigned m c),
      ),
    )
