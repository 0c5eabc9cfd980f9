-- ===== src/Peers/Expanding.antt =====
-- `case EXPAND_CONNECTION` of `manage`: which addresses the node connects to.
use pttp.Prelude.{
  ℕ, zero, suc, ◌≡◌, refl, sym, ap, ◌∙◌, arith, min, List, [], ◌∷◌, ◌++◌, append_assoc, append-nil,
  length, replicate, Option, none, some, Bool, true, false, ◌==◌, if◌then◌else◌, Bool-cases,
  Option-cases, inl, inr,
}
use pttp.Bytes.{Bytes}
use pttp.Maps.{member}
use pttp.Peers.{Connection, connection}
use pttp.Peers.Managing.{scan, connect_new}

-- The first address that is not among the current ones.
abbrev pub first_new : List Bytes → List Bytes → Option Bytes
first_new current [] = none
first_new current (addr ∷ addrs) =
    if member addr current then first_new current addrs else some addr

-- The last address, or the default.
abbrev pub last_or : Bytes → List Bytes → Bytes
last_or d [] = d
last_or d (addr ∷ addrs) = last_or addr addrs

-- `k` connections to one address; an empty address opens none.
abbrev pub attach : (Bytes → Bool) → ℕ → Bytes → List Connection → Option (List Connection)
attach connects zero addr cons = some cons
attach connects (suc k) addr cons =
    if length addr == 0
    then some cons
    else if connects addr
    then some (cons ++ replicate (suc k) (connection addr))
    else none

-- What a round is to open: as many connections as it lacks, all to the first new address, or without one,
-- a single connection to the last address.
abbrev pub opened :
    (Bytes → Bool) → ℕ → List Bytes → List Bytes → List Connection → Option (List Connection)
opened connects n current addrs cons = elim (first_new current addrs) [
  | some addr ↦ attach connects n addr cons
  | none ↦ attach connects (min 1 n) (last_or [] addrs) cons
]

scan-none :
    (current addrs : List Bytes) (d : Bytes)
    → first_new current addrs ≡ none
    → scan current addrs d ≡ (last_or d addrs, [])
unfolding scan
scan-none current [] d h = refl
scan-none current (addr ∷ addrs) d h = elim (Bool-cases (member addr current)) [
  | inl old ↦ rw old (scan-none current addrs addr (rw old at h))
  | inr new ↦ let e : some addr ≡ none = rw new at h in absurd (cc e)
]

-- Wherever the scan starts, it stops before the same suffix.
scan-some :
    (current addrs : List Bytes) (d addr : Bytes)
    → first_new current addrs ≡ some addr
    → (rest : List Bytes) × (scan current addrs d ≡ (addr, addr ∷ rest))
      × (member addr current ≡ false)
unfolding scan
scan-some current [] d addr h = absurd (cc h)
scan-some current (a ∷ addrs) d addr h = elim (Bool-cases (member a current)) [
  | inl old ↦ rw old (scan-some current addrs a addr (rw old at h))
  | inr new ↦
      let e : some a ≡ some addr = rw new at h in
      let e' : a ≡ addr = cc e in rw new (addrs, rw e' refl, rw (← e') new)
]

attach-empty :
    (connects : Bytes → Bool) (n : ℕ) (addr : Bytes) (cons : List Connection)
    → (length addr == 0) ≡ true
    → attach connects n addr cons ≡ some cons
attach-empty connects zero addr cons empty = refl
attach-empty connects (suc n) addr cons empty = rw empty refl

attach-open :
    (connects : Bytes → Bool) (n : ℕ) (addr : Bytes) (cons : List Connection)
    → (length addr == 0) ≡ false
    → connects addr ≡ true
    → attach connects n addr cons ≡ some (cons ++ replicate n (connection addr))
attach-open connects zero addr cons there good = ap some (sym (append-nil cons))
attach-open connects (suc n) addr cons there good = rw (there, good) refl

-- With the suffix that starts at a new address, each further round opens the same address.
connect_again :
    (connects : Bytes → Bool) (n : ℕ) (current rest : List Bytes) (addr : Bytes)
    (cons : List Connection)
    → member addr current ≡ false
    → connect_new connects n current (addr ∷ rest) cons ≡ attach connects n addr cons
unfolding connect_new scan
connect_again connects zero current rest addr cons new = refl
connect_again connects (suc n) current rest addr cons new = elim (Bool-cases (length addr == 0)) [
  | inl empty ↦
      rw (new, empty)
        (connect_again connects n current rest addr cons new
          ∙ attach-empty connects n addr cons empty)
  | inr there ↦ elim (Bool-cases (connects addr)) [
    | inr refused ↦ rw (new, there, refused) refl
    | inl good ↦
        rw (new, there, good)
          (connect_again connects n current rest addr (cons ++ (connection addr ∷ [])) new
            ∙ attach-open connects n addr (cons ++ (connection addr ∷ [])) there good
            ∙ ap some (append_assoc cons (connection addr ∷ []) (replicate n (connection addr))))
  ]
]

-- The rounds after the addresses have run out open nothing.
connect_nothing :
    (connects : Bytes → Bool) (n : ℕ) (current : List Bytes) (cons : List Connection)
    → connect_new connects n current [] cons ≡ some cons
unfolding connect_new scan
connect_nothing connects zero current cons = refl
connect_nothing connects (suc n) current cons = connect_nothing connects n current cons

connect_zero :
    (connects : Bytes → Bool) (current addrs : List Bytes) (cons : List Connection)
    → connect_new connects 0 current addrs cons ≡ some cons
unfolding connect_new
connect_zero connects current addrs cons = refl

min_one : (n : ℕ) → min 1 (suc n) ≡ 1
min_one n = omega arith

scan_new :
    (current rest : List Bytes) (addr d : Bytes)
    → member addr current ≡ false
    → scan current (addr ∷ rest) d ≡ (addr, addr ∷ rest)
unfolding scan
scan_new current rest addr d new = rw new refl

connect_step :
    (connects : Bytes → Bool) (n : ℕ) (current addrs rest : List Bytes) (ip : Bytes)
    (cons : List Connection)
    → scan current addrs [] ≡ (ip, rest)
    → connect_new connects (suc n) current addrs cons ≡ (
        if length ip == 0
        then connect_new connects n current rest cons
        else if connects ip
        then connect_new connects n current rest (cons ++ (connection ip ∷ []))
        else none)
unfolding connect_new
connect_step connects n current addrs rest ip cons h = rw (h, connect_new) refl

-- With a new address every round is like the first.
connect_some :
    (connects : Bytes → Bool) (n : ℕ) (current addrs rest : List Bytes) (addr : Bytes)
    (cons : List Connection)
    → scan current addrs [] ≡ (addr, addr ∷ rest)
    → member addr current ≡ false
    → connect_new connects (suc n) current addrs cons ≡ attach connects (suc n) addr cons
connect_some connects n current addrs rest addr cons stopped new =
    connect_step connects n current addrs (addr ∷ rest) addr cons stopped
    ∙ sym (
        connect_step connects n current (addr ∷ rest) (addr ∷ rest) addr cons
          (scan_new current rest addr [] new))
    ∙ connect_again connects (suc n) current rest addr cons new

connect_last :
    (connects : Bytes → Bool) (n : ℕ) (current addrs : List Bytes) (cons : List Connection)
    → first_new current addrs ≡ none
    → connect_new connects (suc n) current addrs cons ≡ attach connects 1 (last_or [] addrs) cons
connect_last connects n current addrs cons e =
    connect_step connects n current addrs [] (last_or [] addrs) cons (scan-none current addrs [] e)
    ∙ rw
        (
          connect_nothing connects n current cons,
          connect_nothing connects n current (cons ++ (connection (last_or [] addrs) ∷ [])),
        )
        refl

-- A round of EXPAND_CONNECTION that lacks `n` connections opens `n` of them to the first address, in
-- the shuffled order, that is not current; without one it opens a single connection, to the last
-- address. An empty address opens none, and the program ends where ZeroMQ refuses the address.
pub connect_new-opened :
    (connects : Bytes → Bool) (n : ℕ) (current addrs : List Bytes) (cons : List Connection)
    → connect_new connects n current addrs cons ≡ opened connects n current addrs cons
connect_new-opened connects zero current addrs cons =
    elim (Option-cases (first_new current addrs)) [
      | inl e ↦ rw (e, opened) (connect_zero connects current addrs cons)
      | inr (addr, e) ↦ rw (e, opened) (connect_zero connects current addrs cons)
    ]
connect_new-opened connects (suc n) current addrs cons =
    elim (Option-cases (first_new current addrs)) [
      | inl e ↦ connect_last connects n current addrs cons e ∙ rw (e, opened, min_one n) refl
      | inr (addr, e) ↦
          let (rest, stopped, new) = scan-some current addrs [] addr e in
          connect_some connects n current addrs rest addr cons stopped new ∙ rw (e, opened) refl
    ]
