-- ===== src/Peers/Opening.antt =====
-- `case EXPAND_CONNECTION` of `manage`: how many connections a round opens, and to which addresses.
use pttp.Prelude.{
  ℕ, zero, suc, ◌+◌, ◌≤◌, ◌≡◌, refl, sym, ◌∙◌, arith, min, List, [], ◌∷◌, ◌++◌, append-nil, length,
  length-append, length-replicate, replicate, none, some, Bool, true, ◌==◌, ◌⊎◌, inl, inr, All,
  Bool-cases, Option-cases, of_some,
}
use pttp.Bytes.{Bytes, equal_refl}
use pttp.Maps.{member}
use pttp.Peers.{Connection, connection}
use pttp.Peers.Managing.{connect_new}
use pttp.Peers.Expanding.{first_new, last_or, attach, opened, connect_new-opened}
use pttp.Peers.Quiet.{addresses}

-- `k` connections to one of the addresses were opened.
abbrev pub Extends : ℕ → List Bytes → List Connection → List Connection → Type 0
Extends n addrs cons cons' =
    (k : ℕ) × (addr : Bytes) × (k ≤ n)
    × (cons' ≡ cons ++ replicate k (connection addr))
    × ((k ≡ 0) ⊎ (member addr addrs ≡ true))

attach-Extends :
    (connects : Bytes → Bool) (n : ℕ) (addrs : List Bytes) (addr : Bytes)
    (cons cons' : List Connection)
    → (length addr == 0) ≡ true ⊎ (member addr addrs ≡ true)
    → attach connects n addr cons ≡ some cons'
    → Extends n addrs cons cons'
attach-Extends connects zero addrs addr cons cons' known h =
    (0, addr, omega arith, sym (of_some h) ∙ sym (append-nil cons), inl refl)
attach-Extends connects (suc n) addrs addr cons cons' known h =
    elim (Bool-cases (length addr == 0)) [
      | inl empty ↦
          (0, addr, omega arith, sym (of_some (rw empty at h)) ∙ sym (append-nil cons), inl refl)
      | inr there ↦ elim (Bool-cases (connects addr)) [
        | inr refused ↦ let e : none ≡ some cons' = rw (there, refused) at h in absurd (cc e)
        | inl good ↦ (
          suc n,
          addr,
          omega arith,
          sym (of_some (rw (there, good) at h)),
          inr (elim known [ inl empty ↦ absurd (cc (empty, there)) | inr m ↦ m ]),
        )
      ]
    ]

first_new-member :
    (current addrs : List Bytes) (addr : Bytes)
    → first_new current addrs ≡ some addr
    → member addr addrs ≡ true
unfolding member
first_new-member current [] addr h = absurd (cc h)
first_new-member current (a ∷ addrs) addr h = elim (Bool-cases (member a current)) [
  | inl old ↦ let m = first_new-member current addrs addr (rw old at h) in ground (arith, m)
  | inr new ↦ let e : a ≡ addr = of_some (rw new at h) in rw (e, equal_refl addr) refl
]

last_or-member :
    (addr : Bytes) (addrs : List Bytes) → member (last_or addr addrs) (addr ∷ addrs) ≡ true
unfolding member
last_or-member addr [] = rw (equal_refl addr) refl
last_or-member addr (a ∷ addrs) =
    let m : member (last_or a addrs) (a ∷ addrs) ≡ true = last_or-member a addrs in
    ground (arith, m)

last_or-known :
    (addrs : List Bytes)
    → (length (last_or [] addrs) == 0) ≡ true ⊎ (member (last_or [] addrs) addrs ≡ true)
last_or-known [] = inl refl
last_or-known (a ∷ addrs) = inr (last_or-member a addrs)

Extends-more :
    (n m : ℕ) (addrs : List Bytes) (cons cons' : List Connection)
    → n ≤ m
    → Extends n addrs cons cons'
    → Extends m addrs cons cons'
Extends-more n m addrs cons cons' le (k, addr, few, e, known) = (k, addr, omega arith, e, known)

opened-none :
    (connects : Bytes → Bool) (n : ℕ) (current addrs : List Bytes) (cons : List Connection)
    → first_new current addrs ≡ none
    → attach connects (min 1 n) (last_or [] addrs) cons ≡ opened connects n current addrs cons
opened-none connects n current addrs cons e = rw (e, opened) refl

opened-some :
    (connects : Bytes → Bool) (n : ℕ) (current addrs : List Bytes) (cons : List Connection)
    (addr : Bytes)
    → first_new current addrs ≡ some addr
    → attach connects n addr cons ≡ opened connects n current addrs cons
opened-some connects n current addrs cons addr e = rw (e, opened) refl

pub connect_new-Extends :
    (connects : Bytes → Bool) (n : ℕ) (current addrs : List Bytes) (cons cons' : List Connection)
    → connect_new connects n current addrs cons ≡ some cons'
    → Extends n addrs cons cons'
connect_new-Extends connects n current addrs cons cons' h =
    let h' = sym (connect_new-opened connects n current addrs cons) ∙ h in
    elim (Option-cases (first_new current addrs)) [
      | inl e ↦ Extends-more (min 1 n) n addrs cons cons' (omega arith) (
          attach-Extends connects (min 1 n) addrs (last_or [] addrs) cons cons'
            (last_or-known addrs) (opened-none connects n current addrs cons e ∙ h'))
      | inr (addr, e) ↦
          attach-Extends connects n addrs addr cons cons'
            (inr (first_new-member current addrs addr e))
            (opened-some connects n current addrs cons addr e ∙ h')
    ]

pub length-opened :
    (cons : List Connection) (k : ℕ) (con : Connection)
    → length (cons ++ replicate k con) ≡ length cons + k
length-opened cons k con =
    omega (arith, length-append cons (replicate k con), length-replicate {A = Connection} k con)

pub All-addresses :
    (ips : List Bytes) (cons : List Connection) (k : ℕ) (addr : Bytes)
    → All (λ a. member a ips ≡ true) (addresses cons)
    → ((k ≡ 0) ⊎ (member addr ips ≡ true))
    → All (λ a. member a ips ≡ true) (addresses (cons ++ replicate k (connection addr)))
unfolding connection
All-addresses ips [] zero addr all known = tt
All-addresses ips [] (suc k) addr all known =
    let m : member addr ips ≡ true = elim known [ inl e ↦ absurd (omega (arith, e)) | inr m ↦ m ] in
    (m, All-addresses ips [] k addr tt (inr m))
All-addresses ips (con ∷ cons) k addr all known = (all.0, All-addresses ips cons k addr all.1 known)
