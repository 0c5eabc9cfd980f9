-- ===== src/Ledger/Parsing.antt =====
-- The constructor of `pttp::Transaction` against `process_transaction`.
use pttp.Prelude.{
  ℕ, suc, ◌+◌, ◌≤◌, ◌≡◌, refl, arith, List, [], ◌∷◌, length, length-set, length-replicate,
  get_elem?, set, leb, drop, replicate, map, none, some, false, if◌then◌else◌, Bool-cases,
  Option-cases, inl, inr,
}
use pttp.Bytes.{Bytes}
use pttp.Cuckoo.Lookup.{update_at-set}
use pttp.Process
use pttp.Process.{Credit, Wire, Signer, to_int, is_negative}
use pttp.Process.Signed.{debtors, signs, drop-some, drop-none}
use pttp.Ledger.{stored, verify_all, parse}

-- The witnesses at and after place `n` are replaced by those of the message, one for each debtor.
abbrev pub filled : List Bytes → List Bytes → ℕ → List Bytes → List Bytes
filled [] ws n witnesses = witnesses
filled (d ∷ ds) [] n witnesses = witnesses
filled (d ∷ ds) (w ∷ ws) n witnesses = filled ds ws (suc n) (set witnesses n w)

module _ (signer : Signer) (m : Bytes) (ws : List Bytes) where
  verify_all-signs :
      (cs : List Credit) (n : ℕ) (witnesses : List Bytes)
      → n + length cs ≤ length witnesses
      → verify_all signer m ws cs n witnesses ≡ (
          if signs signer m (debtors cs) (drop n ws)
          then some (filled (debtors cs) (drop n ws) n witnesses)
          else none)
  unfolding verify_all
  verify_all-signs [] n witnesses room = refl
  verify_all-signs (c ∷ cs) n witnesses room = elim (Bool-cases (is_negative (to_int c.amount))) [
    | inr e ↦ rw e (verify_all-signs cs n witnesses (omega arith))
    | inl e ↦
        let inside : leb (length witnesses) n ≡ false = ground (arith, room) in
        elim (Option-cases (get_elem? ws n)) [
          | inl gone ↦ rw (e, inside, gone, drop-none ws n gone) refl
          | inr (w, there) ↦
              let wrote = update_at-set witnesses n w (omega arith) in
              let next =
                verify_all-signs cs (suc n) (set witnesses n w)
                  (omega (arith, length-set witnesses n w)) in
              elim (Bool-cases (signer.verify w m c.account)) [
                | inl good ↦ rw (e, inside, there, wrote, drop-some ws n there, good) next
                | inr bad ↦ rw (e, inside, there, wrote, drop-some ws n there, bad) refl
              ]
        ]
  ]

-- On a message whose credit set can be read, the constructor of `pttp::Transaction` succeeds exactly
-- where `process_transaction` accepts, and keeps the accounts, the amounts as `int`, and the signatures
-- that it has checked, in as many places as there are credits.
pub parse-signs :
    (signer : Signer) (wire : Wire) (tx : Process.Transaction) (cs : List Credit)
    → wire.read_credits tx.credit_set ≡ some cs
    → parse signer wire tx ≡ (
        if signs signer tx.credit_set (debtors cs) tx.signatures
        then some (record {
          credits = map stored cs;
          witnesses = filled (debtors cs) tx.signatures 0 (replicate (length cs) []);
        })
        else none)
unfolding parse
parse-signs signer wire tx cs known =
    let start : List Bytes = replicate (length cs) [] in
    let room : 0 + length cs ≤ length start =
      omega (arith, length-replicate {A = Bytes} (length cs) []) in
    let run = verify_all-signs signer tx.credit_set tx.signatures cs 0 start room in
    elim (Bool-cases (signs signer tx.credit_set (debtors cs) tx.signatures)) [
      | inl e ↦ rw (known, run, e) refl
      | inr e ↦ rw (known, run, e) refl
    ]
