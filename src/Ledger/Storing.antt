-- ===== src/Ledger/Storing.antt =====
-- `pttp::Transaction`: what its constructor reads from the bytes that `bytes` writes.
use pttp.Prelude.{
  ℕ, suc, ◌+◌, ◌<◌, ◌≤◌, ◌≡◌, refl, ap, ◌∙◌, arith, List, [], ◌∷◌, length, length-set,
  length-replicate, get_elem?, get_elem?-set_self, get_elem?-set_ne, set, drop, replicate, map,
  some, true, Bool-cases, inl, inr, All, ◌>>=◌,
}
use pttp.Prelude.Int.{ℤ, pos, negsuc}
use pttp.Bytes.{Bytes}
use pttp.Process
use pttp.Process.{Credit, IsInt, IsInt64, Wire, Signer, to_int, is_negative}
use pttp.Process.Signed.{debtors, signs, drop-some}
use pttp.Process.Creation.{to_int_same}
use pttp.Ledger.{Transaction, stored, parse, bytes, credit_bytes}
use pttp.Ledger.Parsing.{filled, parse-signs}

length-debtors : (cs : List Credit) → length (debtors cs) ≤ length cs
length-debtors [] = omega arith
length-debtors (c ∷ cs) = elim (Bool-cases (is_negative (to_int c.amount))) [
  | inl e ↦ rw e (omega (arith, length-debtors cs))
  | inr e ↦ rw e (omega (arith, length-debtors cs))
]

-- Filling from a place on leaves what stands before it.
filled_before :
    (ds ws : List Bytes) (n i : ℕ) (z : List Bytes)
    → i < n
    → get_elem? (filled ds ws n z) i ≡ get_elem? z i
filled_before [] ws n i z h = refl
filled_before (d ∷ ds) [] n i z h = refl
filled_before (d ∷ ds) (w ∷ ws) n i z h =
    filled_before ds ws (suc n) i (set z n w) (omega arith)
    ∙ get_elem?-set_ne z w (λ e. absurd (omega arith))

drop-filled :
    (ds ws : List Bytes) (w : Bytes) (n : ℕ) (z : List Bytes)
    → n < length z
    → drop n (filled ds ws (suc n) (set z n w))
      ≡ w ∷ drop (suc n) (filled ds ws (suc n) (set z n w))
drop-filled ds ws w n z room =
    drop-some (filled ds ws (suc n) (set z n w)) n
      (filled_before ds ws (suc n) n (set z n w) (omega arith) ∙ get_elem?-set_self z n w room)

module _ (signer : Signer) (m : Bytes) where
  -- Signatures that sign for the debtors still do so where they have been filled in, and fill the same.
  signs-filled :
      (ds ws : List Bytes) (n : ℕ) (z : List Bytes)
      → signs signer m ds ws ≡ true
      → n + length ds ≤ length z
      → signs signer m ds (drop n (filled ds ws n z)) ≡ true
  signs-filled [] ws n z ok room = refl
  signs-filled (d ∷ ds) [] n z ok room = cc
  signs-filled (d ∷ ds) (w ∷ ws) n z ok room =
      let rest =
        signs-filled ds ws (suc n) (set z n w) (ground (arith, ok))
          (omega (arith, length-set z n w)) in
      rw (drop-filled ds ws w n z (omega (arith, room))) (ground (arith, ok, rest))

  filled-filled :
      (ds ws : List Bytes) (n : ℕ) (y z : List Bytes)
      → signs signer m ds ws ≡ true
      → n + length ds ≤ length z
      → filled ds (drop n (filled ds ws n z)) n y ≡ filled ds ws n y
  filled-filled [] ws n y z ok room = refl
  filled-filled (d ∷ ds) [] n y z ok room = cc
  filled-filled (d ∷ ds) (w ∷ ws) n y z ok room =
      rw (drop-filled ds ws w n z (omega (arith, room))) (
        filled-filled ds ws (suc n) (set y n w) (set z n w) (ground (arith, ok))
          (omega (arith, length-set z n w)))

map-stored_same : (cs : List Credit) → All (λ c. IsInt (Credit.amount c)) cs → map stored cs ≡ cs
unfolding stored
map-stored_same [] ints = refl
map-stored_same (c ∷ cs) ints = rw (to_int_same c.amount ints.0, map-stored_same cs ints.1) refl

IsInt-IsInt64 : (a : ℤ) → IsInt a → IsInt64 a
IsInt-IsInt64 (pos n) h = omega arith
IsInt-IsInt64 (negsuc n) h = omega arith

All-IsInt64 :
    (cs : List Credit)
    → All (λ c. IsInt (Credit.amount c)) cs
    → All (λ c. IsInt64 (Credit.amount c)) cs
All-IsInt64 [] ints = tt
All-IsInt64 (c ∷ cs) ints = (IsInt-IsInt64 c.amount ints.0, All-IsInt64 cs ints.1)

-- The transaction that is kept of a message with these credits and signatures.
abbrev pub kept : List Credit → List Bytes → Transaction
kept cs ws = record {
  credits = cs;
  witnesses = filled (debtors cs) ws 0 (replicate (length cs) []);
}

abbrev message : Wire → List Credit → List Bytes → Process.Transaction
message wire cs ws = record { credit_set = wire.write_credits cs; signatures = ws }

module _ (signer : Signer) (wire : Wire) (cs : List Credit)
    (small : All (λ c. IsInt (Credit.amount c)) cs) where
  parse-kept :
      (ws : List Bytes)
      → signs signer (wire.write_credits cs) (debtors cs) ws ≡ true
      → parse signer wire (message wire cs ws) ≡ some (kept cs ws)
  parse-kept ws ok =
      let known = wire.read-write_credits cs (All-IsInt64 cs small) in
      rw (parse-signs signer wire (message wire cs ws) cs known, ok, map-stored_same cs small) refl

  -- A transaction whose credits have amounts that an `int` holds, whose credit set is those credits as
  -- `credit_bytes` writes them, and whose first signatures verify in order for the accounts that pay, is
  -- kept with those credits, and is read back from the bytes that `bytes` writes of it.
  pub parse-bytes :
      (ws : List Bytes)
      → signs signer (wire.write_credits cs) (debtors cs) ws ≡ true
      → (t : Transaction) × (parse signer wire (message wire cs ws) ≡ some t)
        × (t.credits ≡ cs)
        × ((wire.read_transaction (bytes wire t) >>= λ tx. parse signer wire tx) ≡ some t)
  unfolding bytes credit_bytes
  parse-bytes ws ok =
      let z : List Bytes = replicate (length cs) [] in
      let room : 0 + length (debtors cs) ≤ length z =
        omega (arith, length-debtors cs, length-replicate {A = Bytes} (length cs) []) in
      let ws' = filled (debtors cs) ws 0 z in
      let m = wire.write_credits cs in
      let still = parse-kept ws' (signs-filled signer m (debtors cs) ws 0 z ok room) in
      let same = filled-filled signer m (debtors cs) ws 0 z z ok room in
      (
        kept cs ws,
        parse-kept ws ok,
        refl,
        rw (wire.read-write_transaction (message wire cs ws'))
            (still ∙ ap (λ w. some (record { credits = cs; witnesses = w })) same),
      )
