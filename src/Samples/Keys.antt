-- ===== src/Samples/Keys.antt =====
-- Concrete boxes and signed messages, at which the examples run: a row of zeros before the message.
use pttp.Prelude.{
  ℕ, suc, zero, ◌+◌, ◌≡◌, refl, ap, arith, ◌++◌, length, length-append, length-replicate, replicate,
  drop, some, true,
}
use pttp.Bytes.{Bytes, IsBytes}
use pttp.Boxes.{KeyPair, BoxApi}

abbrev pub padded : ℕ → Bytes → Bytes
padded n m = replicate n 0 ++ m

pub length-padded : (n : ℕ) (m : Bytes) → length (padded n m) ≡ length m + n
length-padded n m = omega (arith, length-append (replicate n 0) m, length-replicate {A = ℕ} n 0)

pub padded-IsBytes : (n : ℕ) (m : Bytes) → IsBytes m → IsBytes (padded n m)
padded-IsBytes zero m small = small
padded-IsBytes (suc n) m small = (omega arith, padded-IsBytes n m small)

pub drop-padded : (n : ℕ) (m : Bytes) → drop n (padded n m) ≡ m
drop-padded zero m = refl
drop-padded (suc n) m = drop-padded n m

abbrev pub same_pair : Bytes → KeyPair
same_pair seed = record { priv = seed; pub_key = seed }

abbrev pub sample_api : BoxApi
sample_api = record {
  box_pair = same_pair;
  sign_pair = same_pair;
  box = λ m nonce key priv. some (padded 16 m);
  box_open = λ buffer c nonce key priv. (true, drop 16 c);
  seal = λ m key random. padded 48 m;
  seal_open = λ buffer c key priv. (true, drop 48 c);
  sign = λ m priv. some (padded 64 m);
  sign_open = λ buffer c key. (true, drop 64 c);
  length-seal = λ m key random. length-padded 48 m;
  seal-IsBytes = λ m key random small. padded-IsBytes 48 m small;
  box_open-box = λ m nonce seed seed'. (
    padded 16 m,
    refl,
    length-padded 16 m,
    (λ buffer size. ap (λ (t : Bytes). (true, t)) (drop-padded 16 m)),
  );
  seal_open-seal = λ buffer m seed random size. ap (λ (t : Bytes). (true, t)) (drop-padded 48 m);
  sign_open-sign = λ m seed. (
    padded 64 m,
    refl,
    length-padded 64 m,
    (λ buffer size. ap (λ (t : Bytes). (true, t)) (drop-padded 64 m)),
  );
}
