-- ===== src/Cipher/RoundTrip.antt =====
-- bin/dec.cc and bin/hexdec.cc on what bin/enc.cc and bin/hexenc.cc print.
use pttp.Prelude.{ℕ, ◌/◌, ◌≡◌, sym, ap, ◌∙◌, arith, length, some, true, ◌==◌, ◌>>=◌, >>=-eq-some}
use pttp.Bytes.{Bytes, x_or}
use pttp.Bytes.Bitset.{x_or_cancel, length-x_or}
use pttp.Cipher.{Sodium, from_hex, show, mask, enc, dec, hexenc, hexdec}

module _ (sodium : Sodium) where
  open sodium use {hasher, pwhash, bin2hex, hex2bin}

  pub from_hex-show : (b : Bytes) → from_hex sodium (show sodium b) ≡ b
  unfolding from_hex show
  from_hex-show b =
      let half : length (bin2hex b) / 2 ≡ length b = omega (arith, sodium.length-bin2hex b) in
      ap (λ (n : ℕ). hex2bin n (bin2hex b)) half ∙ sodium.hex2bin-bin2hex b

  mask_salted :
      (msg pass salt : Bytes)
      → mask sodium msg pass salt
        ≡ x_or msg (hasher.digest (length msg) (pwhash pass (hasher.digest 16 salt)))
  unfolding mask
  mask_salted msg pass salt =
      let fits : length (hasher.digest 16 salt) == 16 ≡ true =
        ground (arith, hasher.size 16 salt) in
      rw fits

  -- Masking succeeds, keeps the size, and is undone by masking once more.
  pub mask_cancel :
      (msg pass salt : Bytes)
      → (c : Bytes) × (mask sodium msg pass salt ≡ some c) × (mask sodium c pass salt ≡ some msg)
  mask_cancel msg pass salt =
      let h = pwhash pass (hasher.digest 16 salt) in
      let sized = hasher.size (length msg) h in
      let (c, ran, back) =
        >>=-eq-some (x_or msg (hasher.digest (length msg) h))
          (λ ys. x_or ys (hasher.digest (length msg) h))
          (x_or_cancel msg (hasher.digest (length msg) h) (sym sized)) in
      let same : length c ≡ length msg = length-x_or msg (hasher.digest (length msg) h) ran in
      (c, mask_salted msg pass salt ∙ ran, mask_salted c pass salt ∙ rw same back)

  -- `dec` on what `enc` prints, with the same password, prints the message.
  pub dec-enc :
      (msg pass salt : Bytes)
      → (enc sodium msg pass salt >>= λ out. dec sodium out.0 out.1 pass) ≡ some msg
  unfolding enc dec
  dec-enc msg pass salt =
      let (c, ran, back) = mask_cancel msg pass salt in
      rw (ran, from_hex-show c, from_hex-show salt) back

  -- `hexdec` on what `hexenc` prints, with the same password, prints the hexadecimal text of the
  -- message that `hexenc` was given as such a text.
  pub hexdec-hexenc :
      (msg pass salt : Bytes)
      → (hexenc sodium (show sodium msg) pass salt >>= λ out. hexdec sodium out.0 out.1 pass)
        ≡ some (show sodium msg)
  unfolding hexenc hexdec
  hexdec-hexenc msg pass salt =
      let (c, ran, back) = mask_cancel msg pass salt in
      rw (from_hex-show msg, ran, from_hex-show c, from_hex-show salt, back)
