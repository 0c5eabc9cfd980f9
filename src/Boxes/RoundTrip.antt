-- ===== src/Boxes/RoundTrip.antt =====
-- Opening what `EncryptedMessage`, `SealedMessage`, `SignedMessage` and bin/fullenc.cc make.
use pttp.Prelude.{
  ℕ, ◌+◌, ◌-◌, ◌<◌, ◌≡◌, refl, ap, arith, [], ◌∷◌, length, length-replicate, replicate, some, Bool,
  true, false, leb, ◌==◌, Bool-cases, inl, inr, ◌>>=◌,
}
use pttp.Bytes.{Bytes, IsBytes}
use pttp.Cipher.{Sodium, hard_hash_salt}
use pttp.Cipher.RoundTrip.{from_hex-show}
use pttp.Bech32.{bytes_to_bech32}
use pttp.Bech32.Digits.{enc5-AreDigits}
use pttp.Boxes.{
  KeyPair, BoxApi, EncryptedMessage, SealedMessage, SignedMessage, Printed, open_guarded, encrypt,
  received, decrypt, sealed, sealed_from, unseal, signed, signed_from, verify, password_pair,
  fullenc, fulldec, mac_size, seal_size, sign_size,
}

-- What is longer than what the class adds is opened in a buffer of the message's size.
open_guarded-opens :
    (added : ℕ) (opens : Bytes → Bool × Bytes) (message wrapped m : Bytes)
    → 0 < length m
    → length wrapped ≡ length m + added
    → ((buffer : Bytes) → length buffer ≡ length m → opens buffer ≡ (true, m))
    → open_guarded added opens message wrapped ≡ (true, m)
unfolding open_guarded
open_guarded-opens added opens message wrapped m pos size good =
    let long : leb (length wrapped) added ≡ false = ground (arith, size, pos) in
    let room : length (replicate (length wrapped - added) 0) ≡ length m =
      omega (arith, length-replicate {A = ℕ} (length wrapped - added) 0, size) in
    rw long (good (replicate (length wrapped - added) 0) room)

module _ (api : BoxApi) where
  -- A message, not empty, that is encrypted from one key pair to another is decrypted with the other's
  -- secret key, the sender's public key and the same nonce.
  pub decrypt-encrypt :
      (m nonce nonce' seed seed' : Bytes)
      → 0 < length m
      → (e : EncryptedMessage) × (encrypt api m
            (KeyPair.pub_key (api.box_pair seed'))
            (KeyPair.priv (api.box_pair seed))
            nonce
          ≡ some e)
        × (e.nonce ≡ nonce)
        × (decrypt api
              (received api e.enc_message nonce')
              (KeyPair.pub_key (api.box_pair seed))
              (KeyPair.priv (api.box_pair seed'))
              nonce
            ≡ (true, record { message = m; enc_message = e.enc_message; nonce = nonce' }))
  unfolding encrypt received decrypt
  decrypt-encrypt m nonce nonce' seed seed' pos =
      let (c, made, size, good) = api.box_open-box m nonce seed seed' in
      let key = KeyPair.pub_key (api.box_pair seed) in
      let priv = KeyPair.priv (api.box_pair seed') in
      (
        record { message = m; enc_message = c; nonce = nonce },
        rw made refl,
        refl,
        rw
            (open_guarded-opens mac_size (λ buffer. api.box_open buffer c nonce key priv) [] c m pos
              size good)
            refl,
      )

  -- A message, not empty, that is sealed for a key pair is unsealed with that pair.
  pub unseal-sealed :
      (m seed random : Bytes)
      → 0 < length m
      → unseal api
          (sealed_from api (
            SealedMessage.sealed_message
              (sealed api m (KeyPair.pub_key (api.box_pair seed)) random)))
          (KeyPair.pub_key (api.box_pair seed))
          (KeyPair.priv (api.box_pair seed))
        ≡ (true, sealed api m (KeyPair.pub_key (api.box_pair seed)) random)
  unfolding sealed sealed_from unseal
  unseal-sealed m seed random pos =
      let key = KeyPair.pub_key (api.box_pair seed) in
      let opened =
        open_guarded-opens seal_size
          (λ buffer.
            api.seal_open buffer (api.seal m key random) key (KeyPair.priv (api.box_pair seed)))
          [] (api.seal m key random) m pos (api.length-seal m key random)
          (λ buffer size. api.seal_open-seal buffer m seed random size) in
      rw opened refl

  -- The size guard refuses a box of the empty message, which is exactly as long as what sealing adds.
  pub unseal-empty :
      (key key' priv random : Bytes)
      → unseal api
          (sealed_from api (SealedMessage.sealed_message (sealed api [] key random)))
          key'
          priv
        ≡ (false, sealed_from api (SealedMessage.sealed_message (sealed api [] key random)))
  unfolding sealed sealed_from unseal open_guarded
  unseal-empty key key' priv random =
      let short : leb (length (api.seal [] key random)) 48 ≡ true =
        ground (arith, api.length-seal [] key random) in
      rw short refl

  -- A message, not empty, that is signed with the secret key of a pair is verified with its public key.
  pub verify-signed :
      (m seed : Bytes)
      → 0 < length m
      → (s : SignedMessage) × (signed api m (KeyPair.priv (api.sign_pair seed)) ≡ some s)
        × (s.message ≡ m)
        × (verify api (signed_from api s.signed_message) (KeyPair.pub_key (api.sign_pair seed))
            ≡ (true, s))
  unfolding signed signed_from verify
  verify-signed m seed pos =
      let (c, made, size, good) = api.sign_open-sign m seed in
      let key = KeyPair.pub_key (api.sign_pair seed) in
      (
        record { message = m; signed_message = c },
        rw made refl,
        refl,
        rw
            (open_guarded-opens sign_size (λ buffer. api.sign_open buffer c key) [] c m pos size
              good)
            refl,
      )

bytes_to_bech32_total :
    (encode : Bytes → Bytes → Bytes → Bytes) (pre b : Bytes)
    → IsBytes b
    → (t : Bytes) × (bytes_to_bech32 encode pre b ≡ some t)
unfolding bytes_to_bech32
bytes_to_bech32_total encode pre b small = elim (Bool-cases (length b == 0)) [
  | inl e ↦ ([], rw e refl)
  | inr e ↦
      let (ds, ran, digits) = enc5-AreDigits b small (ground arith) in
      (encode (replicate (length pre + length ds + 8) b' ') pre ds, rw (e, ran) refl)
]

-- `fullenc` on a message that is not empty prints texts, and `fulldec` on the two to base 16, with the
-- same password, prints the message.
pub fulldec-fullenc :
    (api : BoxApi) (sodium : Sodium) (encode : Bytes → Bytes → Bytes → Bytes)
    (msg pass salt random : Bytes)
    → 0 < length msg
    → IsBytes msg
    → IsBytes salt
    → (fullenc api sodium encode msg pass salt random >>= λ out.
        fulldec api sodium (Printed.msg_hex out) (Printed.salt_hex out) pass)
      ≡ some msg
unfolding fullenc fulldec password_pair hard_hash_salt
fulldec-fullenc api sodium encode msg pass salt random pos small small' =
    let fits : length (sodium.hasher.digest 16 salt) == 16 ≡ true =
      ground (arith, sodium.hasher.size 16 salt) in
    let seed = sodium.hasher.digest 32 (sodium.pwhash pass (sodium.hasher.digest 16 salt)) in
    let s = sealed api msg (KeyPair.pub_key (api.box_pair seed)) random in
    let s_small : IsBytes s.sealed_message =
      unfold sealed in api.seal-IsBytes msg (KeyPair.pub_key (api.box_pair seed)) random small in
    let (m, ran) = bytes_to_bech32_total encode (b'm' ∷ []) s.sealed_message s_small in
    let (t, ran') = bytes_to_bech32_total encode (b's' ∷ []) salt small' in
    let kept : s.message ≡ msg = unfold sealed in refl in
    rw
      (
        fits,
        ran,
        ran',
        from_hex-show sodium salt,
        fits,
        from_hex-show sodium s.sealed_message,
        unseal-sealed api msg seed random pos,
      )
      (ap some kept)
