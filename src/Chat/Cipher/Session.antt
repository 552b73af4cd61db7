-- ===== src/Chat/Cipher/Session.antt =====
-- What the two sides of an encrypted session share.
use voidnet.Base.{
  ◌≡◌, refl, ap, ◌++◌, some, Text, ok, ok_or, length, ◌==◌, utf8, inl, inr, Bool-cases, >>=-eq_ok,
  ok_or-eq_ok, absurd_of_err, subst, codes,
}
use voidnet.Identity.{Bytes, Crypto}
use voidnet.Chat.Error.{encryption_failed}
use voidnet.Chat.Message.{EncryptedPayload}
use voidnet.Chat.Cipher.{
  Ciphers, IsSoundCipher, derive_session_key, encrypt_payload, decrypt_payload,
  decode_x25519_public_key,
}

module _ {Secret Public : Type 0} (x : Ciphers Secret Public) where
  -- A public key that is sent in base64 is read back, if the encodings are.
  pub decode_x25519_public_key-base64_encode :
      {Key : Type 0} (c : Crypto Key) (p : Public)
      → ((b : Bytes) → c.base64_decode (c.base64_encode b) ≡ ok b)
      → IsSoundCipher x
      → decode_x25519_public_key x c (c.base64_encode (x.to_bytes p)) ≡ ok p
  unfolding decode_x25519_public_key
  decode_x25519_public_key-base64_encode c p back sound =
      rw (back (x.to_bytes p), sound.to_length p, sound.from_back p) refl

  -- Each side derives the same session key from its own secret and the public key of the other.
  pub derive_session_key_agrees :
      (a b : Secret) (session_id : Text)
      → IsSoundCipher x
      → derive_session_key x a (x.public_of b) session_id
        ≡ derive_session_key x b (x.public_of a) session_id
  unfolding derive_session_key
  derive_session_key_agrees a b session_id sound =
      ap (λ (shared : Bytes). x.blake3 (shared ++ utf8 session_id)) (sound.agree a b)

  pub length-derive_session_key :
      (a : Secret) (p : Public) (session_id : Text)
      → IsSoundCipher x
      → length (derive_session_key x a p session_id) ≡ 32
  unfolding derive_session_key
  length-derive_session_key a p session_id sound =
      sound.hash_length (x.diffie_hellman a p ++ utf8 session_id)

  -- What is encrypted under a key is decrypted under it, with a nonce of twelve bytes.
  pub decrypt_payload-encrypt_payload :
      (nonce key plaintext : Bytes) (payload : EncryptedPayload)
      → IsSoundCipher x
      → length nonce ≡ 12
      → encrypt_payload x nonce key plaintext ≡ ok payload
      → decrypt_payload x key payload ≡ ok plaintext
  unfolding encrypt_payload
  decrypt_payload-encrypt_payload nonce key plaintext payload sound twelve h =
      elim (Bool-cases (length key == 32)) [
        | inr bad ↦ absurd_of_err (rw bad at h)
        | inl good ↦
            let (ciphertext, sealed, same) =
              >>=-eq_ok (ok_or (x.seal key nonce plaintext) encryption_failed) _ (rw good at h) in
            let seals : x.seal key nonce plaintext ≡ some ciphertext = ok_or-eq_ok _ _ sealed in
            let made : EncryptedPayload = record {
              algorithm = codes "aes-256-gcm";
              nonce = nonce;
              ciphertext = ciphertext;
            } in
            let e : made ≡ payload = cc in
            subst (λ p. decrypt_payload x key p ≡ ok plaintext) (e)
              (unfold decrypt_payload in
                rw (good, twelve, sound.unseals key nonce plaintext ciphertext seals) refl)
      ]
