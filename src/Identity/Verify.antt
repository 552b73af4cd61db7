-- ===== src/Identity/Verify.antt =====
-- What `verify_bytes` accepts.
use voidnet.Base.{
  ◌≡◌, ◌↔◌, refl, inl, inr, true, Text, ok, map_err, text_eq, text_eq_refl, Bool-cases, >>=-eq_ok,
  map_err-eq_ok, absurd_of_err, text_eq_sound,
}
use voidnet.Identity.{Bytes, Crypto, base64, network_identity, verify_bytes}

module _ {Key : Type 0} (c : Crypto Key) (peer_id public_key : Text) (payload : Bytes)
    (signature : Text) where
  -- The stated key has the stated peer id, and the signature of the payload verifies under it.
  abbrev pub IsGenuine : Type 0
  IsGenuine =
      (key_bytes : Bytes) × (key : Key) × (signature_bytes : Bytes) × (c.base64_decode public_key
        ≡ ok key_bytes)
      × (c.try_decode_protobuf key_bytes ≡ ok key)
      × (c.to_peer_id key ≡ peer_id)
      × (c.base64_decode signature ≡ ok signature_bytes)
      × (c.key_verify key payload signature_bytes ≡ true)

  accepts : IsGenuine → verify_bytes c peer_id public_key payload signature ≡ ok tt
  unfolding verify_bytes
  accepts (b, key, s, decoded, read, named, given, valid) =
      rw (decoded, read, named, text_eq_refl peer_id, given, valid) refl

  is_genuine : verify_bytes c peer_id public_key payload signature ≡ ok tt → IsGenuine
  unfolding verify_bytes
  is_genuine h =
      let (b, decoded, h₁) = >>=-eq_ok (map_err base64 (c.base64_decode public_key)) _ h in
      let (key, read, h₂) = >>=-eq_ok (map_err network_identity (c.try_decode_protobuf b)) _ h₁ in
      elim (Bool-cases (text_eq (c.to_peer_id key) peer_id)) [
        | inr other ↦ absurd_of_err (rw other at h₂)
        | inl named ↦
            let (s, given, h₃) =
              >>=-eq_ok (map_err base64 (c.base64_decode signature)) _ (rw named at h₂) in
            elim (Bool-cases (c.key_verify key payload s)) [
              | inr bad ↦ absurd_of_err (rw bad at h₃)
              | inl valid ↦ (
                b,
                key,
                s,
                map_err-eq_ok base64 _ decoded,
                map_err-eq_ok network_identity _ read,
                text_eq_sound _ _ named,
                map_err-eq_ok base64 _ given,
                valid,
              )
            ]
      ]

  -- A payload is accepted from a peer exactly when the stated key and signature can be read, the key
  -- has the stated peer id, and the signature of the payload verifies under that key.
  pub verify_bytes_iff : (verify_bytes c peer_id public_key payload signature ≡ ok tt) ↔ IsGenuine
  verify_bytes_iff = (is_genuine, accepts)
