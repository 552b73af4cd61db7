-- ===== src/Identity/Tests.antt =====
-- Instances of the theorems on identities.
use voidnet.Base.{
  ℕ, zero, suc, ◌≡◌, ◌↔◌, refl, [], ◌∷◌, ◌++◌, ◌&&◌, none, some, Text, Result, ok, err, codes,
  text_eq, text_eq_refl, text_eq_iff, arith, decimal, digits, utf8, utf8_char, if◌then◌else◌,
}
use voidnet.Identity.{Bytes, Crypto, Keypair, IsSound, IdentityError, peer_id_string, verify_bytes}
use voidnet.Identity.Node.{
  StoredIdentity, Ed25519, IsFaithful, load_or_create, save, from_signing_key, from_public_key,
  public_key_base64, load_or_create_again,
}
use voidnet.Identity.Verify.{IsGenuine, verify_bytes_iff}
use voidnet.Identity.Presence.{
  SignedPeerPresence, presence, presence_payload, sign_presence, verify_presence,
  verify_presence-sign_presence,
}

-- Keys are texts that serve as their own encoding, and a signature is the key before the payload.
abbrev plain_crypto : Crypto Text
plain_crypto = record {
  base64_encode = λ b. b;
  base64_decode = λ t. ok t;
  encode_protobuf = λ k. k;
  try_decode_protobuf = λ b. ok b;
  to_peer_id = λ k. k;
  key_verify = λ k payload s. text_eq s (k ++ payload);
}

abbrev alice : Keypair Text
alice = record { public = codes "alice"; key_sign = λ payload. ok (codes "alice" ++ payload) }

alice-IsSound : IsSound plain_crypto alice
alice-IsSound = record {
  base64_back = λ b. refl;
  protobuf_back = λ k. refl;
  verifies = λ payload s h. ground (arith, text_eq_refl s);
}

verify_bytes_iff_example :
    (verify_bytes plain_crypto (codes "alice") (codes "alice") (codes "hi") (codes "alicehi")
      ≡ ok tt)
    ↔ IsGenuine plain_crypto (codes "alice") (codes "alice") (codes "hi") (codes "alicehi")
verify_bytes_iff_example =
    verify_bytes_iff plain_crypto (codes "alice") (codes "alice") (codes "hi") (codes "alicehi")

abbrev issued : SignedPeerPresence
issued =
    presence plain_crypto alice (codes "agent") 7 (codes "h")
      (codes "alicevoidnet/presence/v1:alice:agent:7:h")

issued-signed : sign_presence plain_crypto (λ b. codes "h") alice (codes "agent") 7 ≡ ok issued
unfolding sign_presence presence_payload decimal digits utf8 utf8_char peer_id_string
issued-signed = refl

verify_presence-sign_presence_example :
    (verify_presence plain_crypto issued ≡ ok tt)
    × (issued.peer_id ≡ peer_id_string plain_crypto alice)
    × (issued.agent ≡ codes "agent")
    × (issued.issued_unix_ms ≡ 7)
verify_presence-sign_presence_example =
    verify_presence-sign_presence plain_crypto (λ b. codes "h") alice (codes "agent") 7 issued
      alice-IsSound issued-signed

-- Keys are numbers in the first of 32 bytes, a signature is 64 zeros, and a file holds the secret key.
abbrev zeros : ℕ → Bytes
zeros zero = []
zeros (suc n) = 0 ∷ zeros n

abbrev first_of : Bytes → ℕ
first_of [] = 0
first_of (b ∷ rest) = b

abbrev write_stored : StoredIdentity → Result Text Text
write_stored s =
    if text_eq s.peer_id (codes "vpid1h") && text_eq s.public_key s.secret_key
    then ok s.secret_key
    else err []

abbrev read_stored : Text → Result Text StoredIdentity
read_stored raw = ok record { peer_id = codes "vpid1h"; public_key = raw; secret_key = raw }

abbrev numbers : Ed25519 ℕ ℕ
numbers = record {
  base64_encode = λ b. b;
  base64_decode = λ t. ok t;
  blake3_hex = λ b. codes "h";
  verifying_key = λ k. k;
  key_bytes = λ k. k ∷ zeros 31;
  key_from_bytes = λ b. ok (first_of b);
  secret_bytes = λ k. k ∷ zeros 31;
  secret_from_bytes = first_of;
  key_sign = λ k payload. zeros 64;
  key_verify = λ k payload s. ok tt;
  stored_json = write_stored;
  stored_from_json = read_stored;
}

numbers-IsFaithful : IsFaithful numbers
numbers-IsFaithful = record {
  base64_back = λ b. refl;
  key_back = λ k. refl;
  key_length = λ k. refl;
  secret_back = λ k. refl;
  secret_length = λ k. refl;
  sign_length = λ k payload. refl;
  verifies = λ k payload. refl;
  stored_back = λ s raw h.
      ground (arith, text_eq_iff s.peer_id (codes "vpid1h"), text_eq_iff s.public_key s.secret_key);
}

-- A write that succeeds, and one that fails.
abbrev writes : Text → Result IdentityError (Unit {0})
writes raw = ok tt

abbrev fails : Text → Result IdentityError (Unit {0})
fails raw = err IdentityError.invalid_public_key_length

created : load_or_create numbers writes 7 none ≡ ok (from_signing_key numbers 7, 7 ∷ zeros 31)
unfolding load_or_create save from_signing_key from_public_key public_key_base64 text_eq
created = refl

load_or_create_again_example :
    load_or_create numbers fails 8 (some (7 ∷ zeros 31))
    ≡ ok (from_signing_key numbers 7, 7 ∷ zeros 31)
load_or_create_again_example =
    load_or_create_again numbers writes fails 7 8 (from_signing_key numbers 7) (7 ∷ zeros 31)
      numbers-IsFaithful created
