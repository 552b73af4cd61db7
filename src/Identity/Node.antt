-- ===== src/Identity/Node.antt =====
-- The ed25519 identity of core/identity/src/lib.rs: `NodeIdentity` and `IdentityStore`. A file is the
-- text that it holds, none where there is no file; a write may fail.
use voidnet.Base.{
  ℕ, ◌≡◌, refl, sym, ◌++◌, not, Option, none, some, Text, Result, ok, err, map_err, >>=-eq_ok,
  map_err-eq_ok, ◌>>=◌, if◌then◌else◌, text_eq, text_eq_refl, codes, length, ◌==◌,
}
use voidnet.Identity.{
  Bytes, IdentityError, base64, ed25519, json, peer_id_mismatch, invalid_public_key_length,
  invalid_secret_key_length, invalid_signature_length, public_key_mismatch,
}

pub record SignedPayload : Type 0 where
  pub peer_id : Text
  pub public_key : Text
  pub payload : Bytes
  pub signature : Text

pub record StoredIdentity : Type 0 where
  pub peer_id : Text
  pub public_key : Text
  pub secret_key : Text

-- What the crates ed25519_dalek, base64, blake3 and serde_json provide.
pub record Ed25519 (SigningKey VerifyingKey : Type 0) : Type 0 where
  pub base64_encode : Bytes → Text
  pub base64_decode : Text → Result Text Bytes
  pub blake3_hex : Bytes → Text
  pub verifying_key : SigningKey → VerifyingKey
  pub key_bytes : VerifyingKey → Bytes
  pub key_from_bytes : Bytes → Result Text VerifyingKey
  pub secret_bytes : SigningKey → Bytes
  pub secret_from_bytes : Bytes → SigningKey
  pub key_sign : SigningKey → Bytes → Bytes
  pub key_verify : VerifyingKey → Bytes → Bytes → Result Text (Unit {0})
  pub stored_json : StoredIdentity → Result Text Text
  pub stored_from_json : Text → Result Text StoredIdentity

-- What those crates document: encodings have their lengths and are read back, and a signature
-- verifies under its own key.
pub record IsFaithful {SigningKey VerifyingKey : Type 0} (x : Ed25519 SigningKey VerifyingKey)
    : Type 0 where
  pub base64_back : (b : Bytes) → x.base64_decode (x.base64_encode b) ≡ ok b
  pub key_back : (k : VerifyingKey) → x.key_from_bytes (x.key_bytes k) ≡ ok k
  pub key_length : (k : VerifyingKey) → length (x.key_bytes k) ≡ 32
  pub secret_back : (k : SigningKey) → x.secret_from_bytes (x.secret_bytes k) ≡ k
  pub secret_length : (k : SigningKey) → length (x.secret_bytes k) ≡ 32
  pub sign_length : (k : SigningKey) (payload : Bytes) → length (x.key_sign k payload) ≡ 64
  pub verifies :
      (k : SigningKey) (payload : Bytes)
      → x.key_verify (x.verifying_key k) payload (x.key_sign k payload) ≡ ok tt
  pub stored_back :
      (s : StoredIdentity) (raw : Text) → x.stored_json s ≡ ok raw → x.stored_from_json raw ≡ ok s

pub record NodeIdentity (SigningKey VerifyingKey : Type 0) : Type 0 where
  pub signing_key : SigningKey
  pub verifying_key : VerifyingKey
  pub peer_id : Text

-- `try_into` an array of `n` bytes
abbrev pub try_into : ℕ → IdentityError → Bytes → Result IdentityError Bytes
try_into n e b = if length b == n then ok b else err e

module _ {SigningKey VerifyingKey : Type 0} (x : Ed25519 SigningKey VerifyingKey) where
  -- `VoidPeerId::from_public_key`
  unfoldable pub from_public_key : VerifyingKey → Text
  from_public_key k = codes "vpid1" ++ x.blake3_hex (x.key_bytes k)

  unfoldable pub from_signing_key : SigningKey → NodeIdentity SigningKey VerifyingKey
  from_signing_key k = record {
    signing_key = k;
    verifying_key = x.verifying_key k;
    peer_id = from_public_key (x.verifying_key k);
  }

  unfoldable pub public_key_base64 : NodeIdentity SigningKey VerifyingKey → Text
  public_key_base64 n = x.base64_encode (x.key_bytes n.verifying_key)

  unfoldable pub sign : NodeIdentity SigningKey VerifyingKey → Bytes → SignedPayload
  sign n payload = record {
    peer_id = n.peer_id;
    public_key = public_key_base64 n;
    payload = payload;
    signature = x.base64_encode (x.key_sign n.signing_key payload);
  }

  unfoldable pub verify : SignedPayload → Result IdentityError (Unit {0})
  verify signed = do
    public_key ← map_err base64 (x.base64_decode signed.public_key)
    public_key_bytes ← try_into 32 invalid_public_key_length public_key
    signature ← map_err base64 (x.base64_decode signed.signature)
    signature_bytes ← try_into 64 invalid_signature_length signature
    verifying_key ← map_err ed25519 (x.key_from_bytes public_key_bytes)
    if not (text_eq (from_public_key verifying_key) signed.peer_id)
        then err (peer_id_mismatch (from_public_key verifying_key) signed.peer_id)
        else map_err ed25519 (x.key_verify verifying_key signed.payload signature_bytes)

  -- `IdentityStore::load`, of what the file holds
  unfoldable pub load : Text → Result IdentityError (NodeIdentity SigningKey VerifyingKey)
  load raw = do
    stored ← map_err json (x.stored_from_json raw)
    secret_key ← map_err base64 (x.base64_decode stored.secret_key)
    secret_key_bytes ← try_into 32 invalid_secret_key_length secret_key
    let n = from_signing_key (x.secret_from_bytes secret_key_bytes)
    if not (text_eq n.peer_id stored.peer_id)
        then err (peer_id_mismatch n.peer_id stored.peer_id)
        else if not (text_eq (public_key_base64 n) stored.public_key)
        then err public_key_mismatch
        else ok n

  abbrev pub stored_identity : NodeIdentity SigningKey VerifyingKey → StoredIdentity
  stored_identity n = record {
    peer_id = n.peer_id;
    public_key = public_key_base64 n;
    secret_key = x.base64_encode (x.secret_bytes n.signing_key);
  }

  -- `IdentityStore::save`, with what the file then holds
  unfoldable pub save :
      (write : Text → Result IdentityError (Unit {0}))
      → NodeIdentity SigningKey VerifyingKey
      → Result IdentityError Text
  save write n = do raw ← map_err json (x.stored_json (stored_identity n)); _ ← write raw; ok raw

  -- `generated` is the key that the source draws where there is no file
  unfoldable pub load_or_create :
      (write : Text → Result IdentityError (Unit {0}))
      → (generated : SigningKey) → (file : Option Text)
      → Result IdentityError (NodeIdentity SigningKey VerifyingKey × Text)
  load_or_create write generated (some raw) = do n ← load raw; ok (n, raw)
  load_or_create write generated none = do
    raw ← save write (from_signing_key generated)
    ok (from_signing_key generated, raw)

  -- What an identity signs verifies, if encodings have their lengths and are read back, and a
  -- signature verifies under its own key.
  pub verify-sign :
      (k : SigningKey) (payload : Bytes)
      → IsFaithful x
      → verify (sign (from_signing_key k) payload) ≡ ok tt
  unfolding verify sign from_signing_key public_key_base64
  verify-sign k payload f =
      rw
        (
          f.base64_back (x.key_bytes (x.verifying_key k)),
          f.key_length,
          f.base64_back (x.key_sign k payload),
          f.sign_length,
          f.key_back,
          text_eq_refl,
          f.verifies,
        )
        refl

  load-stored :
      (k : SigningKey) (raw : Text)
      → IsFaithful x
      → x.stored_json (stored_identity (from_signing_key k)) ≡ ok raw
      → load raw ≡ ok (from_signing_key k)
  unfolding load
  load-stored k raw f h =
      rw
        (
          f.stored_back (stored_identity (from_signing_key k)) raw h,
          f.base64_back (x.secret_bytes (from_signing_key k).signing_key),
        )
        (unfold from_signing_key in
          rw (f.secret_length k, f.secret_back k, text_eq_refl, text_eq_refl) refl)

  -- A node that creates its identity finds the same one at its next start, whatever key it would draw
  -- then, if encodings are read back.
  pub load_or_create_again :
      (write write' : Text → Result IdentityError (Unit {0}))
      → (generated other : SigningKey) (n : NodeIdentity SigningKey VerifyingKey) (raw : Text)
      → IsFaithful x
      → load_or_create write generated none ≡ ok (n, raw)
      → load_or_create write' other (some raw) ≡ ok (n, raw)
  unfolding load_or_create save
  load_or_create_again write write' generated other n raw f h =
      let (raw₁, saved, same) = >>=-eq_ok (save write (from_signing_key generated)) _ h in
      let (raw₂, stored, saved₂) =
        >>=-eq_ok (map_err json (x.stored_json (stored_identity (from_signing_key generated)))) _
          saved in
      let (_, _, same₂) = >>=-eq_ok (write raw₂) _ saved₂ in
      let loaded = load-stored generated raw₂ f (map_err-eq_ok json _ stored) in
      let e₁ : raw₂ ≡ raw = cc in
      let e₂ : from_signing_key generated ≡ n = cc in rw (sym e₁, loaded) cc
