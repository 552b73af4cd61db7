-- ===== src/Identity.antt =====
-- The node's keys and signatures: `PersistentNodeIdentity` of core/identity/src/lib.rs.
pub mod Verify
pub mod Presence
pub mod Node
mod Tests
use voidnet.Base.{
  ℕ, ◌≡◌, Bool, true, List, Text, Result, ok, err, map_err, ◌>>=◌, if◌then◌else◌, text_eq,
  text_eq_refl, not, arith, codes, ◌++◌,
}

abbrev pub Bytes : Type 0
Bytes = List ℕ

-- What the crates base64 and libp2p provide, over the keys of libp2p.
pub record Crypto (Key : Type 0) : Type 0 where
  pub base64_encode : Bytes → Text
  pub base64_decode : Text → Result Text Bytes
  pub encode_protobuf : Key → Bytes
  pub try_decode_protobuf : Bytes → Result Text Key
  pub to_peer_id : Key → Text
  pub key_verify : Key → Bytes → Bytes → Bool

-- a loaded key pair: its public half, and `Keypair::sign`
pub record Keypair (Key : Type 0) : Type 0 where
  pub public : Key
  pub key_sign : Bytes → Result Text Bytes

-- What the crates document: encodings are read back, and a signature verifies under its own key.
pub record IsSound {Key : Type 0} (c : Crypto Key) (pair : Keypair Key) : Type 0 where
  pub base64_back : (b : Bytes) → c.base64_decode (c.base64_encode b) ≡ ok b
  pub protobuf_back : (k : Key) → c.try_decode_protobuf (c.encode_protobuf k) ≡ ok k
  pub verifies :
      (payload s : Bytes) → pair.key_sign payload ≡ ok s → c.key_verify pair.public payload s ≡ true

-- `IdentityError`; an error of another crate is its text
pub data IdentityError : Type 0 where
  base64 ed25519 io json network_identity : Text → IdentityError
  invalid_public_key_length invalid_secret_key_length invalid_signature_length : IdentityError
  peer_id_mismatch : Text → Text → IdentityError
  public_key_mismatch invalid_network_signature invalid_presence_signature : IdentityError

-- `to_string` of an error
unfoldable pub display : IdentityError → Text
display (base64 e) = codes "base64 identity data is invalid: " ++ e
display (ed25519 e) = codes "ed25519 identity error: " ++ e
display (io e) = codes "identity IO failed: " ++ e
display (json e) = codes "identity JSON failed: " ++ e
display (network_identity e) = codes "libp2p identity failed: " ++ e
display invalid_public_key_length = codes "public key has invalid length"
display invalid_secret_key_length = codes "secret key has invalid length"
display invalid_signature_length = codes "signature has invalid length"
display (peer_id_mismatch expected actual) =
    codes "peer id mismatch, expected " ++ (expected ++ codes ", got " ++ actual)
display public_key_mismatch = codes "stored public key does not match stored secret key"
display invalid_network_signature = codes "signed network payload did not verify"
display invalid_presence_signature = codes "signed peer presence did not verify"

module _ {Key : Type 0} (c : Crypto Key) where
  unfoldable pub peer_id_string : Keypair Key → Text
  peer_id_string pair = c.to_peer_id pair.public

  unfoldable pub public_key_protobuf_base64 : Keypair Key → Text
  public_key_protobuf_base64 pair = c.base64_encode (c.encode_protobuf pair.public)

  unfoldable pub sign_bytes : Keypair Key → Bytes → Result IdentityError Bytes
  sign_bytes pair payload = map_err network_identity (pair.key_sign payload)

  unfoldable pub verify_bytes : Text → Text → Bytes → Text → Result IdentityError (Unit {0})
  verify_bytes peer_id public_key payload signature = do
    public_key_bytes ← map_err base64 (c.base64_decode public_key)
    key ← map_err network_identity (c.try_decode_protobuf public_key_bytes)
    if not (text_eq (c.to_peer_id key) peer_id)
        then err (peer_id_mismatch (c.to_peer_id key) peer_id)
        else do
          signature_bytes ← map_err base64 (c.base64_decode signature)
          if not (c.key_verify key payload signature_bytes)
              then err invalid_network_signature
              else ok tt

  -- What a key pair signed verifies under its own peer id and public key, if signatures verify under
  -- their own key and encodings are read back.
  pub verify_bytes-sign_bytes :
      (pair : Keypair Key) (payload s : Bytes)
      → IsSound c pair
      → sign_bytes pair payload ≡ ok s
      → verify_bytes
          (peer_id_string pair)
          (public_key_protobuf_base64 pair)
          payload
          (c.base64_encode s)
        ≡ ok tt
  unfolding verify_bytes sign_bytes peer_id_string public_key_protobuf_base64
  verify_bytes-sign_bytes pair payload s sound h =
      rw (sound.base64_back, sound.protobuf_back, text_eq_refl, sound.base64_back)
        (ground (arith, sound.verifies payload s))
