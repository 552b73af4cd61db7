-- ===== src/Chat/Cipher.antt =====
-- Keys and encryption of the chat, apps/void-chat/src/lib.rs. What the source draws at random is an
-- argument.
pub mod Session
use voidnet.Base.{
  ℕ, ◌≡◌, ◌++◌, Option, none, some, Text, Result, ok, err, ok_or, map_err, ◌>>=◌, if◌then◌else◌,
  length, ◌==◌, codes, utf8, not,
}
use voidnet.Identity.{Bytes, Crypto}
use voidnet.Chat.Error.{
  ChatError, invalid_key_length, invalid_nonce_length, invalid_base64_encoding,
  invalid_x25519_public_key, encryption_failed, decryption_failed,
}
use voidnet.Chat.Message.{EncryptedPayload, ChatJson}

-- What the crates x25519_dalek, blake3 and aes_gcm provide.
pub record Ciphers (Secret Public : Type 0) : Type 0 where
  pub public_of : Secret → Public
  pub diffie_hellman : Secret → Public → Bytes
  pub to_bytes : Public → Bytes
  pub from_bytes : Bytes → Public
  pub blake3 : Bytes → Bytes
  pub seal : (key nonce plaintext : Bytes) → Option Bytes
  pub unseal : (key nonce ciphertext : Bytes) → Option Bytes

-- What those crates document: both sides of an exchange of keys get the same secret, keys and hashes
-- have 32 bytes, and what is sealed can be unsealed under the same key and nonce.
pub record IsSoundCipher {Secret Public : Type 0} (x : Ciphers Secret Public) : Type 0 where
  pub agree :
      (a b : Secret) → x.diffie_hellman a (x.public_of b) ≡ x.diffie_hellman b (x.public_of a)
  pub from_back : (p : Public) → x.from_bytes (x.to_bytes p) ≡ p
  pub to_length : (p : Public) → length (x.to_bytes p) ≡ 32
  pub hash_length : (b : Bytes) → length (x.blake3 b) ≡ 32
  pub unseals :
      (key nonce plaintext ciphertext : Bytes)
      → x.seal key nonce plaintext ≡ some ciphertext
      → x.unseal key nonce ciphertext ≡ some plaintext

module _ {Secret Public : Type 0} (x : Ciphers Secret Public) where
  unfoldable pub derive_session_key : Secret → Public → Text → Bytes
  derive_session_key secret remote_public_key session_id =
      x.blake3 (x.diffie_hellman secret remote_public_key ++ utf8 session_id)

  -- `Aes256Gcm::new_from_slice` takes a key of 32 bytes
  unfoldable pub encrypt_payload : (nonce key plaintext : Bytes) → Result ChatError EncryptedPayload
  encrypt_payload nonce key plaintext =
      if not (length key == 32) then err invalid_key_length else do
        ciphertext ← ok_or (x.seal key nonce plaintext) encryption_failed
        ok record { algorithm = codes "aes-256-gcm"; nonce = nonce; ciphertext = ciphertext }

  unfoldable pub decrypt_payload : Bytes → EncryptedPayload → Result ChatError Bytes
  decrypt_payload key payload =
      if not (length key == 32)
      then err invalid_key_length
      else if not (length payload.nonce == 12)
      then err invalid_nonce_length
      else ok_or (x.unseal key payload.nonce payload.ciphertext) decryption_failed

  unfoldable pub decode_x25519_public_key :
      {Key : Type 0} → Crypto Key → Text → Result ChatError Public
  decode_x25519_public_key c value = do
    bytes ← map_err (λ (e : Text). invalid_base64_encoding) (c.base64_decode value)
    if length bytes == 32 then ok (x.from_bytes bytes) else err invalid_x25519_public_key

unfoldable pub serialize_payload : ChatJson → EncryptedPayload → Result ChatError Bytes
serialize_payload j payload = map_err ChatError.json (j.encrypted_json payload)

unfoldable pub deserialize_payload : ChatJson → Bytes → Result ChatError EncryptedPayload
deserialize_payload j bytes = map_err ChatError.json (j.encrypted_from_json bytes)
