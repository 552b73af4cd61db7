-- ===== src/Chat/Error.antt =====
-- The errors of the chat, apps/void-chat/src/lib.rs.
use voidnet.Base.{Text, codes, ◌++◌}
use voidnet.Identity.{IdentityError}
use voidnet.Identity

pub data ChatError : Type 0 where
  io json : Text → ChatError
  identity : IdentityError → ChatError
  invalid_key_length invalid_nonce_length invalid_base64_encoding invalid_x25519_public_key :
      ChatError
  encryption_failed decryption_failed replay_detected replay_window_expired : ChatError

-- `to_string` of an error
unfoldable pub display : ChatError → Text
unfolding Identity.display
display (io e) = codes "chat IO failed: " ++ e
display (json e) = codes "chat JSON failed: " ++ e
display (identity e) = codes "chat identity failed: " ++ Identity.display e
display invalid_key_length = codes "chat key length is invalid"
display invalid_nonce_length = codes "chat nonce length is invalid"
display invalid_base64_encoding = codes "chat base64 payload is invalid"
display invalid_x25519_public_key = codes "chat x25519 public key is invalid"
display encryption_failed = codes "chat encryption failed"
display decryption_failed = codes "chat decryption failed"
display replay_detected = codes "chat replay detected"
display replay_window_expired = codes "chat replay window expired"
