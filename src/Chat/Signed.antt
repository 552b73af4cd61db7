-- ===== src/Chat/Signed.antt =====
-- How the messages of the chat are made and verified, apps/void-chat/src/lib.rs. The time of a message
-- and the bytes that the source draws at random are arguments.
pub mod Made
pub mod Fields
use voidnet.Base.{ℕ, List, [], ◌∷◌, ◌++◌, Text, Result, ok, err, map_err, ◌>>=◌, length, keep_last}
use voidnet.Identity.{
  Bytes, Crypto, Keypair, peer_id_string, public_key_protobuf_base64, sign_bytes, verify_bytes,
}
use voidnet.Chat.Error.{ChatError}
use voidnet.Chat.Rooms.{ChatRoomEvent, ChatRoomSnapshot}
use voidnet.Chat.Message.{
  chat_protocol_version, ChatMessageType, RoomMembershipAction, SessionOffer, SessionAck,
  SignedEncryptedEnvelope, RoomMembershipEvent, RoomStateSnapshot, ChatWireMessage, session_offer,
  session_ack, direct_message, room_membership, room_state_snapshot, UnsignedSessionOffer,
  UnsignedSessionAck, UnsignedEncryptedEnvelope, UnsignedRoomMembershipEvent,
  UnsignedRoomStateSnapshot, ChatJson,
}
use voidnet.Chat.Unsigned.{
  unsigned_offer, unsigned_ack, unsigned_envelope, unsigned_membership, unsigned_snapshot,
}

-- `iter().rev()`
unfoldable pub reverse : {A : Type 0} → List A → List A
reverse [] = []
reverse (x ∷ xs) = reverse xs ++ x ∷ []

module _ {Key : Type 0} (c : Crypto Key) where
  -- `random_token`, of the bytes that are drawn
  unfoldable pub random_token : Bytes → Text
  random_token bytes = c.base64_encode bytes

  -- the signature of what is serialized
  unfoldable pub sign_json : Keypair Key → Result Text Bytes → Result ChatError Text
  sign_json pair json = do
    payload ← map_err ChatError.json json
    signature ← map_err ChatError.identity (sign_bytes c pair payload)
    ok (c.base64_encode signature)

  -- the check of a signature of what is serialized
  unfoldable pub verify_json : Text → Text → Result Text Bytes → Text → Result ChatError (Unit {0})
  verify_json peer_id public_key json signature = do
    payload ← map_err ChatError.json json
    map_err ChatError.identity (verify_bytes c peer_id public_key payload signature)

module _ {Key : Type 0} (c : Crypto Key) (j : ChatJson) where
  unfoldable pub new_offer :
      Keypair Key
      → Text
      → Bytes
      → (now : ℕ) (session_bytes nonce_bytes : Bytes) → Result ChatError SessionOffer
  unfolding random_token
  new_offer pair recipient_peer_id ephemeral_public_key now session_bytes nonce_bytes =
      let unsigned : UnsignedSessionOffer = record {
        protocol_version = chat_protocol_version;
        session_id = random_token c session_bytes;
        sender_peer_id = peer_id_string c pair;
        recipient_peer_id = recipient_peer_id;
        sender_public_key = public_key_protobuf_base64 c pair;
        ephemeral_public_key = c.base64_encode ephemeral_public_key;
        timestamp_unix_ms = now;
        nonce = random_token c nonce_bytes;
      } in
      do
        signature ← sign_json c pair (j.offer_json unsigned)
        ok record {
          protocol_version = unsigned.protocol_version;
          session_id = unsigned.session_id;
          sender_peer_id = unsigned.sender_peer_id;
          recipient_peer_id = unsigned.recipient_peer_id;
          sender_public_key = unsigned.sender_public_key;
          ephemeral_public_key = unsigned.ephemeral_public_key;
          timestamp_unix_ms = unsigned.timestamp_unix_ms;
          nonce = unsigned.nonce;
          signature = signature;
        }

  unfoldable pub verify_offer : SessionOffer → Result ChatError (Unit {0})
  verify_offer m =
      verify_json c m.sender_peer_id m.sender_public_key (j.offer_json (unsigned_offer m))
        m.signature

  unfoldable pub new_ack :
      Keypair Key
      → Text
      → Text
      → Bytes
      → (now : ℕ) (nonce_bytes : Bytes) → Result ChatError SessionAck
  unfolding random_token
  new_ack pair recipient_peer_id session_id ephemeral_public_key now nonce_bytes =
      let unsigned : UnsignedSessionAck = record {
        protocol_version = chat_protocol_version;
        session_id = session_id;
        sender_peer_id = peer_id_string c pair;
        recipient_peer_id = recipient_peer_id;
        sender_public_key = public_key_protobuf_base64 c pair;
        ephemeral_public_key = c.base64_encode ephemeral_public_key;
        timestamp_unix_ms = now;
        nonce = random_token c nonce_bytes;
      } in
      do
        signature ← sign_json c pair (j.ack_json unsigned)
        ok record {
          protocol_version = unsigned.protocol_version;
          session_id = unsigned.session_id;
          sender_peer_id = unsigned.sender_peer_id;
          recipient_peer_id = unsigned.recipient_peer_id;
          sender_public_key = unsigned.sender_public_key;
          ephemeral_public_key = unsigned.ephemeral_public_key;
          timestamp_unix_ms = unsigned.timestamp_unix_ms;
          nonce = unsigned.nonce;
          signature = signature;
        }

  unfoldable pub verify_ack : SessionAck → Result ChatError (Unit {0})
  verify_ack m =
      verify_json c m.sender_peer_id m.sender_public_key (j.ack_json (unsigned_ack m)) m.signature

  unfoldable pub new_envelope :
      Keypair Key
      → Text
      → Text
      → ChatMessageType
      → Bytes
      → (now : ℕ) (nonce_bytes : Bytes) → Result ChatError SignedEncryptedEnvelope
  unfolding random_token
  new_envelope pair recipient_peer_id session_id message_type payload now nonce_bytes =
      let encrypted_payload = c.base64_encode payload in
      let unsigned : UnsignedEncryptedEnvelope = record {
        protocol_version = chat_protocol_version;
        sender_peer_id = peer_id_string c pair;
        recipient_peer_id = recipient_peer_id;
        sender_public_key = public_key_protobuf_base64 c pair;
        session_id = session_id;
        timestamp_unix_ms = now;
        nonce = random_token c nonce_bytes;
        message_type = message_type;
        encrypted_payload = encrypted_payload;
      } in
      do
        signature ← sign_json c pair (j.envelope_json unsigned)
        ok record {
          protocol_version = unsigned.protocol_version;
          sender_peer_id = unsigned.sender_peer_id;
          recipient_peer_id = unsigned.recipient_peer_id;
          sender_public_key = unsigned.sender_public_key;
          session_id = unsigned.session_id;
          timestamp_unix_ms = unsigned.timestamp_unix_ms;
          nonce = unsigned.nonce;
          message_type = message_type;
          encrypted_payload = encrypted_payload;
          signature = signature;
        }

  unfoldable pub verify_envelope : SignedEncryptedEnvelope → Result ChatError (Unit {0})
  verify_envelope m =
      verify_json c m.sender_peer_id m.sender_public_key (j.envelope_json (unsigned_envelope m))
        m.signature

  unfoldable pub payload_bytes : SignedEncryptedEnvelope → Result ChatError Bytes
  payload_bytes m =
      map_err (λ (e : Text). ChatError.invalid_base64_encoding)
        (c.base64_decode m.encrypted_payload)

  unfoldable pub new_membership :
      Keypair Key
      → Text
      → RoomMembershipAction
      → (now : ℕ) (nonce_bytes : Bytes) → Result ChatError RoomMembershipEvent
  unfolding random_token
  new_membership pair room action now nonce_bytes =
      let unsigned : UnsignedRoomMembershipEvent = record {
        protocol_version = chat_protocol_version;
        room = room;
        peer_id = peer_id_string c pair;
        sender_public_key = public_key_protobuf_base64 c pair;
        action = action;
        timestamp_unix_ms = now;
        nonce = random_token c nonce_bytes;
      } in
      do
        signature ← sign_json c pair (j.membership_json unsigned)
        ok record {
          protocol_version = unsigned.protocol_version;
          room = unsigned.room;
          peer_id = unsigned.peer_id;
          sender_public_key = unsigned.sender_public_key;
          action = action;
          timestamp_unix_ms = unsigned.timestamp_unix_ms;
          nonce = unsigned.nonce;
          signature = signature;
        }

  unfoldable pub verify_membership : RoomMembershipEvent → Result ChatError (Unit {0})
  verify_membership m =
      verify_json c m.peer_id m.sender_public_key (j.membership_json (unsigned_membership m))
        m.signature

  -- `recent_events` are the last twelve, the latest first
  unfoldable pub new_snapshot :
      Keypair Key
      → ChatRoomSnapshot
      → (now : ℕ) (nonce_bytes : Bytes) → Result ChatError RoomStateSnapshot
  unfolding random_token reverse
  new_snapshot pair room now nonce_bytes =
      let unsigned : UnsignedRoomStateSnapshot = record {
        protocol_version = chat_protocol_version;
        room = room.room;
        peer_id = peer_id_string c pair;
        sender_public_key = public_key_protobuf_base64 c pair;
        members = room.members;
        recent_events = reverse (keep_last 12 room.event_history);
        timestamp_unix_ms = now;
        nonce = random_token c nonce_bytes;
      } in
      do
        signature ← sign_json c pair (j.snapshot_json unsigned)
        ok record {
          protocol_version = unsigned.protocol_version;
          room = unsigned.room;
          peer_id = unsigned.peer_id;
          sender_public_key = unsigned.sender_public_key;
          members = unsigned.members;
          recent_events = unsigned.recent_events;
          timestamp_unix_ms = unsigned.timestamp_unix_ms;
          nonce = unsigned.nonce;
          signature = signature;
        }

  unfoldable pub verify_snapshot : RoomStateSnapshot → Result ChatError (Unit {0})
  verify_snapshot m =
      verify_json c m.peer_id m.sender_public_key (j.snapshot_json (unsigned_snapshot m))
        m.signature
