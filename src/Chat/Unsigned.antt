-- ===== src/Chat/Unsigned.antt =====
-- What of a message is signed: the records that `verify` rebuilds, apps/void-chat/src/lib.rs.
use voidnet.Chat.Message.{
  SessionOffer, SessionAck, SignedEncryptedEnvelope, RoomMembershipEvent, RoomStateSnapshot,
  UnsignedSessionOffer, UnsignedSessionAck, UnsignedEncryptedEnvelope, UnsignedRoomMembershipEvent,
  UnsignedRoomStateSnapshot,
}

unfoldable pub unsigned_offer : SessionOffer → UnsignedSessionOffer
unsigned_offer m = record {
  protocol_version = m.protocol_version;
  session_id = m.session_id;
  sender_peer_id = m.sender_peer_id;
  recipient_peer_id = m.recipient_peer_id;
  sender_public_key = m.sender_public_key;
  ephemeral_public_key = m.ephemeral_public_key;
  timestamp_unix_ms = m.timestamp_unix_ms;
  nonce = m.nonce;
}

unfoldable pub unsigned_ack : SessionAck → UnsignedSessionAck
unsigned_ack m = record {
  protocol_version = m.protocol_version;
  session_id = m.session_id;
  sender_peer_id = m.sender_peer_id;
  recipient_peer_id = m.recipient_peer_id;
  sender_public_key = m.sender_public_key;
  ephemeral_public_key = m.ephemeral_public_key;
  timestamp_unix_ms = m.timestamp_unix_ms;
  nonce = m.nonce;
}

unfoldable pub unsigned_envelope : SignedEncryptedEnvelope → UnsignedEncryptedEnvelope
unsigned_envelope m = record {
  protocol_version = m.protocol_version;
  sender_peer_id = m.sender_peer_id;
  recipient_peer_id = m.recipient_peer_id;
  sender_public_key = m.sender_public_key;
  session_id = m.session_id;
  timestamp_unix_ms = m.timestamp_unix_ms;
  nonce = m.nonce;
  message_type = m.message_type;
  encrypted_payload = m.encrypted_payload;
}

unfoldable pub unsigned_membership : RoomMembershipEvent → UnsignedRoomMembershipEvent
unsigned_membership m = record {
  protocol_version = m.protocol_version;
  room = m.room;
  peer_id = m.peer_id;
  sender_public_key = m.sender_public_key;
  action = m.action;
  timestamp_unix_ms = m.timestamp_unix_ms;
  nonce = m.nonce;
}

unfoldable pub unsigned_snapshot : RoomStateSnapshot → UnsignedRoomStateSnapshot
unsigned_snapshot m = record {
  protocol_version = m.protocol_version;
  room = m.room;
  peer_id = m.peer_id;
  sender_public_key = m.sender_public_key;
  members = m.members;
  recent_events = m.recent_events;
  timestamp_unix_ms = m.timestamp_unix_ms;
  nonce = m.nonce;
}
