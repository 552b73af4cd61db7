-- ===== src/Chat/Message.antt =====
-- The messages of the chat, apps/void-chat/src/lib.rs, and what of each is signed.
use voidnet.Base.{ℕ, List, Text, Option, Result, codes}
use voidnet.Identity.{Bytes}
use voidnet.Chat.Rooms.{RoomMember, ChatRoomEvent}

abbrev pub chat_protocol_version : Text
chat_protocol_version = codes "voidchat/0.1.0"

pub data ChatMessageType : Type 0 where
  direct_text room_text : ChatMessageType

pub data RoomMembershipAction : Type 0 where
  join leave : RoomMembershipAction

pub record EncryptedPayload : Type 0 where
  pub algorithm : Text
  pub nonce : Bytes
  pub ciphertext : Bytes

pub record ChatTextPayload : Type 0 where
  pub room : Option Text
  pub body : Text

pub record SessionOffer : Type 0 where
  pub protocol_version : Text
  pub session_id : Text
  pub sender_peer_id : Text
  pub recipient_peer_id : Text
  pub sender_public_key : Text
  pub ephemeral_public_key : Text
  pub timestamp_unix_ms : ℕ
  pub nonce : Text
  pub signature : Text

pub record SessionAck : Type 0 where
  pub protocol_version : Text
  pub session_id : Text
  pub sender_peer_id : Text
  pub recipient_peer_id : Text
  pub sender_public_key : Text
  pub ephemeral_public_key : Text
  pub timestamp_unix_ms : ℕ
  pub nonce : Text
  pub signature : Text

pub record SignedEncryptedEnvelope : Type 0 where
  pub protocol_version : Text
  pub sender_peer_id : Text
  pub recipient_peer_id : Text
  pub sender_public_key : Text
  pub session_id : Text
  pub timestamp_unix_ms : ℕ
  pub nonce : Text
  pub message_type : ChatMessageType
  pub encrypted_payload : Text
  pub signature : Text

pub record RoomMembershipEvent : Type 0 where
  pub protocol_version : Text
  pub room : Text
  pub peer_id : Text
  pub sender_public_key : Text
  pub action : RoomMembershipAction
  pub timestamp_unix_ms : ℕ
  pub nonce : Text
  pub signature : Text

pub record RoomStateSnapshot : Type 0 where
  pub protocol_version : Text
  pub room : Text
  pub peer_id : Text
  pub sender_public_key : Text
  pub members : List RoomMember
  pub recent_events : List ChatRoomEvent
  pub timestamp_unix_ms : ℕ
  pub nonce : Text
  pub signature : Text

pub data ChatWireMessage : Type 0 where
  session_offer : SessionOffer → ChatWireMessage
  session_ack : SessionAck → ChatWireMessage
  direct_message : SignedEncryptedEnvelope → ChatWireMessage
  room_membership : RoomMembershipEvent → ChatWireMessage
  room_state_snapshot : RoomStateSnapshot → ChatWireMessage

pub record UnsignedSessionOffer : Type 0 where
  pub protocol_version : Text
  pub session_id : Text
  pub sender_peer_id : Text
  pub recipient_peer_id : Text
  pub sender_public_key : Text
  pub ephemeral_public_key : Text
  pub timestamp_unix_ms : ℕ
  pub nonce : Text

pub record UnsignedSessionAck : Type 0 where
  pub protocol_version : Text
  pub session_id : Text
  pub sender_peer_id : Text
  pub recipient_peer_id : Text
  pub sender_public_key : Text
  pub ephemeral_public_key : Text
  pub timestamp_unix_ms : ℕ
  pub nonce : Text

pub record UnsignedEncryptedEnvelope : Type 0 where
  pub protocol_version : Text
  pub sender_peer_id : Text
  pub recipient_peer_id : Text
  pub sender_public_key : Text
  pub session_id : Text
  pub timestamp_unix_ms : ℕ
  pub nonce : Text
  pub message_type : ChatMessageType
  pub encrypted_payload : Text

pub record UnsignedRoomMembershipEvent : Type 0 where
  pub protocol_version : Text
  pub room : Text
  pub peer_id : Text
  pub sender_public_key : Text
  pub action : RoomMembershipAction
  pub timestamp_unix_ms : ℕ
  pub nonce : Text

pub record UnsignedRoomStateSnapshot : Type 0 where
  pub protocol_version : Text
  pub room : Text
  pub peer_id : Text
  pub sender_public_key : Text
  pub members : List RoomMember
  pub recent_events : List ChatRoomEvent
  pub timestamp_unix_ms : ℕ
  pub nonce : Text

-- What serde_json provides for these types.
pub record ChatJson : Type 0 where
  pub offer_json : UnsignedSessionOffer → Result Text Bytes
  pub ack_json : UnsignedSessionAck → Result Text Bytes
  pub envelope_json : UnsignedEncryptedEnvelope → Result Text Bytes
  pub membership_json : UnsignedRoomMembershipEvent → Result Text Bytes
  pub snapshot_json : UnsignedRoomStateSnapshot → Result Text Bytes
  pub encrypted_json : EncryptedPayload → Result Text Bytes
  pub encrypted_from_json : Bytes → Result Text EncryptedPayload
  pub text_json : ChatTextPayload → Result Text Bytes
  pub text_from_json : Bytes → Result Text ChatTextPayload
