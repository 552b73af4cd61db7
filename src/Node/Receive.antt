-- ===== src/Node/Receive.antt =====
-- The handlers of messages that reach the node, core/transport/src/node.rs.
use voidnet.Base.{
  ℕ, ◌+◌, Bool, true, false, Option, none, some, [], ◌∷◌, ◌++◌, Text, text_eq, not, Result, ok, err,
  codes, if◌then◌else◌, length, ◌==◌, map,
}
use voidnet.Base.Map
use voidnet.Base.Map.{or_default}
use voidnet.Identity.{Bytes, Crypto}
use voidnet.Chat.Error.{ChatError, display}
use voidnet.Chat.Message.{ChatTextPayload, SignedEncryptedEnvelope, ChatJson}
use voidnet.Chat.Signed.{verify_envelope, payload_bytes, random_token}
use voidnet.Chat.Cipher.{Ciphers, decrypt_payload, deserialize_payload}
use voidnet.Chat.Rooms.{upsert_room_member, record_room_event}
use voidnet.Chat.Inbox.{ChatInboxEntry, unread_count, push_notification}
use voidnet.Transport.Topology.Sessions.{observe_session_activity, observe_session_failure}
use voidnet.Node.State.{
  ActiveChatSession, Draw, Step, ◌>>=◌, pure, read, change_chat, change_topology, emit, fresh, lift,
  lift_json,
}
use voidnet.Node.Event.{
  payload_verified, encrypted_message_delivered, message_received, inbox_synchronized,
  notification_raised, TransportEvent,
}
use voidnet.Node.Session.{admit, size_of}

-- `random_file_token`: a token with `/` and `+` replaced
abbrev pub file_char : ℕ → ℕ
file_char ch = if ch == b'/' then b'_' else if ch == b'+' then b'-' else ch

abbrev pub message_notice : Text → Option Text → Text
message_notice peer_id none = codes "new direct message from " ++ peer_id
message_notice peer_id (some room) =
    codes "new message in " ++ (room ++ (codes " from " ++ peer_id))

module _ {Key : Type 0} (c : Crypto Key) where
  unfoldable pub random_file_token : Bytes → Text
  unfolding random_token
  random_file_token bytes = map file_char (random_token c bytes)

module _ {Secret : Type 0} where
  abbrev pub when_good : Bool → Step Secret (Unit {0}) → Step Secret (Unit {0})
  when_good true m = m
  when_good false m = pure tt

  -- the entry that a message makes in the inbox
  abbrev pub entry_of : Draw Secret → SignedEncryptedEnvelope → ChatTextPayload → ChatInboxEntry
  entry_of d envelope payload = record {
    message_id = envelope.nonce;
    from_peer_id = envelope.sender_peer_id;
    room = payload.room;
    body = payload.body;
    received_at_unix_ms = d.clock 4;
    session_id = envelope.session_id;
    signature_verified = true;
    unread = true;
    room_name = payload.room;
  }

module _ {Secret Key : Type 0} (c : Crypto Key) where
  -- `push_notification` on the node's notifications, with the number that is unread
  unfoldable pub notify :
      Draw Secret → (kind : Text) (room peer_id : Option Text) (message : Text) → Step Secret ℕ
  notify d kind room peer_id message = do
    s ← read
    let pushed =
        push_notification (random_file_token c (d.random 5)) (d.clock 5) kind room peer_id message
          s.chat.notifications
    _ ← change_chat (λ chat. record chat { notifications = pushed.1 })
    pure pushed.0

  -- `record_room_event` on the node's rooms
  unfoldable pub log_room_event :
      Draw Secret → (room event_type peer_id : Text) (body : Option Text) → Step Secret (Unit {0})
  log_room_event d room event_type peer_id body = change_chat (λ chat. record chat {
    rooms =
        record_room_event (d.clock 6) (d.clock 7) (random_file_token c (d.random 6)) room event_type
          peer_id body chat.rooms;
  })

  -- what a message in a room says of the room
  abbrev pub room_heard : Draw Secret → (peer_id body : Text) → Option Text → Step Secret (Unit {0})
  room_heard d peer_id body none = pure tt
  room_heard d peer_id body (some room) = do
    _ ← change_chat (λ chat. record chat {
      rooms = upsert_room_member (d.clock 8) (d.clock 9) room peer_id true chat.rooms;
    })
    log_room_event d room (codes "room.message") peer_id (some body)

  -- what follows once the payload is read; the last entry of the inbox is then this message's
  unfoldable pub deliver :
      Draw Secret → SignedEncryptedEnvelope → ChatTextPayload → Step Secret (Unit {0})
  deliver d envelope payload = do
    let sender = envelope.sender_peer_id
    _ ← change_chat (λ chat. record chat { inbox = chat.inbox ++ entry_of d envelope payload ∷ [] })
    _ ← room_heard d sender payload.body payload.room
    unread ←
        notify d (codes "message.received") payload.room (some sender)
          (message_notice sender payload.room)
    _ ← change_chat (λ chat. record chat {
      active_sessions =
          Map.update sender
            (λ session. record session {
              snapshot = record session.snapshot { last_activity_unix_ms = d.clock 3 };
            })
            chat.active_sessions;
    })
    _ ← change_topology (observe_session_activity (λ i. d.clock (10 + i)) sender)
    _ ← emit (payload_verified sender envelope.session_id envelope.nonce)
    _ ← emit (
        encrypted_message_delivered sender envelope.session_id (codes "inbound")
          (size_of payload.body))
    _ ← emit (message_received sender payload.room envelope.session_id)
    s ← read
    _ ←
        emit
          (inbox_synchronized (length s.chat.inbox) (unread_count none s.chat.inbox) payload.room)
    emit (notification_raised (codes "message.received") payload.room (some sender) unread)

module _ {Key Secret Public : Type 0} (c : Crypto Key) (x : Ciphers Secret Public)
    (j : ChatJson) where
  -- what `decrypt_payload` gave
  unfoldable pub after_decryption :
      Draw Secret → SignedEncryptedEnvelope → Result ChatError Bytes → Step Secret (Unit {0})
  after_decryption d envelope (err e) = do
    _ ←
        emit
          (TransportEvent.decryption_failed envelope.sender_peer_id envelope.session_id (display e))
    change_topology
        (observe_session_failure (λ i. d.clock (10 + i)) envelope.sender_peer_id (display e))
  after_decryption d envelope (ok plaintext) = do
    payload ← lift_json (j.text_from_json plaintext)
    deliver c d envelope payload

  unfoldable pub open_envelope :
      Draw Secret → SignedEncryptedEnvelope → Option ActiveChatSession → Step Secret (Unit {0})
  open_envelope d envelope none = change_topology (
      observe_session_failure (λ i. d.clock (10 + i)) envelope.sender_peer_id
        (codes "missing active session for inbound payload"))
  open_envelope d envelope (some session) =
      if not (text_eq session.snapshot.session_id envelope.session_id)
      then change_topology (
          observe_session_failure (λ i. d.clock (10 + i)) envelope.sender_peer_id
            (codes "session id mismatch for inbound payload"))
      else do
        bytes ← lift (payload_bytes c j envelope)
        encrypted ← lift (deserialize_payload j bytes)
        after_decryption d envelope (decrypt_payload x session.key encrypted)

module _ {Key Secret Public : Type 0} (c : Crypto Key) (x : Ciphers Secret Public) (j : ChatJson)
    (env : ℕ → Draw Secret) where
  unfoldable pub process_direct_message : SignedEncryptedEnvelope → Step Secret (Unit {0})
  process_direct_message envelope = do
    n ← fresh
    good ←
        admit ((env n).clock 0) (verify_envelope c j envelope) (codes "direct-message")
          envelope.sender_peer_id (codes "message:" ++ envelope.sender_peer_id) envelope.nonce
          envelope.timestamp_unix_ms
    when_good good (do
      s ← read
      open_envelope c x j (env n) envelope (Map.get envelope.sender_peer_id s.chat.active_sessions))
