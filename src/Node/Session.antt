-- ===== src/Node/Session.antt =====
-- The handlers of chat sessions: offers, acknowledgements and what is sent over a session,
-- core/transport/src/node.rs. `env n` is what the n-th draw reads from the clock and draws.
use voidnet.Base.{
  ℕ, ◌+◌, Bool, true, false, Option, none, some, List, [], ◌∷◌, ◌++◌, Text, Result, ok, err, codes,
  utf8, length,
}
use voidnet.Base.Map
use voidnet.Base.Map.{or_default}
use voidnet.Identity.{Crypto, Keypair}
use voidnet.Chat.Error.{ChatError, display}
use voidnet.Chat.Message.{
  ChatMessageType, direct_text, room_text, ChatTextPayload, direct_message, ChatJson,
}
use voidnet.Chat.Signed.{new_envelope}
use voidnet.Chat.Cipher.{Ciphers, encrypt_payload, serialize_payload}
use voidnet.Chat.Topic.{direct_topic}
use voidnet.Chat.Replay.{ReplayProtector, check_and_record}
use voidnet.Transport.Topology.Sessions.{observe_encrypted_session}
use voidnet.Node.State.{
  established, PendingOutboundMessage, ActiveChatSession, ChatSwarmAction, publish, Draw, Step,
  ◌>>=◌, pure, read, change_chat, change_topology, emit, fresh, lift, lift_json,
}
use voidnet.Node.Event.{encrypted_session_established, invalid_signature_rejected, replay_rejected}

abbrev pub gossipsub_direct : Text
gossipsub_direct = codes "GOSSIPSUB-DIRECT"

abbrev pub aes_256_gcm : Text
aes_256_gcm = codes "aes-256-gcm"

abbrev pub message_type_of : Option Text → ChatMessageType
message_type_of none = direct_text
message_type_of (some _) = room_text

-- `str::len`, in bytes
abbrev pub size_of : Text → ℕ
size_of s = length (utf8 s)

-- the session that both handlers set up
abbrev pub new_session : (now : ℕ) (peer_id session_id : Text) (key : List ℕ) → ActiveChatSession
new_session now peer_id session_id key = record {
  key = key;
  snapshot = record {
    peer_id = peer_id;
    session_id = session_id;
    established_at_unix_ms = now;
    encryption_state = established;
    last_activity_unix_ms = now;
    transport_state = gossipsub_direct;
    last_error = none;
  };
}

module _ {Secret : Type 0} where
  -- What the replay protector answered, with the event of a refusal.
  abbrev pub checked :
      (context peer_id nonce : Text)
      → Result ChatError (Unit {0}) × ReplayProtector
      → Step Secret Bool
  checked context peer_id nonce (ok _, replay) = do
    _ ← change_chat (λ chat. record chat { replay = replay })
    pure true
  checked context peer_id nonce (err e, replay) = do
    _ ← change_chat (λ chat. record chat { replay = replay })
    _ ← emit (replay_rejected peer_id (context ++ (codes ": " ++ display e)) nonce)
    pure false

  -- The two guards that each handler of a signed message begins with: `verify` and
  -- `check_and_record`. The answer is whether the message goes on.
  unfoldable pub admit :
      (now : ℕ) (verified : Result ChatError (Unit {0})) (context peer_id scope nonce : Text)
      (timestamp : ℕ)
      → Step Secret Bool
  admit now (err e) context peer_id scope nonce timestamp = do
    _ ← emit (invalid_signature_rejected (some peer_id) (context ++ (codes ": " ++ display e)))
    pure false
  admit now (ok _) context peer_id scope nonce timestamp = do
    s ← read
    checked context peer_id nonce (check_and_record now scope nonce timestamp s.chat.replay)

  -- nothing to do for a message that was refused
  abbrev pub when_admitted :
      Bool → Step Secret (List ChatSwarmAction) → Step Secret (List ChatSwarmAction)
  when_admitted true m = m
  when_admitted false m = pure []

  -- `active_sessions.insert`, and what the topology and the events say of it
  unfoldable pub establish :
      Draw Secret → (peer_id session_id : Text) (key : List ℕ) → Step Secret (Unit {0})
  establish d peer_id session_id key = do
    _ ← change_chat (λ chat. record chat {
      active_sessions =
          Map.insert peer_id (new_session (d.clock 1) peer_id session_id key) chat.active_sessions;
    })
    _ ←
        change_topology
          (observe_encrypted_session (λ i. d.clock (10 + i)) peer_id (some session_id) aes_256_gcm)
    emit (encrypted_session_established peer_id (codes "gossipsub/direct") aes_256_gcm)

module _ {Key Secret Public : Type 0} (c : Crypto Key) (x : Ciphers Secret Public) (j : ChatJson)
    (pair : Keypair Key) where
  -- the action, and the session after it
  unfoldable pub build_direct_message_action :
      Draw Secret
      → Text
      → PendingOutboundMessage
      → ActiveChatSession
      → Step Secret (ChatSwarmAction × ActiveChatSession)
  build_direct_message_action d peer_id outbound session = do
    let text : ChatTextPayload = record { room = outbound.room; body = outbound.body }
    bytes ← lift_json (j.text_json text)
    encrypted ← lift (encrypt_payload x (d.random 2) session.key bytes)
    serialized ← lift (serialize_payload j encrypted)
    envelope ← lift (
        new_envelope c j pair peer_id session.snapshot.session_id (message_type_of outbound.room)
          serialized (d.clock 2) (d.random 1))
    pure (
      publish (direct_topic peer_id) (direct_message envelope),
      record session { snapshot = record session.snapshot { last_activity_unix_ms = d.clock 3 } },
    )

module _ {Key Secret Public : Type 0} (c : Crypto Key) (x : Ciphers Secret Public) (j : ChatJson)
    (env : ℕ → Draw Secret) (pair : Keypair Key) where
  abbrev pub send_over :
      Text → PendingOutboundMessage → Option ActiveChatSession → Step Secret (List ChatSwarmAction)
  send_over peer_id outbound none = pure []
  send_over peer_id outbound (some session) = do
    n ← fresh
    sent ← build_direct_message_action c x j pair (env n) peer_id outbound session
    _ ← change_chat (λ chat. record chat {
      active_sessions = Map.update peer_id (λ _. sent.1) chat.active_sessions;
    })
    pure (sent.0 ∷ [])

  -- the loop over the messages that waited for the session
  unfoldable pub send_pending :
      Text → List PendingOutboundMessage → Step Secret (List ChatSwarmAction)
  send_pending peer_id [] = pure []
  send_pending peer_id (outbound ∷ messages) = do
    s ← read
    actions ← send_over peer_id outbound (Map.get peer_id s.chat.active_sessions)
    rest ← send_pending peer_id messages
    pure (actions ++ rest)

  -- `pending_messages.remove`, and the loop
  unfoldable pub flush_pending : Text → Step Secret (List ChatSwarmAction)
  unfolding send_pending
  flush_pending peer_id = do
    s ← read
    _ ←
        change_chat
          (λ chat. record chat { pending_messages = Map.remove peer_id chat.pending_messages })
    send_pending peer_id (or_default [] (Map.get peer_id s.chat.pending_messages))
