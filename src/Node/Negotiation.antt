-- ===== src/Node/Negotiation.antt =====
-- Offers and acknowledgements of chat sessions, and messages that open one, core/transport/src/node.rs.
use voidnet.Base.{
  ℕ, ◌+◌, Bool, true, false, Option, none, some, List, [], ◌∷◌, ◌++◌, Text, text_eq, not, codes,
  if◌then◌else◌,
}
use voidnet.Base.Map
use voidnet.Base.Map.{or_default}
use voidnet.Identity.{Crypto, Keypair}
use voidnet.Chat.Message.{SessionOffer, SessionAck, session_offer, session_ack, ChatJson}
use voidnet.Chat.Signed.{new_offer, new_ack, verify_offer, verify_ack}
use voidnet.Chat.Cipher.{Ciphers, derive_session_key, decode_x25519_public_key}
use voidnet.Chat.Topic.{direct_topic}
use voidnet.Transport.Topology.Sessions.{
  observe_session_negotiating, observe_session_activity, observe_session_failure,
}
use voidnet.Node.State.{
  PendingOutboundMessage, ActiveChatSession, ChatSwarmAction, publish, PendingChatSession, Draw,
  Step, ◌>>=◌, pure, read, change_chat, change_topology, emit, fresh, lift,
}
use voidnet.Node.Event.{session_negotiation_started, encrypted_message_delivered}
use voidnet.Node.Session.{
  size_of, admit, when_admitted, establish, build_direct_message_action, flush_pending,
}

module _ {Key Secret Public : Type 0} (c : Crypto Key) (x : Ciphers Secret Public) (j : ChatJson)
    (env : ℕ → Draw Secret) (pair : Keypair Key) where
  unfoldable pub accept_offer : Draw Secret → SessionOffer → Step Secret (List ChatSwarmAction)
  accept_offer d offer = do
    remote ← lift (decode_x25519_public_key x c offer.ephemeral_public_key)
    _ ←
        establish d offer.sender_peer_id offer.session_id
          (derive_session_key x d.secret remote offer.session_id)
    ack ← lift (
        new_ack c j pair offer.sender_peer_id offer.session_id (x.to_bytes (x.public_of d.secret))
          (d.clock 2) (d.random 0))
    actions ← flush_pending c x j env pair offer.sender_peer_id
    pure (publish (direct_topic offer.sender_peer_id) (session_ack ack) ∷ actions)

  unfoldable pub process_session_offer : SessionOffer → Step Secret (List ChatSwarmAction)
  process_session_offer offer = do
    n ← fresh
    good ←
        admit ((env n).clock 0) (verify_offer c j offer) (codes "session-offer")
          offer.sender_peer_id (codes "offer:" ++ offer.sender_peer_id) offer.nonce
          offer.timestamp_unix_ms
    when_admitted good (accept_offer (env n) offer)

  -- what was pending for the sender of an acknowledgement
  unfoldable pub accept_ack :
      Draw Secret
      → SessionAck
      → Option (PendingChatSession Secret)
      → Step Secret (List ChatSwarmAction)
  accept_ack d ack none = pure []
  accept_ack d ack (some pending) =
      if not (text_eq pending.session_id ack.session_id)
      then (do
        _ ← change_topology (
            observe_session_failure (λ i. d.clock (10 + i)) ack.sender_peer_id
              (codes "session ack id mismatch"))
        pure [])
      else do
        remote ← lift (decode_x25519_public_key x c ack.ephemeral_public_key)
        _ ←
            establish d ack.sender_peer_id ack.session_id
              (derive_session_key x pending.secret remote ack.session_id)
        flush_pending c x j env pair ack.sender_peer_id

  unfoldable pub process_session_ack : SessionAck → Step Secret (List ChatSwarmAction)
  process_session_ack ack = do
    n ← fresh
    good ←
        admit ((env n).clock 0) (verify_ack c j ack) (codes "session-ack") ack.sender_peer_id
          (codes "ack:" ++ ack.sender_peer_id) ack.nonce ack.timestamp_unix_ms
    when_admitted good (do
      s ← read
      _ ← change_chat (λ chat. record chat {
        pending_sessions = Map.remove ack.sender_peer_id chat.pending_sessions;
      })
      accept_ack (env n) ack (Map.get ack.sender_peer_id s.chat.pending_sessions))

  -- the offer of a new session, unless one is pending
  unfoldable pub negotiate : Draw Secret → Text → Bool → Step Secret (List ChatSwarmAction)
  negotiate d peer_id true = pure []
  negotiate d peer_id false = do
    offer ← lift (
        new_offer c j pair peer_id (x.to_bytes (x.public_of d.secret)) (d.clock 2) (d.random 0)
          (d.random 1))
    _ ←
        change_topology
          (observe_session_negotiating (λ i. d.clock (10 + i)) peer_id offer.session_id)
    _ ← emit (session_negotiation_started peer_id offer.session_id (codes "gossipsub/direct"))
    _ ← change_chat (λ chat. record chat {
      pending_sessions =
          Map.insert peer_id
            record {
              peer_id = peer_id;
              session_id = offer.session_id;
              secret = d.secret;
              started_at_unix_ms = d.clock 3;
            }
            chat.pending_sessions;
    })
    pure (publish (direct_topic peer_id) (session_offer offer) ∷ [])

  unfoldable pub dispatch :
      Draw Secret
      → Text
      → PendingOutboundMessage
      → Option ActiveChatSession
      → Step Secret (List ChatSwarmAction)
  dispatch d peer_id outbound (some session) = do
    sent ← build_direct_message_action c x j pair d peer_id outbound session
    _ ← change_chat (λ chat. record chat {
      active_sessions = Map.update peer_id (λ _. sent.1) chat.active_sessions;
    })
    _ ← change_topology (observe_session_activity (λ i. d.clock (10 + i)) peer_id)
    _ ← emit (
        encrypted_message_delivered peer_id sent.1.snapshot.session_id (codes "outbound")
          (size_of outbound.body))
    pure (sent.0 ∷ [])
  dispatch d peer_id outbound none = do
    _ ← change_chat (λ chat. record chat {
      pending_messages =
          Map.upsert peer_id [] (λ messages. messages ++ outbound ∷ []) chat.pending_messages;
    })
    s ← read
    negotiate d peer_id (Map.contains_key peer_id s.chat.pending_sessions)

  unfoldable pub dispatch_or_queue_outbound_message :
      Text → PendingOutboundMessage → Step Secret (List ChatSwarmAction)
  dispatch_or_queue_outbound_message peer_id outbound = do
    n ← fresh
    s ← read
    dispatch (env n) peer_id outbound (Map.get peer_id s.chat.active_sessions)
