-- ===== src/Node/Handle.antt =====
-- The entry points of the chat in core/transport/src/node.rs: a message from the mesh, the tick of the
-- user's commands, and what becomes of the actions.
use voidnet.Base.{
  ℕ, ◌+◌, Bool, true, false, Option, none, some, List, [], ◌∷◌, ◌++◌, Text, text_eq, Result, ok,
  err, codes, ◌&&◌, sort_by, map,
}
use voidnet.Base.Map
use voidnet.Base.Keyed.{key_lt}
use voidnet.Identity.{Bytes, Crypto, Keypair}
use voidnet.Chat.Message.{
  ChatWireMessage, session_offer, session_ack, direct_message, room_membership, room_state_snapshot,
  ChatJson,
}
use voidnet.Chat.Cipher.{Ciphers}
use voidnet.Chat.Topic.{is_room_topic, room_from_topic, direct_peer_from_topic}
use voidnet.Transport.Topology.Peers.{observe_failure}
use voidnet.Transport.Topology.Sessions.{observe_session_failure}
use voidnet.Node.State.{
  ChatSessionSnapshot, negotiating, ActiveChatSession, ChatSwarmAction, subscribe, unsubscribe,
  publish, TransportError, command_channel_closed, event_channel_closed, non_quic_address, backend,
  io, topology, PendingChatSession, ChatRuntimeState, Draw, Node, Step, ◌>>=◌, pure, change_chat,
  change_topology, emit, fresh, lift_json,
}
use voidnet.Node.Event.{transport_failed}
use voidnet.Node.Session.{gossipsub_direct, when_admitted}
use voidnet.Node.Negotiation.{process_session_offer, process_session_ack}
use voidnet.Node.Receive.{process_direct_message}
use voidnet.Node.Rooms.{process_room_membership, process_room_state_snapshot}
use voidnet.Node.Command.{ChatLocalCommand, process_chat_command, build_room_sync_actions, is_nil}

-- What gossipsub of libp2p answers, the encoding of messages, and the files that the state is
-- written to.
pub record Swarm (Secret : Type 0) : Type 0 where
  pub gossip_subscribe : (topic : Text) → Result Text (Unit {0})
  pub gossip_publish : (topic : Text) → Bytes → Result Text (Unit {0})
  pub wire_json : ChatWireMessage → Result Text Bytes
  pub wire_from_json : Bytes → Result Text ChatWireMessage
  pub persist : Node Secret → Result TransportError (Unit {0})

-- `to_string` of an error
unfoldable pub display : TransportError → Text
display command_channel_closed = codes "transport command channel is closed"
display event_channel_closed = codes "transport event channel is closed"
display (non_quic_address a) = codes "address is not a QUIC multiaddr: " ++ a
display (backend e) = codes "transport backend failed: " ++ e
display (io e) = codes "transport IO failed: " ++ e
display (topology e) = codes "topology persistence failed: " ++ e

abbrev snapshot_of : {Secret : Type 0} → PendingChatSession Secret → ChatSessionSnapshot
snapshot_of pending = record {
  peer_id = pending.peer_id;
  session_id = pending.session_id;
  established_at_unix_ms = pending.started_at_unix_ms;
  encryption_state = negotiating;
  last_activity_unix_ms = pending.started_at_unix_ms;
  transport_state = gossipsub_direct;
  last_error = none;
}

unfoldable pub snapshot_sessions :
    {Secret : Type 0} → ChatRuntimeState Secret → List ChatSessionSnapshot
snapshot_sessions chat = sort_by (key_lt ChatSessionSnapshot.peer_id) (
    map ActiveChatSession.snapshot (Map.values chat.active_sessions)
    ++ map snapshot_of (Map.values chat.pending_sessions))

module _ {Secret : Type 0} (w : Swarm Secret) (env : ℕ → Draw Secret) where
  abbrev pub enter : Option Text → Step Secret (Unit {0})
  enter none = pure tt
  enter (some room) =
      change_chat (λ chat. record chat { joined_rooms = Map.insert room tt chat.joined_rooms })

  abbrev pub exit : Option Text → Step Secret (Unit {0})
  exit none = pure tt
  exit (some room) =
      change_chat (λ chat. record chat { joined_rooms = Map.remove room chat.joined_rooms })

  -- what the swarm said of a message
  abbrev pub published :
      Draw Secret → (topic : Text) → Result Text (Unit {0}) → Step Secret (Unit {0})
  published d topic (ok _) = pure tt
  published d topic (err e) = do
    let peer_id = direct_peer_from_topic topic
    _ ← change_topology (observe_failure (λ i. d.clock (10 + i)) peer_id e)
    emit (
        transport_failed peer_id none
          (codes "failed to publish chat topic " ++ (topic ++ (codes ": " ++ e))))

  unfoldable pub apply_chat_action : ChatSwarmAction → Step Secret (Unit {0})
  apply_chat_action (subscribe topic) = do
    _ ← lift_json (w.gossip_subscribe topic)
    enter (room_from_topic topic)
  apply_chat_action (unsubscribe topic) = exit (room_from_topic topic)
  apply_chat_action (publish topic message) = do
    n ← fresh
    payload ← lift_json (w.wire_json message)
    published (env n) topic (w.gossip_publish topic payload)

  unfoldable pub apply_chat_actions : List ChatSwarmAction → Step Secret (Unit {0})
  apply_chat_actions [] = pure tt
  apply_chat_actions (action ∷ actions) = do
    _ ← apply_chat_action action
    apply_chat_actions actions

  -- `chat.persist` and `persist_topology`
  abbrev pub store : Step Secret (Unit {0})
  store s = (w.persist s, s)

  -- an error of the handler of offers is noted of the peer that passed the message on
  abbrev pub noted :
      Draw Secret
      → (source : Text) → Result TransportError (List ChatSwarmAction) × Node Secret
      → Result TransportError (List ChatSwarmAction) × Node Secret
  noted d source (ok actions, s) = (ok actions, s)
  noted d source (err e, s) =
      (do
        _ ← change_topology (observe_session_failure (λ i. d.clock (10 + i)) source (display e))
        pure [])
        s

module _ {Key Secret Public : Type 0} (c : Crypto Key) (x : Ciphers Secret Public) (j : ChatJson)
    (w : Swarm Secret) (env : ℕ → Draw Secret) (pair : Keypair Key) where
  unfoldable pub route :
      (topic source local : Text) → ChatWireMessage → Step Secret (List ChatSwarmAction)
  route topic source local (session_offer offer) =
      when_admitted (text_eq offer.recipient_peer_id local) (do
        n ← fresh
        λ s. noted w env (env n) source (process_session_offer c x j env pair offer s))
  route topic source local (session_ack ack) =
      when_admitted (text_eq ack.recipient_peer_id local) (process_session_ack c x j env pair ack)
  route topic source local (direct_message envelope) =
      when_admitted (text_eq envelope.recipient_peer_id local)
        (do _ ← process_direct_message c x j env envelope; pure [])
  route topic source local (room_membership event) =
      when_admitted (is_room_topic topic)
        (process_room_membership c j env pair event (room_from_topic topic))
  route topic source local (room_state_snapshot snapshot) =
      when_admitted (is_room_topic topic)
        (do _ ← process_room_state_snapshot c j env pair snapshot (room_from_topic topic); pure [])

  -- the message that the payload is, or a failure of the peer that passed it on
  unfoldable pub handle_read :
      (topic source local : Text) → Result Text ChatWireMessage → Step Secret (Unit {0})
  handle_read topic source local (err e) = do
    n ← fresh
    _ ← change_topology (observe_failure (λ i. (env n).clock (10 + i)) (some source) e)
    emit (transport_failed (some source) none (codes "invalid chat wire payload: " ++ e))
  handle_read topic source local (ok message) = do
    actions ← route topic source local message
    _ ← apply_chat_actions w env actions
    store w env

  unfoldable pub handle_chat_wire_message :
      (topic : Text) → Bytes → (source local : Text) → Step Secret (Unit {0})
  handle_chat_wire_message topic payload source local =
      handle_read topic source local (w.wire_from_json payload)

  -- the loop over the commands
  unfoldable pub process_each : List ChatLocalCommand → Step Secret (List ChatSwarmAction)
  process_each [] = pure []
  process_each (command ∷ commands) = do
    actions ← process_chat_command c x j env pair command
    rest ← process_each commands
    pure (actions ++ rest)

  abbrev pub unless_unchanged : Bool → Step Secret (Unit {0}) → Step Secret (Unit {0})
  unless_unchanged true m = pure tt
  unless_unchanged false m = m

  -- `drained` is what `drain_local_commands` gave
  unfoldable pub handle_chat_command_tick :
      (drained : Result Text (List ChatLocalCommand)) → Step Secret (Unit {0})
  handle_chat_command_tick drained = do
    commands ← lift_json drained
    actions ← process_each commands
    sync ← build_room_sync_actions c j env pair
    unless_unchanged (is_nil commands && is_nil sync)
        (do _ ← apply_chat_actions w env (actions ++ sync); store w env)
