-- ===== src/Node/State.antt =====
-- The chat of a node: `ChatRuntimeState` of core/transport/src/node.rs, with the topology that its
-- handlers change and the events that they emit.
use voidnet.Base.{ℕ, suc, ◌∷◌, Option, List, Text, Result, ok, err}
use voidnet.Base.Map.{Map}
use voidnet.Identity.{Bytes}
use voidnet.Chat.Error.{ChatError, display}
use voidnet.Chat.Message.{ChatWireMessage}
use voidnet.Chat.Rooms.{ChatRoomsState}
use voidnet.Chat.Inbox.{ChatInboxEntry, ChatNotification}
use voidnet.Chat.Replay.{ReplayProtector}
use voidnet.Node.Event.{TransportEvent}
use voidnet.Transport.Topology.Records.{Clock, PeerTopology}

-- `ChatSessionState` and `ChatSessionSnapshot` of apps/void-chat/src/lib.rs
pub data ChatSessionState : Type 0 where
  idle negotiating established failed : ChatSessionState

pub record ChatSessionSnapshot : Type 0 where
  pub peer_id : Text
  pub session_id : Text
  pub established_at_unix_ms : ℕ
  pub encryption_state : ChatSessionState
  pub last_activity_unix_ms : ℕ
  pub transport_state : Text
  pub last_error : Option Text

pub record PendingOutboundMessage : Type 0 where
  pub room : Option Text
  pub body : Text

pub record ActiveChatSession : Type 0 where
  pub key : Bytes
  pub snapshot : ChatSessionSnapshot

pub data ChatSwarmAction : Type 0 where
  subscribe unsubscribe : Text → ChatSwarmAction
  publish : (topic : Text) (message : ChatWireMessage) → ChatSwarmAction

-- the errors of core/transport/src/lib.rs; an error of another crate is its text
pub data TransportError : Type 0 where
  command_channel_closed event_channel_closed : TransportError
  non_quic_address backend io topology : Text → TransportError

pub record PendingChatSession (Secret : Type 0) : Type 0 where
  pub peer_id : Text
  pub session_id : Text
  pub secret : Secret
  pub started_at_unix_ms : ℕ

pub record ChatRuntimeState (Secret : Type 0) : Type 0 where
  pub local_peer_id : Text
  pub joined_rooms : Map (Unit {0})
  pub inbox : List ChatInboxEntry
  pub notifications : List ChatNotification
  pub rooms : ChatRoomsState
  pub pending_sessions : Map (PendingChatSession Secret)
  pub active_sessions : Map ActiveChatSession
  pub pending_messages : Map (List PendingOutboundMessage)
  pub replay : ReplayProtector
  pub last_room_sync_unix_ms : ℕ

-- What a handler reads from the clock and draws at random, by the place where it does.
pub record Draw (Secret : Type 0) : Type 0 where
  pub clock : Clock
  pub random : ℕ → Bytes
  pub secret : Secret

-- The state that the handlers share: `events` has the latest first, and `drawn` is the number of
-- draws that were made.
pub record Node (Secret : Type 0) : Type 0 where
  pub chat : ChatRuntimeState Secret
  pub topology : PeerTopology
  pub events : List TransportEvent
  pub drawn : ℕ

-- A handler: the state is kept also where the handler fails, since it changes it in place.
abbrev pub Step : Type 0 → Type 0 → Type 0
Step Secret A = Node Secret → Result TransportError A × Node Secret

module _ {Secret : Type 0} where
  abbrev pub and_then :
      {A B : Type 0}
      → Result TransportError A × Node Secret
      → (A → Step Secret B)
      → Result TransportError B × Node Secret
  and_then (ok a, s) f = f a s
  and_then (err e, s) f = (err e, s)

  infixl 5 ◌>>=◌ ◌>>◌
  abbrev pub ◌>>=◌ : {A B : Type 0} → Step Secret A → (A → Step Secret B) → Step Secret B
  (m >>= f) s = and_then (m s) f

  abbrev pub ◌>>◌ : {A B : Type 0} → Step Secret A → Step Secret B → Step Secret B
  m >> k = m >>= λ _. k

  abbrev pub pure : {A : Type 0} → A → Step Secret A
  pure a s = (ok a, s)

  abbrev pub read : Step Secret (Node Secret)
  read s = (ok s, s)

  abbrev pub change : (Node Secret → Node Secret) → Step Secret (Unit {0})
  change f s = (ok tt, f s)

  abbrev pub change_chat :
      (ChatRuntimeState Secret → ChatRuntimeState Secret) → Step Secret (Unit {0})
  change_chat f = change (λ s. record s { chat = f s.chat })

  abbrev pub change_topology : (PeerTopology → PeerTopology) → Step Secret (Unit {0})
  change_topology f = change (λ s. record s { topology = f s.topology })

  abbrev pub emit : TransportEvent → Step Secret (Unit {0})
  emit e = change (λ s. record s { events = e ∷ s.events })

  -- the number of the next draw
  abbrev pub fresh : Step Secret ℕ
  fresh s = (ok s.drawn, record s { drawn = suc s.drawn })

  -- `map_err(|error| TransportError::Backend(error.to_string()))?`
  abbrev pub lift : {A : Type 0} → Result ChatError A → Step Secret A
  lift (ok a) s = (ok a, s)
  lift (err e) s = (err (backend (display e)), s)

  -- `map_err(|error| TransportError::Backend(error.to_string()))?` for an error of serde_json
  abbrev pub lift_json : {A : Type 0} → Result Text A → Step Secret A
  lift_json (ok a) s = (ok a, s)
  lift_json (err e) s = (err (backend e), s)
