-- ===== src/Node/Command.antt =====
-- The commands that the node takes from its own user, core/transport/src/node.rs.
use voidnet.Base.{
  ℕ, ◌-◌, Bool, true, false, ◌&&◌, ◌||◌, Option, none, some, List, [], ◌∷◌, ◌++◌, Text, text_eq,
  not, codes, if◌then◌else◌, length, count, ltb, decimal,
}
use voidnet.Base.Map
use voidnet.Base.Map.{Map}
use voidnet.Base.Keyed.{find_key}
use voidnet.Identity.{Crypto, Keypair}
use voidnet.Chat.Message.{RoomMembershipAction, join, leave, room_membership, ChatJson}
use voidnet.Chat.Signed.{new_membership}
use voidnet.Chat.Cipher.{Ciphers}
use voidnet.Chat.Topic.{room_topic}
use voidnet.Chat.Rooms.{
  RoomMember, ChatRoomSnapshot, is_online, upsert_room_member, set_local_room_joined,
  set_current_room,
}
use voidnet.Chat.Inbox.{ChatNotification, mark_inbox_read, unread_count, mark_notifications_read}
use voidnet.Node.State.{
  PendingOutboundMessage, ChatSwarmAction, subscribe, unsubscribe, publish, ChatRuntimeState, Draw,
  Step, ◌>>=◌, pure, read, change_chat, emit, fresh, lift,
}
use voidnet.Node.Event.{
  inbox_synchronized, notification_raised, room_joined, room_left, room_membership_changed,
}
use voidnet.Node.Session.{when_admitted}
use voidnet.Node.Negotiation.{dispatch_or_queue_outbound_message}
use voidnet.Node.Receive.{notify, log_room_event}
use voidnet.Node.Rooms.{build_room_state_action}

-- `ChatLocalCommand` of apps/void-chat/src/lib.rs
pub data ChatLocalCommand : Type 0 where
  send_direct : (peer_id message : Text) → ChatLocalCommand
  send_room : (room message : Text) → ChatLocalCommand
  join_room leave_room switch_room : (room : Text) → ChatLocalCommand
  mark_read : (room : Option Text) → ChatLocalCommand

abbrev pub chat_room_sync_interval : ℕ
chat_room_sync_interval = 2000

unfoldable pub keys : {V : Type 0} → Map V → List Text
keys [] = []
keys ((k, v) ∷ m) = k ∷ keys m

-- `filter` and `map` to the peers
unfoldable pub peers_of : (local : Text) → List RoomMember → List Text
peers_of local [] = []
peers_of local (m ∷ members) =
    let rest = peers_of local members in
    if not (text_eq m.peer_id local) && is_online m then m.peer_id ∷ rest else rest

abbrev pub is_nil : {A : Type 0} → List A → Bool
is_nil [] = true
is_nil (a ∷ rest) = false

abbrev members_of : Option ChatRoomSnapshot → List RoomMember
members_of none = []
members_of (some r) = r.members

module _ {Secret : Type 0} where
  unfoldable pub room_recipients : ChatRuntimeState Secret → (room : Text) → List Text
  unfolding peers_of
  room_recipients chat room =
      peers_of chat.local_peer_id
        (members_of (find_key ChatRoomSnapshot.room room chat.rooms.rooms))

  unfoldable pub append_local_history :
      Draw Secret → (room : Option Text) (body session_id : Text) → Step Secret (Unit {0})
  append_local_history d room body session_id = change_chat (λ chat. record chat {
    inbox =
        chat.inbox
        ++ record {
          message_id = chat.local_peer_id ++ (codes "-" ++ decimal (d.clock 3));
          from_peer_id = chat.local_peer_id;
          room = room;
          body = body;
          received_at_unix_ms = d.clock 4;
          session_id = session_id;
          signature_verified = true;
          unread = false;
          room_name = room;
        }
          ∷ [];
  })

  -- the event that says how large the inbox is
  abbrev pub tell_inbox : Option Text → Step Secret (Unit {0})
  tell_inbox room = do
    s ← read
    emit (inbox_synchronized (length s.chat.inbox) (unread_count none s.chat.inbox) room)

  abbrev pub choose_room : Text → Step Secret (Unit {0})
  choose_room room =
      change_chat (λ chat. record chat { rooms = set_current_room (some room) chat.rooms })

  abbrev pub notice_of_switch : (room : Text) (some_cleared : Bool) → Step Secret (Unit {0})
  notice_of_switch room false = pure tt
  notice_of_switch room true = do
    s ← read
    emit (
        notification_raised (codes "room.switch") (some room) (some s.chat.local_peer_id)
          (count ChatNotification.unread s.chat.notifications))

  -- the local peer's own place in a room
  abbrev pub place_in_room : Draw Secret → (room : Text) (joined : Bool) → Step Secret (Unit {0})
  place_in_room d room joined = do
    _ ← change_chat (λ chat. record chat {
      rooms = set_local_room_joined (d.clock 10) (d.clock 11) room joined chat.rooms;
    })
    change_chat (λ chat. record chat {
      rooms = upsert_room_member (d.clock 8) (d.clock 9) room chat.local_peer_id joined chat.rooms;
    })

  -- `joined_rooms.insert`, and what follows where the room is new
  abbrev pub enter_room : Draw Secret → (room : Text) (known : Bool) → Step Secret (Unit {0})
  enter_room d room true = pure tt
  enter_room d room false = do
    _ ← change_chat (λ chat. record chat { joined_rooms = Map.insert room tt chat.joined_rooms })
    place_in_room d room true

module _ {Key Secret Public : Type 0} (c : Crypto Key) (x : Ciphers Secret Public) (j : ChatJson)
    (env : ℕ → Draw Secret) (pair : Keypair Key) where
  -- the loop over the members that a message to a room goes to
  unfoldable pub send_each : List Text → PendingOutboundMessage → Step Secret (List ChatSwarmAction)
  send_each [] outbound = pure []
  send_each (peer_id ∷ recipients) outbound = do
    actions ← dispatch_or_queue_outbound_message c x j env pair peer_id outbound
    rest ← send_each recipients outbound
    pure (actions ++ rest)

module _ {Key Secret : Type 0} (c : Crypto Key) (j : ChatJson) (env : ℕ → Draw Secret)
    (pair : Keypair Key) where
  -- the loop over the rooms that the node is in
  unfoldable pub sync_each : List Text → Step Secret (List ChatSwarmAction)
  sync_each [] = pure []
  sync_each (room ∷ rooms) = do
    n ← fresh
    _ ← change_chat (λ chat. record chat {
      rooms =
          upsert_room_member ((env n).clock 8) ((env n).clock 9) room chat.local_peer_id true
            chat.rooms;
    })
    action ← build_room_state_action c j env pair (env n) room (codes "heartbeat")
    rest ← sync_each rooms
    pure (action ++ rest)

  unfoldable pub build_room_sync_actions : Step Secret (List ChatSwarmAction)
  unfolding sync_each keys
  build_room_sync_actions = do
    n ← fresh
    s ← read
    let now = (env n).clock 0
    let too_early =
        is_nil s.chat.joined_rooms
        || ltb (now - s.chat.last_room_sync_unix_ms) chat_room_sync_interval
    when_admitted (not too_early) (do
      _ ← change_chat (λ chat. record chat { last_room_sync_unix_ms = now })
      sync_each (keys s.chat.joined_rooms))

  -- what joining and leaving a room tell the user and the room; the answer is the message to the room
  unfoldable pub announce :
      Draw Secret
      → (room : Text) (action : RoomMembershipAction) (joined : Bool) → Step Secret ChatSwarmAction
  announce d room action joined = do
    let kind = if joined then codes "room.join" else codes "room.leave"
    s ← read
    let local = s.chat.local_peer_id
    _ ← log_room_event c d room kind local none
    _ ← emit (room_membership_changed room local (if joined then codes "join" else codes "leave"))
    _ ← emit (if joined then room_joined room local else room_left room local)
    unread ←
        notify c d kind (some room) (some local)
          ((if joined then codes "joined room " else codes "left room ") ++ room)
    _ ← emit (notification_raised kind (some room) (some local) unread)
    membership ← lift (new_membership c j pair room action (d.clock 2) (d.random 0))
    pure (publish (room_topic room) (room_membership membership))

  unfoldable pub switch_to : (room : Text) → Step Secret (List ChatSwarmAction)
  switch_to room = do
    _ ← choose_room room
    s ← read
    let inbox = mark_inbox_read (some room) s.chat.inbox
    let notifications = mark_notifications_read (some room) s.chat.notifications
    _ ← change_chat (λ chat. record chat { inbox = inbox.1; notifications = notifications.1 })
    _ ← tell_inbox (some room)
    _ ← notice_of_switch room (ltb 0 notifications.0)
    when_admitted (ltb 0 inbox.0) build_room_sync_actions

module _ {Key Secret Public : Type 0} (c : Crypto Key) (x : Ciphers Secret Public) (j : ChatJson)
    (env : ℕ → Draw Secret) (pair : Keypair Key) where
  unfoldable pub process_chat_command : ChatLocalCommand → Step Secret (List ChatSwarmAction)
  process_chat_command (send_direct peer_id message) = do
    n ← fresh
    _ ← append_local_history (env n) none message (codes "local-direct")
    dispatch_or_queue_outbound_message c x j env pair peer_id record { room = none; body = message }
  process_chat_command (send_room room message) = do
    n ← fresh
    _ ← choose_room room
    _ ← append_local_history (env n) (some room) message (codes "local-room")
    s ← read
    _ ← log_room_event c (env n) room (codes "room.message") s.chat.local_peer_id (some message)
    t ← read
    actions ←
        send_each c x j env pair (room_recipients t.chat room)
          record { room = some room; body = message }
    _ ← tell_inbox (some room)
    pure actions
  process_chat_command (join_room room) = do
    n ← fresh
    s ← read
    _ ← enter_room (env n) room (Map.contains_key room s.chat.joined_rooms)
    message ← announce c j env pair (env n) room join true
    state ← build_room_state_action c j env pair (env n) room (codes "join")
    pure (subscribe (room_topic room) ∷ message ∷ state)
  process_chat_command (leave_room room) = do
    n ← fresh
    _ ← change_chat (λ chat. record chat { joined_rooms = Map.remove room chat.joined_rooms })
    _ ← place_in_room (env n) room false
    message ← announce c j env pair (env n) room leave false
    pure (message ∷ unsubscribe (room_topic room) ∷ [])
  process_chat_command (switch_room room) = switch_to c j env pair room
  process_chat_command (mark_read room) = do
    _ ← change_chat (λ chat. record chat {
      inbox = (mark_inbox_read room chat.inbox).1;
      notifications = (mark_notifications_read room chat.notifications).1;
    })
    _ ← tell_inbox room
    pure []
