-- ===== src/Node/Rooms.antt =====
-- The handlers of what peers say of rooms, core/transport/src/node.rs.
use voidnet.Base.{
  ℕ, Bool, true, false, ◌&&◌, Option, none, some, List, [], ◌∷◌, ◌++◌, Text, text_eq, not, codes,
  if◌then◌else◌, length, count,
}
use voidnet.Base.Map
use voidnet.Base.Map.{or_default}
use voidnet.Base.Keyed.{find_key}
use voidnet.Identity.{Crypto, Keypair}
use voidnet.Chat.Message.{
  RoomMembershipAction, join, leave, RoomMembershipEvent, RoomStateSnapshot, room_state_snapshot,
  ChatJson,
}
use voidnet.Chat.Signed.{new_snapshot, verify_membership, verify_snapshot}
use voidnet.Chat.Topic.{room_topic}
use voidnet.Chat.Rooms.{
  ChatRoomSnapshot, is_online, online, presence_of, upsert_room_member, merge_room_snapshot,
}
use voidnet.Node.State.{
  ChatSwarmAction, publish, Draw, Step, ◌>>=◌, pure, read, change_chat, emit, fresh, lift,
}
use voidnet.Node.Event.{
  presence_updated, notification_raised, room_joined, room_left, room_state_synchronized,
  room_membership_changed,
}
use voidnet.Node.Session.{admit, when_admitted}
use voidnet.Node.Receive.{notify, log_room_event, when_good}

abbrev pub is_join : RoomMembershipAction → Bool
is_join join = true
is_join leave = false

abbrev pub move_event : Bool → Text
move_event joined = if joined then codes "room.join" else codes "room.leave"

abbrev pub move_kind : Bool → Text
move_kind joined = if joined then codes "room.peer-join" else codes "room.peer-leave"

abbrev pub move_notice : Bool → (peer_id room : Text) → Text
move_notice joined peer_id room =
    peer_id ++ ((if joined then codes " joined " else codes " left ") ++ room)

-- the snapshot that a message stands for
abbrev pub remote_room : (room : Text) → RoomStateSnapshot → ChatRoomSnapshot
remote_room room snapshot = record {
  room = room;
  joined = false;
  members = snapshot.members;
  room_id = room;
  room_name = room;
  active_members = count is_online snapshot.members;
  event_history = snapshot.recent_events;
  last_changed_unix_ms = snapshot.timestamp_unix_ms;
}

module _ {Secret : Type 0} where
  unfoldable pub apply_snapshot :
      Draw Secret → (room : Text) → RoomStateSnapshot → Step Secret (Unit {0})
  apply_snapshot d room snapshot = do
    let remote = remote_room room snapshot
    _ ←
        change_chat
          (λ chat. record chat { rooms = merge_room_snapshot (d.clock 9) remote chat.rooms })
    _ ← emit (
        room_state_synchronized room snapshot.peer_id remote.active_members
          (length remote.event_history) (codes "remote-snapshot"))
    emit (presence_updated snapshot.peer_id (some room) online snapshot.timestamp_unix_ms)

module _ {Key Secret : Type 0} (c : Crypto Key) (j : ChatJson) (env : ℕ → Draw Secret)
    (pair : Keypair Key) where
  -- the action where the node knows the room
  unfoldable pub room_state_of :
      Draw Secret
      → (room reason : Text) → Option ChatRoomSnapshot
      → Step Secret (List ChatSwarmAction)
  room_state_of d room reason none = pure []
  room_state_of d room reason (some known) = do
    snapshot ← lift (new_snapshot c j pair known (d.clock 2) (d.random 1))
    s ← read
    _ ← emit (
        room_state_synchronized room s.chat.local_peer_id (count is_online snapshot.members)
          (length snapshot.recent_events) reason)
    pure (publish (room_topic room) (room_state_snapshot snapshot) ∷ [])

  -- the answer is a list of at most one action
  unfoldable pub build_room_state_action :
      Draw Secret → (room reason : Text) → Step Secret (List ChatSwarmAction)
  build_room_state_action d room reason = do
    s ← read
    room_state_of d room reason (find_key ChatRoomSnapshot.room room s.chat.rooms.rooms)

  -- the changes and events of a peer's move into or out of a room
  unfoldable pub room_moved :
      Draw Secret → (room peer_id : Text) (joined : Bool) (timestamp : ℕ) → Step Secret (Unit {0})
  room_moved d room peer_id joined timestamp = do
    _ ← change_chat (λ chat. record chat {
      rooms = upsert_room_member (d.clock 8) (d.clock 9) room peer_id joined chat.rooms;
    })
    _ ← log_room_event c d room (move_event joined) peer_id none
    _ ← emit (room_membership_changed room peer_id (if joined then codes "join" else codes "leave"))
    _ ← emit (presence_updated peer_id (some room) (presence_of joined) timestamp)
    emit (if joined then room_joined room peer_id else room_left room peer_id)

  -- the notice of a move, where the node is in the room and the peer is another one
  unfoldable pub notice_of_move :
      Draw Secret → (room peer_id : Text) (joined concerns : Bool) → Step Secret (Unit {0})
  notice_of_move d room peer_id joined false = pure tt
  notice_of_move d room peer_id joined true = do
    unread ←
        notify c d (move_kind joined) (some room) (some peer_id) (move_notice joined peer_id room)
    emit (notification_raised (move_kind joined) (some room) (some peer_id) unread)

  unfoldable pub apply_membership :
      Draw Secret → (room : Text) → RoomMembershipEvent → Step Secret (List ChatSwarmAction)
  apply_membership d room event = do
    let joined = is_join event.action
    _ ← room_moved d room event.peer_id joined event.timestamp_unix_ms
    s ← read
    let concerns =
        not (text_eq event.peer_id s.chat.local_peer_id)
        && Map.contains_key room s.chat.joined_rooms
    _ ← notice_of_move d room event.peer_id joined concerns
    when_admitted (joined && concerns) (build_room_state_action d room (codes "peer-join"))

  unfoldable pub process_room_membership :
      RoomMembershipEvent → (room_from_topic : Option Text) → Step Secret (List ChatSwarmAction)
  process_room_membership event room_from_topic = do
    n ← fresh
    good ←
        admit ((env n).clock 0) (verify_membership c j event) (codes "room-membership")
          event.peer_id (codes "room:" ++ event.peer_id) event.nonce event.timestamp_unix_ms
    when_admitted good (apply_membership (env n) (or_default event.room room_from_topic) event)

  unfoldable pub process_room_state_snapshot :
      RoomStateSnapshot → (room_from_topic : Option Text) → Step Secret (Unit {0})
  process_room_state_snapshot snapshot room_from_topic = do
    n ← fresh
    good ←
        admit ((env n).clock 0) (verify_snapshot c j snapshot) (codes "room-state") snapshot.peer_id
          (codes "room-state:" ++ snapshot.peer_id) snapshot.nonce snapshot.timestamp_unix_ms
    when_good good (apply_snapshot (env n) (or_default snapshot.room room_from_topic) snapshot)
