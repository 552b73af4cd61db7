-- ===== src/Chat/Rooms.antt =====
-- The rooms of the chat: `ChatRoomsState` of apps/void-chat/src/lib.rs and the operations on it.
-- `now` is the time that an operation reads, `created` what the clock shows where a new room is made.
pub mod WellFormed
pub mod Merge
use voidnet.Base.{
  ℕ, suc, ◌-◌, Bool, true, false, Option, none, some, List, [], ◌∷◌, ◌++◌, Text, codes, text_eq,
  is_empty, ltb, leb, count, sort_by, keep_last, any, not, if◌then◌else◌,
}
use voidnet.Base.Keyed.{find_key, has_key, update_key, upsert_key, push_key, key_lt}

pub record RoomMember : Type 0 where
  pub peer_id : Text
  pub presence : Text
  pub last_seen_unix_ms : ℕ

pub record ChatRoomEvent : Type 0 where
  pub event_id : Text
  pub event_type : Text
  pub peer_id : Text
  pub body : Option Text
  pub timestamp_unix_ms : ℕ

pub record ChatRoomSnapshot : Type 0 where
  pub room : Text
  pub joined : Bool
  pub members : List RoomMember
  pub room_id : Text
  pub room_name : Text
  pub active_members : ℕ
  pub event_history : List ChatRoomEvent
  pub last_changed_unix_ms : ℕ

pub record ChatRoomsState : Type 0 where
  pub rooms : List ChatRoomSnapshot
  pub current_room : Option Text
  pub sync_revision : ℕ

-- `ChatRoomsState::default()`
abbrev pub no_rooms : ChatRoomsState
no_rooms = record { rooms = []; current_room = none; sync_revision = 0 }

abbrev pub room_event_history_limit : ℕ
room_event_history_limit = 48

abbrev pub online : Text
online = codes "ONLINE"

abbrev pub offline : Text
offline = codes "OFFLINE"

-- `saturating_add(1)` of a u64
unfoldable pub next_revision : ℕ → ℕ
next_revision n = if ltb n 18446744073709551615 then suc n else n

abbrev pub is_online : RoomMember → Bool
is_online m = text_eq m.presence online

abbrev pub earlier : ChatRoomEvent → ChatRoomEvent → Bool
earlier a b = ltb a.timestamp_unix_ms b.timestamp_unix_ms

-- an empty text is replaced by the room
abbrev pub or_room : Text → Text → Text
or_room room text = if is_empty text then room else text

-- the sort of the events, and the drain of those that are too many
abbrev pub trimmed : List ChatRoomEvent → List ChatRoomEvent
trimmed events = keep_last room_event_history_limit (sort_by earlier events)

unfoldable pub refresh_room_snapshot : ChatRoomSnapshot → ChatRoomSnapshot
refresh_room_snapshot r = record r {
  room_id = or_room r.room r.room_id;
  room_name = or_room r.room r.room_name;
  active_members = count is_online r.members;
  members = sort_by (key_lt RoomMember.peer_id) r.members;
  event_history = trimmed r.event_history;
}

abbrev pub empty_room : ℕ → Text → ChatRoomSnapshot
empty_room created room = record {
  room = room;
  joined = false;
  members = [];
  room_id = room;
  room_name = room;
  active_members = 0;
  event_history = [];
  last_changed_unix_ms = created;
}

abbrev pub with_names : ChatRoomSnapshot → ChatRoomSnapshot
with_names r = record r {
  room_id = or_room r.room r.room_id;
  room_name = or_room r.room r.room_name;
}

-- the rooms with the one that the source returns a reference to
unfoldable pub ensure_room_snapshot_mut : ℕ → Text → List ChatRoomSnapshot → List ChatRoomSnapshot
ensure_room_snapshot_mut created room rooms =
    update_key ChatRoomSnapshot.room room (λ r. refresh_room_snapshot (with_names r))
      (push_key ChatRoomSnapshot.room room (empty_room created room) rooms)

-- a change `f` through the reference that `ensure_room_snapshot_mut` returns, a refresh, and a new
-- revision
unfoldable pub change_room :
    ℕ → Text → (ChatRoomSnapshot → ChatRoomSnapshot) → ChatRoomsState → ChatRoomsState
change_room created room f s = record s {
  rooms =
      update_key ChatRoomSnapshot.room room (λ r. refresh_room_snapshot (f r))
        (ensure_room_snapshot_mut created room s.rooms);
  sync_revision = next_revision s.sync_revision;
}

abbrev pub presence_of : Bool → Text
presence_of joined = if joined then online else offline

abbrev pub seen_member : ℕ → Bool → RoomMember → RoomMember
seen_member now joined m = record m { presence = presence_of joined; last_seen_unix_ms = now }

abbrev pub new_member : ℕ → Text → Bool → RoomMember
new_member now peer_id joined = record {
  peer_id = peer_id;
  presence = presence_of joined;
  last_seen_unix_ms = now;
}

abbrev pub member_seen : ℕ → Text → Bool → ChatRoomSnapshot → ChatRoomSnapshot
member_seen now peer_id joined r = record r {
  members =
      upsert_key RoomMember.peer_id peer_id (seen_member now joined) (new_member now peer_id joined)
        r.members;
  last_changed_unix_ms = now;
}

unfoldable pub upsert_room_member : ℕ → ℕ → Text → Text → Bool → ChatRoomsState → ChatRoomsState
upsert_room_member now created room peer_id joined s =
    change_room created room (member_seen now peer_id joined) s

abbrev pub room_joined : ℕ → Bool → ChatRoomSnapshot → ChatRoomSnapshot
room_joined now joined r = record r { joined = joined; last_changed_unix_ms = now }

-- the first room that is joined
unfoldable pub first_joined : List ChatRoomSnapshot → Option Text
first_joined [] = none
first_joined (r ∷ rooms) = if r.joined then some r.room else first_joined rooms

abbrev pub is_current : Option Text → Text → Bool
is_current none room = false
is_current (some current) room = text_eq current room

unfoldable pub set_local_room_joined : ℕ → ℕ → Text → Bool → ChatRoomsState → ChatRoomsState
set_local_room_joined now created room joined s =
    let changed = change_room created room (room_joined now joined) s in
    if joined
    then record changed { current_room = some room }
    else if is_current s.current_room room
    then record changed { current_room = first_joined changed.rooms }
    else changed

unfoldable pub set_current_room : Option Text → ChatRoomsState → ChatRoomsState
set_current_room room s = record s {
  current_room = room;
  sync_revision = next_revision s.sync_revision;
}

abbrev pub event_added : ℕ → ChatRoomEvent → ChatRoomSnapshot → ChatRoomSnapshot
event_added now event r = record r {
  event_history = trimmed (r.event_history ++ event ∷ []);
  last_changed_unix_ms = now;
}

-- `event_id` is the random token; it is also what the source returns
unfoldable pub record_room_event :
    ℕ → ℕ → Text → Text → Text → Text → Option Text → ChatRoomsState → ChatRoomsState
record_room_event now created event_id room event_type peer_id body s =
    change_room created room
      (event_added now record {
        event_id = event_id;
        event_type = event_type;
        peer_id = peer_id;
        body = body;
        timestamp_unix_ms = now;
      })
      s

-- the later of a member as it stands and the remote one, the remote one where they are as late
abbrev pub later_member : RoomMember → RoomMember → RoomMember
later_member remote local =
    if leb local.last_seen_unix_ms remote.last_seen_unix_ms then remote else local

unfoldable pub merge_members : List RoomMember → List RoomMember → List RoomMember
merge_members [] members = members
merge_members (remote ∷ rest) members =
    merge_members rest
      (upsert_key RoomMember.peer_id remote.peer_id (later_member remote) remote members)

unfoldable pub merge_events : List ChatRoomEvent → List ChatRoomEvent → List ChatRoomEvent
merge_events [] events = events
merge_events (remote ∷ rest) events =
    merge_events rest (push_key ChatRoomEvent.event_id remote.event_id remote events)

abbrev pub max : ℕ → ℕ → ℕ
max a b = if ltb a b then b else a

abbrev pub merged : ChatRoomSnapshot → ChatRoomSnapshot → ChatRoomSnapshot
merged remote r = record r {
  members = merge_members remote.members r.members;
  event_history = merge_events remote.event_history r.event_history;
  room_id = if is_empty r.room_id then remote.room_id else r.room_id;
  room_name = if is_empty r.room_name then remote.room_name else r.room_name;
  last_changed_unix_ms = max r.last_changed_unix_ms remote.last_changed_unix_ms;
}

unfoldable pub merge_room_snapshot : ℕ → ChatRoomSnapshot → ChatRoomsState → ChatRoomsState
merge_room_snapshot created remote s = change_room created remote.room (merged remote) s
