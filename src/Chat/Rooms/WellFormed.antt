-- ===== src/Chat/Rooms/WellFormed.antt =====
-- What the operations on rooms keep.
use voidnet.Base.{
  ℕ, ◌≡◌, ◌≤◌, refl, sym, ◌∙◌, inl, inr, Bool, Option, List, [], ◌∷◌, ◌++◌, Text, text_eq, arith,
  count, sort_by, length, length-keep_last, count-sort_by, sort_by-IsOrderedBy,
  keep_last-IsOrderedBy, IsOrderedBy, All, Bool-cases,
}
use voidnet.Base.Keyed.{
  has_key, update_key, key_lt, AreDistinct, Keeps, key_lt-IsAsymmetric, update_key-AreDistinct,
  upsert_key-AreDistinct, push_key, push_key-AreDistinct, sort_by-AreDistinct,
}
use voidnet.Chat.Rooms.{
  RoomMember, ChatRoomSnapshot, ChatRoomsState, no_rooms, is_online, earlier, refresh_room_snapshot,
  empty_room, with_names, ensure_room_snapshot_mut, change_room, seen_member, new_member,
  member_seen, upsert_room_member, room_joined, set_local_room_joined, set_current_room,
  record_room_event, later_member, merge_members, merged, merge_room_snapshot,
  room_event_history_limit,
}

-- A room that readers can trust: the members have different peers and are in their order, the count
-- is that of those online, and the history is short and in the order of time.
pub record IsWellFormed (r : ChatRoomSnapshot) : Type 0 where
  pub distinct : AreDistinct RoomMember.peer_id r.members
  pub ordered : IsOrderedBy (key_lt RoomMember.peer_id) r.members
  pub counted : r.active_members ≡ count is_online r.members
  pub short : length r.event_history ≤ room_event_history_limit
  pub in_time : IsOrderedBy earlier r.event_history

-- The rooms have different names and are well formed.
pub record AreWellFormed (rooms : List ChatRoomSnapshot) : Type 0 where
  pub names : AreDistinct ChatRoomSnapshot.room rooms
  pub each : All IsWellFormed rooms

refresh_room_snapshot-IsWellFormed :
    (r : ChatRoomSnapshot)
    → AreDistinct RoomMember.peer_id r.members
    → IsWellFormed (refresh_room_snapshot r)
unfolding refresh_room_snapshot
refresh_room_snapshot-IsWellFormed r h = record {
  distinct = sort_by-AreDistinct RoomMember.peer_id r.members h;
  ordered =
      sort_by-IsOrderedBy (key_lt RoomMember.peer_id) r.members
        (key_lt-IsAsymmetric RoomMember.peer_id);
  counted = sym (count-sort_by (key_lt RoomMember.peer_id) is_online r.members);
  short = length-keep_last room_event_history_limit (sort_by earlier r.event_history);
  in_time =
      keep_last-IsOrderedBy earlier room_event_history_limit (sort_by earlier r.event_history)
        (sort_by-IsOrderedBy earlier r.event_history (λ a b h. ground arith));
}

update_key-All :
    (room : Text) (f : ChatRoomSnapshot → ChatRoomSnapshot) (rooms : List ChatRoomSnapshot)
    → ((r : ChatRoomSnapshot) → IsWellFormed r → IsWellFormed (f r))
    → All IsWellFormed rooms
    → All IsWellFormed (update_key ChatRoomSnapshot.room room f rooms)
unfolding update_key
update_key-All room f [] keeps h = tt
update_key-All room f (r ∷ rooms) keeps (good, h) = elim (Bool-cases (text_eq r.room room)) [
  | inl e ↦ rw e (keeps r good, h)
  | inr e ↦ rw e (good, update_key-All room f rooms keeps h)
]

push-All :
    (r : ChatRoomSnapshot) (rooms : List ChatRoomSnapshot)
    → IsWellFormed r
    → All IsWellFormed rooms
    → All IsWellFormed (rooms ++ r ∷ [])
push-All r [] good h = (good, tt)
push-All r (q ∷ rooms) good (first, h) = (first, push-All r rooms good h)

empty_room-IsWellFormed : (created : ℕ) (room : Text) → IsWellFormed (empty_room created room)
unfolding count
empty_room-IsWellFormed created room = record {
  distinct = tt;
  ordered = tt;
  counted = refl;
  short = omega arith;
  in_time = tt;
}

push_key-All :
    (created : ℕ) (room : Text) (rooms : List ChatRoomSnapshot)
    → All IsWellFormed rooms
    → All IsWellFormed (push_key ChatRoomSnapshot.room room (empty_room created room) rooms)
unfolding push_key
push_key-All created room rooms h = elim (Bool-cases (has_key ChatRoomSnapshot.room room rooms)) [
  | inl e ↦ rw e h
  | inr e ↦ rw e (push-All (empty_room created room) rooms (empty_room-IsWellFormed created room) h)
]

refresh_room_snapshot-room : (r : ChatRoomSnapshot) → (refresh_room_snapshot r).room ≡ r.room
unfolding refresh_room_snapshot
refresh_room_snapshot-room r = refl

update_key-AreWellFormed :
    (room : Text) (f : ChatRoomSnapshot → ChatRoomSnapshot) (rooms : List ChatRoomSnapshot)
    → ((r : ChatRoomSnapshot) → (f r).room ≡ r.room)
    → ((r : ChatRoomSnapshot) → IsWellFormed r → AreDistinct RoomMember.peer_id (f r).members)
    → AreWellFormed rooms
    → AreWellFormed (update_key ChatRoomSnapshot.room room (λ r. refresh_room_snapshot (f r)) rooms)
update_key-AreWellFormed room f rooms named distinct h = record {
  names =
      update_key-AreDistinct ChatRoomSnapshot.room room (λ r. refresh_room_snapshot (f r)) rooms
        (λ r e. refresh_room_snapshot-room (f r) ∙ named r ∙ e) h.names;
  each =
      update_key-All room (λ r. refresh_room_snapshot (f r)) rooms
        (λ r good. refresh_room_snapshot-IsWellFormed (f r) (distinct r good)) h.each;
}

ensure_room_snapshot_mut-AreWellFormed :
    (created : ℕ) (room : Text) (rooms : List ChatRoomSnapshot)
    → AreWellFormed rooms
    → AreWellFormed (ensure_room_snapshot_mut created room rooms)
unfolding ensure_room_snapshot_mut
ensure_room_snapshot_mut-AreWellFormed created room rooms h =
    update_key-AreWellFormed room with_names _ (λ r. refl) (λ r good. good.distinct)
      record {
        names = push_key-AreDistinct ChatRoomSnapshot.room (empty_room created room) rooms h.names;
        each = push_key-All created room rooms h.each;
      }

change_room-AreWellFormed :
    (created : ℕ) (room : Text) (f : ChatRoomSnapshot → ChatRoomSnapshot) (s : ChatRoomsState)
    → ((r : ChatRoomSnapshot) → (f r).room ≡ r.room)
    → ((r : ChatRoomSnapshot) → IsWellFormed r → AreDistinct RoomMember.peer_id (f r).members)
    → AreWellFormed s.rooms
    → AreWellFormed (change_room created room f s).rooms
unfolding change_room
change_room-AreWellFormed created room f s named distinct h =
    update_key-AreWellFormed room f (ensure_room_snapshot_mut created room s.rooms) named distinct
      (ensure_room_snapshot_mut-AreWellFormed created room s.rooms h)

pub later_member-Keeps :
    (remote : RoomMember) → Keeps RoomMember.peer_id remote.peer_id (later_member remote)
later_member-Keeps remote local e = ground arith

pub merge_members-AreDistinct :
    (remotes members : List RoomMember)
    → AreDistinct RoomMember.peer_id members
    → AreDistinct RoomMember.peer_id (merge_members remotes members)
unfolding merge_members
merge_members-AreDistinct [] members h = h
merge_members-AreDistinct (remote ∷ rest) members h = merge_members-AreDistinct rest _ (
    upsert_key-AreDistinct RoomMember.peer_id remote.peer_id (later_member remote) remote members
      (later_member-Keeps remote) refl h)

-- A call of an operation on the rooms, with what the clock shows.
pub data RoomCall : Type 0 where
  upserted : (now created : ℕ) (room peer_id : Text) (joined : Bool) → RoomCall
  joined_set : (now created : ℕ) (room : Text) (joined : Bool) → RoomCall
  current_set : Option Text → RoomCall
  recorded :
      (now created : ℕ) (event_id room event_type peer_id : Text) (body : Option Text) → RoomCall
  merged_in : (created : ℕ) (remote : ChatRoomSnapshot) → RoomCall

abbrev pub run : RoomCall → ChatRoomsState → ChatRoomsState
run (upserted now created room peer_id joined) s =
    upsert_room_member now created room peer_id joined s
run (joined_set now created room joined) s = set_local_room_joined now created room joined s
run (current_set room) s = set_current_room room s
run (recorded now created event_id room event_type peer_id body) s =
    record_room_event now created event_id room event_type peer_id body s
run (merged_in created remote) s = merge_room_snapshot created remote s

abbrev pub run_all : List RoomCall → ChatRoomsState → ChatRoomsState
run_all [] s = s
run_all (c ∷ calls) s = run_all calls (run c s)

set_local_room_joined-rooms :
    (now created : ℕ) (room : Text) (joined : Bool) (s : ChatRoomsState)
    → (set_local_room_joined now created room joined s).rooms
      ≡ (change_room created room (room_joined now joined) s).rooms
unfolding set_local_room_joined
set_local_room_joined-rooms now created room joined s = ground arith

run-AreWellFormed :
    (c : RoomCall) (s : ChatRoomsState) → AreWellFormed s.rooms → AreWellFormed (run c s).rooms
unfolding upsert_room_member set_current_room record_room_event merge_room_snapshot
run-AreWellFormed (upserted now created room peer_id joined) s h =
    change_room-AreWellFormed created room (member_seen now peer_id joined) s (λ r. refl)
      (λ r good.
        upsert_key-AreDistinct RoomMember.peer_id peer_id (seen_member now joined)
          (new_member now peer_id joined) r.members (λ m e. e) refl good.distinct)
      h
run-AreWellFormed (joined_set now created room joined) s h =
    rw (set_local_room_joined-rooms now created room joined s) (
      change_room-AreWellFormed created room (room_joined now joined) s (λ r. refl)
        (λ r good. good.distinct) h)
run-AreWellFormed (current_set room) s h = h
run-AreWellFormed (recorded now created event_id room event_type peer_id body) s h =
    change_room-AreWellFormed created room _ s (λ r. refl) (λ r good. good.distinct) h
run-AreWellFormed (merged_in created remote) s h =
    change_room-AreWellFormed created remote.room (merged remote) s (λ r. refl)
      (λ r good. merge_members-AreDistinct remote.members r.members good.distinct) h

-- Whatever operations run from no rooms, and whatever snapshots of other peers they merge: the rooms
-- have different names, and in each room the members have different peers and stand in their order,
-- the active members are as many as are online, and the history has at most 48 events in the order
-- of time.
pub run_all-AreWellFormed : (calls : List RoomCall) → AreWellFormed (run_all calls no_rooms).rooms
run_all-AreWellFormed calls = from calls no_rooms record { names = tt; each = tt }
  where
    from :
        (calls : List RoomCall) (s : ChatRoomsState)
        → AreWellFormed s.rooms
        → AreWellFormed (run_all calls s).rooms
    from [] s h = h
    from (c ∷ calls) s h = from calls (run c s) (run-AreWellFormed c s h)
