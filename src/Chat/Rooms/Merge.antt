-- ===== src/Chat/Rooms/Merge.antt =====
-- What a merge of another peer's view of a room leaves.
use voidnet.Base.{
  ℕ, ◌≡◌, refl, ◌∙◌, ◌≢◌, inl, inr, Option, none, some, List, [], ◌∷◌, Text, text_eq, text_eq_iff,
  arith, sort_by, if◌then◌else◌, Bool-cases, text_eq_refl,
}
use voidnet.Base.Map.{map_option, or_default}
use voidnet.Base.Keyed.{find_key, upsert_key, push_key, key_lt, AreDistinct}
use voidnet.Base.Keyed.Find.{
  find_key-eq_none, find_key-update_key, find_key-upsert_key, find_key-push_key, find_key-sort_by,
}
use voidnet.Chat.Rooms.{
  RoomMember, ChatRoomSnapshot, ChatRoomsState, refresh_room_snapshot, empty_room, with_names,
  ensure_room_snapshot_mut, change_room, later_member, merge_members, merged, merge_room_snapshot,
}
use voidnet.Chat.Rooms.WellFormed.{later_member-Keeps}

-- The fresher of what a remote and the local view say of a peer, the remote one at the same time.
abbrev pub freshest : Option RoomMember → Option RoomMember → Option RoomMember
freshest none local = local
freshest (some remote) none = some remote
freshest (some remote) (some local) = some (later_member remote local)

abbrev members_of : Option ChatRoomSnapshot → List RoomMember
members_of none = []
members_of (some r) = r.members

-- The members of a room, none where there is no such room.
abbrev pub members_in : Text → ChatRoomsState → List RoomMember
members_in room s = members_of (find_key ChatRoomSnapshot.room room s.rooms)

find_key-merge_members :
    (peer : Text) (remotes members : List RoomMember)
    → AreDistinct RoomMember.peer_id remotes
    → find_key RoomMember.peer_id peer (merge_members remotes members)
      ≡ freshest
          (find_key RoomMember.peer_id peer remotes)
          (find_key RoomMember.peer_id peer members)
unfolding merge_members
find_key-merge_members peer [] members h = unfold find_key in refl
find_key-merge_members peer (r ∷ rest) members (fresh, h) =
    find_key-merge_members peer rest _ h
    ∙ one (
        find_key-upsert_key RoomMember.peer_id r.peer_id peer (later_member r) r members
          (later_member-Keeps r) refl)
  where
    one :
        (find_key RoomMember.peer_id peer
            (upsert_key RoomMember.peer_id r.peer_id (later_member r) r members)
          ≡ (if text_eq r.peer_id peer
              then some (
                  or_default r
                    (map_option (later_member r) (find_key RoomMember.peer_id r.peer_id members)))
              else find_key RoomMember.peer_id peer members))
        → freshest (find_key RoomMember.peer_id peer rest) (
            find_key RoomMember.peer_id peer
              (upsert_key RoomMember.peer_id r.peer_id (later_member r) r members))
          ≡ freshest
              (find_key RoomMember.peer_id peer (r ∷ rest))
              (find_key RoomMember.peer_id peer members)
    one e = rw e (elim (Bool-cases (text_eq r.peer_id peer)) [
      | inl same ↦
          unfold find_key in
          ground (
            arith,
            text_eq_iff r.peer_id peer,
            find_key-eq_none RoomMember.peer_id r.peer_id rest fresh,
          )
      | inr other ↦ unfold find_key in ground arith
    ])

find_key-ensure_room_snapshot_mut :
    (created : ℕ) (room other : Text) (rooms : List ChatRoomSnapshot)
    → find_key ChatRoomSnapshot.room other (ensure_room_snapshot_mut created room rooms) ≡ (
        if text_eq room other
        then some (
            refresh_room_snapshot (
              with_names
                (or_default (empty_room created room) (find_key ChatRoomSnapshot.room room rooms))))
        else find_key ChatRoomSnapshot.room other rooms)
unfolding ensure_room_snapshot_mut
find_key-ensure_room_snapshot_mut created room other rooms =
    find_key-update_key ChatRoomSnapshot.room room other (λ r. refresh_room_snapshot (with_names r))
      (push_key ChatRoomSnapshot.room room (empty_room created room) rooms)
      (λ r e. unfold refresh_room_snapshot in e)
    ∙ ground (
      arith,
      find_key-push_key ChatRoomSnapshot.room room other (empty_room created room) rooms refl,
    )

find_key-change_room :
    (created : ℕ) (room other : Text) (f : ChatRoomSnapshot → ChatRoomSnapshot) (s : ChatRoomsState)
    → ((r : ChatRoomSnapshot) → (f r).room ≡ r.room)
    → find_key ChatRoomSnapshot.room other (change_room created room f s).rooms ≡ (
        if text_eq room other
        then some (
            refresh_room_snapshot (
              f (
                refresh_room_snapshot (
                  with_names (
                    or_default
                      (empty_room created room)
                      (find_key ChatRoomSnapshot.room room s.rooms))))))
        else find_key ChatRoomSnapshot.room other s.rooms)
unfolding change_room
find_key-change_room created room other f s named =
    find_key-update_key ChatRoomSnapshot.room room other (λ r. refresh_room_snapshot (f r))
      (ensure_room_snapshot_mut created room s.rooms)
      (λ r e. unfold refresh_room_snapshot in (named r ∙ e))
    ∙ ground (arith, find_key-ensure_room_snapshot_mut created room other s.rooms)

refresh_room_snapshot-members :
    (r : ChatRoomSnapshot)
    → (refresh_room_snapshot r).members ≡ sort_by (key_lt RoomMember.peer_id) r.members
unfolding refresh_room_snapshot
refresh_room_snapshot-members r = refl

members_of-or_default :
    (created : ℕ) (room : Text) (known : Option ChatRoomSnapshot)
    → (or_default (empty_room created room) known).members ≡ members_of known
members_of-or_default created room none = refl
members_of-or_default created room (some r) = refl

-- After the merge of a snapshot whose members have different peers, the room says of every peer the
-- fresher of what the snapshot and the room said before, the snapshot's word where both are as late,
-- and every other room is what it was.
pub merge_room_snapshot_lem :
    (created : ℕ) (remote : ChatRoomSnapshot) (s : ChatRoomsState)
    → AreDistinct RoomMember.peer_id remote.members
    → ((peer : Text)
        → find_key RoomMember.peer_id peer
            (members_in remote.room (merge_room_snapshot created remote s))
          ≡ freshest
              (find_key RoomMember.peer_id peer remote.members)
              (find_key RoomMember.peer_id peer (members_in remote.room s)))
      × ((other : Text)
          → other ≢ remote.room
          → find_key ChatRoomSnapshot.room other (merge_room_snapshot created remote s).rooms
            ≡ find_key ChatRoomSnapshot.room other s.rooms)
unfolding merge_room_snapshot
merge_room_snapshot_lem created remote s h = (
  λ peer.
      let before = find_key ChatRoomSnapshot.room remote.room s.rooms in
      let old = with_names (or_default (empty_room created remote.room) before) in
      rw
        (
          find_key-change_room created remote.room remote.room (merged remote) s (λ r. refl),
          text_eq_refl remote.room,
        )
        (rw
          (
            refresh_room_snapshot-members (merged remote (refresh_room_snapshot old)),
            find_key-sort_by RoomMember.peer_id peer
                (merge_members remote.members (refresh_room_snapshot old).members),
            find_key-merge_members peer remote.members (refresh_room_snapshot old).members h,
            refresh_room_snapshot-members old,
            find_key-sort_by RoomMember.peer_id peer old.members,
            members_of-or_default created remote.room before,
          )
          refl),
  λ other different. ground (
    arith,
    text_eq_iff remote.room other,
    find_key-change_room created remote.room other (merged remote) s (λ r. refl),
  ),
)
