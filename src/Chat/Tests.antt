-- ===== src/Chat/Tests.antt =====
-- Runs of the chat and instances of the theorems on it.
use voidnet.Base.{
  ◌≡◌, ◌≢◌, refl, [], ◌∷◌, ◌++◌, true, false, not, Option, none, some, List, Text, ok, err, codes,
  text_eq, text_eq_refl, count, arith, map, ◌&&◌,
}
use voidnet.Base.Map
use voidnet.Base.Keyed.{find_key}
use voidnet.Identity.{
  Crypto, Keypair, IsSound, peer_id_string, sign_bytes, public_key_protobuf_base64,
}
use voidnet.Chat.Message.{
  RoomMembershipEvent, room_membership, join, ChatJson, chat_protocol_version,
}
use voidnet.Chat.Rooms.{
  RoomMember, ChatRoomSnapshot, ChatRoomsState, no_rooms, online, merge_room_snapshot,
  upsert_room_member,
}
use voidnet.Chat.Rooms.WellFormed.{
  AreWellFormed, RoomCall, upserted, joined_set, recorded, merged_in, run_all,
  run_all-AreWellFormed,
}
use voidnet.Chat.Rooms.Merge.{members_in, freshest, merge_room_snapshot_lem}
use voidnet.Chat.Inbox.{ChatInboxEntry, mark_inbox_read, unread_count, counts, matches_room}
use voidnet.Chat.Inbox.Read.{as_read, mark_inbox_read_lem}
use voidnet.Chat.Signed.{new_membership, sign_json, random_token}
use voidnet.Chat.Signed.Made.{verify, sender, membership_made, Made-verify}
use voidnet.Chat.Replay.{ReplayProtector, new, check_and_record}
use voidnet.Chat.Replay.Refinement.{Call, handle, answers, answers_log, answers-answers_log}
use voidnet.Chat.Replay.Safety.{here, call, accepted_once}

-- A message, and the same one once more.
abbrev hello : Call
hello = record { now = 500; scope = codes "offer:a"; nonce = codes "n"; timestamp = 500 }

abbrev hello_again : Call
hello_again = record { now = 600; scope = codes "offer:a"; nonce = codes "n"; timestamp = 500 }

abbrev other : Call
other = record { now = 550; scope = codes "offer:b"; nonce = codes "n"; timestamp = 540 }

answers-answers_log_example :
    answers (new 100) (hello ∷ other ∷ hello_again ∷ [])
    ≡ answers_log 100 [] (hello ∷ other ∷ hello_again ∷ [])
answers-answers_log_example =
    answers-answers_log 100 (hello ∷ other ∷ hello_again ∷ [])
      (omega arith, (omega arith, (omega arith, tt)))

-- The nonce of a message whose timestamp has fallen below the window is free again.
abbrev early : Call
early = record { now = 500; scope = codes "offer:a"; nonce = codes "n"; timestamp = 400 }

abbrev renewed : Call
renewed = record { now = 600; scope = codes "offer:a"; nonce = codes "n"; timestamp = 650 }

renewed-accepted : answers (new 100) (early ∷ renewed ∷ []) ≡ ok tt ∷ ok tt ∷ []
unfolding answers check_and_record Map.get Map.retain Map.insert
renewed-accepted = refl

hello-accepted : (handle (new 100) hello).0 ≡ ok tt
unfolding check_and_record Map.get Map.retain
hello-accepted = refl

abbrev after_hello : ReplayProtector
after_hello = (handle (new 100) hello).1

accepted_once_example : (handle (handle after_hello other).1 hello_again).0 ≢ ok tt
accepted_once_example =
    accepted_once 100 0 (new 100) hello (handle after_hello other).1 550 hello_again here
      (omega arith) hello-accepted (call here other (omega arith)) (omega arith) refl refl refl

-- A room that a remote snapshot adds a member to.
abbrev operators : Text
operators = codes "operators"

abbrev remote : ChatRoomSnapshot
remote = record {
  room = operators;
  joined = false;
  members = record { peer_id = codes "b"; presence = online; last_seen_unix_ms = 20 } ∷ [];
  room_id = operators;
  room_name = operators;
  active_members = 1;
  event_history = [];
  last_changed_unix_ms = 20;
}

abbrev calls : List RoomCall
calls =
    joined_set 10 10 operators true
    ∷ upserted 10 10 operators (codes "b") false
    ∷ recorded 11 11 (codes "e") operators (codes "room.join") (codes "a") none
    ∷ merged_in 12 remote
    ∷ []

run_all-AreWellFormed_example : AreWellFormed (run_all calls no_rooms).rooms
run_all-AreWellFormed_example = run_all-AreWellFormed calls

abbrev before_merge : ChatRoomsState
before_merge = upsert_room_member 10 10 operators (codes "b") false no_rooms

merge_room_snapshot_lem_example :
    ((peer : Text)
      → find_key RoomMember.peer_id peer
          (members_in operators (merge_room_snapshot 12 remote before_merge))
        ≡ freshest
            (find_key RoomMember.peer_id peer remote.members)
            (find_key RoomMember.peer_id peer (members_in operators before_merge)))
    × ((another : Text)
        → another ≢ operators
        → find_key ChatRoomSnapshot.room another (merge_room_snapshot 12 remote before_merge).rooms
          ≡ find_key ChatRoomSnapshot.room another before_merge.rooms)
merge_room_snapshot_lem_example = merge_room_snapshot_lem 12 remote before_merge (refl, tt)

-- A message of the room, and one that is not.
abbrev entry : Option Text → ChatInboxEntry
entry room = record {
  message_id = codes "m";
  from_peer_id = codes "b";
  room = room;
  body = codes "hi";
  received_at_unix_ms = 1;
  session_id = codes "s";
  signature_verified = true;
  unread = true;
  room_name = room;
}

abbrev two_messages : List ChatInboxEntry
two_messages = entry (some operators) ∷ entry none ∷ []

mark_inbox_read_lem_example :
    ((mark_inbox_read (some operators) two_messages).0 ≡ unread_count (some operators) two_messages)
    × (unread_count (some operators) (mark_inbox_read (some operators) two_messages).1 ≡ 0)
    × (unread_count none (mark_inbox_read (some operators) two_messages).1
        ≡ count (λ m. counts none m && not (matches_room (some operators) m.room)) two_messages)
    × (map as_read (mark_inbox_read (some operators) two_messages).1 ≡ map as_read two_messages)
mark_inbox_read_lem_example = mark_inbox_read_lem (some operators) none two_messages

-- Keys are texts that serve as their own encoding, and a signature is the key before the payload.
abbrev plain_crypto : Crypto Text
plain_crypto = record {
  base64_encode = λ b. b;
  base64_decode = λ t. ok t;
  encode_protobuf = λ k. k;
  try_decode_protobuf = λ b. ok b;
  to_peer_id = λ k. k;
  key_verify = λ k payload s. text_eq s (k ++ payload);
}

abbrev signer : Keypair Text
signer = record { public = codes "alice"; key_sign = λ payload. ok (codes "alice" ++ payload) }

signer-IsSound : IsSound plain_crypto signer
signer-IsSound = record {
  base64_back = λ b. refl;
  protobuf_back = λ k. refl;
  verifies = λ payload s h. ground (arith, text_eq_refl s);
}

-- The payload of a signed message is its nonce.
abbrev nonces : ChatJson
nonces = record {
  offer_json = λ m. ok m.nonce;
  ack_json = λ m. ok m.nonce;
  envelope_json = λ m. ok m.nonce;
  membership_json = λ m. ok m.nonce;
  snapshot_json = λ m. ok m.nonce;
  encrypted_json = λ p. ok p.ciphertext;
  encrypted_from_json = λ b. err [];
  text_json = λ t. ok t.body;
  text_from_json = λ b. err [];
}

abbrev joining : RoomMembershipEvent
joining = record {
  protocol_version = chat_protocol_version;
  room = operators;
  peer_id = codes "alice";
  sender_public_key = codes "alice";
  action = join;
  timestamp_unix_ms = 7;
  nonce = codes "n";
  signature = codes "alicen";
}

new_membership-joining :
    new_membership plain_crypto nonces signer operators join 7 (codes "n") ≡ ok joining
unfolding new_membership sign_json sign_bytes random_token peer_id_string public_key_protobuf_base64
new_membership-joining = refl

Made-verify_example :
    (verify plain_crypto nonces (room_membership joining) ≡ ok tt)
    × (sender (room_membership joining) ≡ peer_id_string plain_crypto signer)
Made-verify_example =
    Made-verify plain_crypto nonces signer (room_membership joining) signer-IsSound
      (membership_made operators join 7 (codes "n") joining new_membership-joining)
