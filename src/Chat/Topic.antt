-- ===== src/Chat/Topic.antt =====
-- The names of the topics that chat messages are published under, apps/void-chat/src/lib.rs.
use voidnet.Base.{
  ◌≡◌, refl, ◌++◌, Bool, true, false, Option, none, some, Text, codes, strip_prefix,
  strip_prefix-eq_some,
}

abbrev pub chat_direct_topic_prefix : Text
chat_direct_topic_prefix = codes "void.chat.peer."

abbrev pub chat_room_topic_prefix : Text
chat_room_topic_prefix = codes "void.chat.room."

unfoldable pub direct_topic : Text → Text
direct_topic peer_id = chat_direct_topic_prefix ++ peer_id

unfoldable pub room_topic : Text → Text
room_topic room = chat_room_topic_prefix ++ room

abbrev is_some : Option Text → Bool
is_some none = false
is_some (some _) = true

unfoldable pub is_room_topic : Text → Bool
is_room_topic topic = is_some (strip_prefix chat_room_topic_prefix topic)

unfoldable pub room_from_topic : Text → Option Text
room_from_topic topic = strip_prefix chat_room_topic_prefix topic

unfoldable pub direct_peer_from_topic : Text → Option Text
direct_peer_from_topic topic = strip_prefix chat_direct_topic_prefix topic

-- The topic of a room is read back as that room and as no peer, and the topic of a peer as that peer
-- and as no room.
pub room_from_topic-room_topic :
    (name : Text)
    → (room_from_topic (room_topic name) ≡ some name)
      × (is_room_topic (room_topic name) ≡ true)
      × (direct_peer_from_topic (room_topic name) ≡ none)
      × (direct_peer_from_topic (direct_topic name) ≡ some name)
      × (room_from_topic (direct_topic name) ≡ none)
      × (is_room_topic (direct_topic name) ≡ false)
unfolding room_from_topic room_topic is_room_topic direct_peer_from_topic direct_topic strip_prefix
room_from_topic-room_topic name = (refl, refl, refl, refl, refl, refl)

-- A topic names at most one room: two topics that are read as the same room are the same.
pub room_from_topic_injective :
    (s t room : Text) → room_from_topic s ≡ some room → room_from_topic t ≡ some room → s ≡ t
unfolding room_from_topic
room_from_topic_injective s t room h k =
    rw
      (
        strip_prefix-eq_some chat_room_topic_prefix s room h,
        strip_prefix-eq_some chat_room_topic_prefix t room k,
      )
      refl
