-- ===== src/Chat/Inbox.antt =====
-- The inbox and the notifications of the chat, apps/void-chat/src/lib.rs.
pub mod Read
use voidnet.Base.{
  ℕ, suc, ◌++◌, ◌∷◌, [], Bool, true, false, ◌&&◌, Option, none, some, List, Text, text_eq, ltb,
  count, sort_by, keep_last, if◌then◌else◌,
}

pub record ChatInboxEntry : Type 0 where
  pub message_id : Text
  pub from_peer_id : Text
  pub room : Option Text
  pub body : Text
  pub received_at_unix_ms : ℕ
  pub session_id : Text
  pub signature_verified : Bool
  pub unread : Bool
  pub room_name : Option Text

pub record ChatNotification : Type 0 where
  pub notification_id : Text
  pub kind : Text
  pub message : Text
  pub room : Option Text
  pub peer_id : Option Text
  pub created_at_unix_ms : ℕ
  pub unread : Bool

abbrev pub chat_notification_limit : ℕ
chat_notification_limit = 64

-- `room.as_deref() == Some(r)`
abbrev pub is_in : Text → Option Text → Bool
is_in r none = false
is_in r (some room) = text_eq room r

-- `matches_room`: no room asked for is every message
abbrev pub matches_room : Option Text → Option Text → Bool
matches_room none room = true
matches_room (some r) room = is_in r room

-- The loop that clears `unread`, for items of either kind, with the number of items cleared.
module _ {A : Type 0} (unread : A → Bool) (room : A → Option Text) (read : A → A) where
  unfoldable pub clear_unread : Option Text → List A → ℕ × List A
  clear_unread r [] = (0, [])
  clear_unread r (m ∷ messages) =
      let rest = clear_unread r messages in
      if matches_room r (room m) && unread m
      then (suc rest.0, read m ∷ rest.1)
      else (rest.0, m ∷ rest.1)

unfoldable pub mark_inbox_read : Option Text → List ChatInboxEntry → ℕ × List ChatInboxEntry
mark_inbox_read room messages =
    clear_unread ChatInboxEntry.unread ChatInboxEntry.room (λ m. record m { unread = false }) room
      messages

-- one filter after the other
abbrev pub counts : Option Text → ChatInboxEntry → Bool
counts room m = m.unread && matches_room room m.room

unfoldable pub unread_count : Option Text → List ChatInboxEntry → ℕ
unread_count room messages = count (counts room) messages

abbrev pub created_before : ChatNotification → ChatNotification → Bool
created_before a b = ltb a.created_at_unix_ms b.created_at_unix_ms

-- with the number of notifications that are unread; `notification_id` is the random token
unfoldable pub push_notification :
    (notification_id : Text) (now : ℕ) (kind : Text) (room peer_id : Option Text) (message : Text)
    → List ChatNotification
    → ℕ × List ChatNotification
push_notification notification_id now kind room peer_id message notifications =
    let added : ChatNotification = record {
      notification_id = notification_id;
      kind = kind;
      message = message;
      room = room;
      peer_id = peer_id;
      created_at_unix_ms = now;
      unread = true;
    } in
    let kept =
      keep_last chat_notification_limit (sort_by created_before (notifications ++ added ∷ [])) in
    (count ChatNotification.unread kept, kept)

unfoldable pub mark_notifications_read :
    Option Text → List ChatNotification → ℕ × List ChatNotification
mark_notifications_read room notifications =
    clear_unread ChatNotification.unread ChatNotification.room (λ n. record n { unread = false })
      room notifications
