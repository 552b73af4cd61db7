-- ===== src/Chat/Inbox/Read.antt =====
-- What marking as read does, against the counts of what is unread.
use voidnet.Base.{◌≡◌, refl, ◌∷◌, [], false, not, ◌&&◌, Option, List, Text, count, arith, map}
use voidnet.Chat.Inbox.{
  ChatInboxEntry, matches_room, clear_unread, mark_inbox_read, counts, unread_count,
}

-- A message without its mark.
abbrev pub as_read : ChatInboxEntry → ChatInboxEntry
as_read m = record m { unread = false }

-- Marking a room as read, or all rooms, answers how many of its messages were unread; then none of
-- them is unread, as many messages of any other choice are unread as were outside of it, and no
-- message is changed but for its mark.
pub mark_inbox_read_lem :
    (r q : Option Text) (messages : List ChatInboxEntry)
    → ((mark_inbox_read r messages).0 ≡ unread_count r messages)
      × (unread_count r (mark_inbox_read r messages).1 ≡ 0)
      × (unread_count q (mark_inbox_read r messages).1
          ≡ count (λ m. counts q m && not (matches_room r m.room)) messages)
      × (map as_read (mark_inbox_read r messages).1 ≡ map as_read messages)
unfolding mark_inbox_read clear_unread unread_count count
mark_inbox_read_lem r q [] = (refl, refl, refl, refl)
mark_inbox_read_lem r q (m ∷ messages) = ground (arith, mark_inbox_read_lem r q messages)
