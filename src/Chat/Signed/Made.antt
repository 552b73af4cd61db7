-- ===== src/Chat/Signed/Made.antt =====
-- The messages that a node makes, and those that it accepts.
use voidnet.Base.{
  ℕ, ◌≡◌, refl, sym, subst, ap, Text, Result, ok, err, map_err, map_err-eq_ok, >>=-eq_ok, ◌>>=◌,
}
use voidnet.Identity.{
  Bytes, Crypto, Keypair, IsSound, peer_id_string, public_key_protobuf_base64, sign_bytes,
  verify_bytes-sign_bytes,
}
use voidnet.Chat.Error.{ChatError}
use voidnet.Chat.Rooms.{ChatRoomSnapshot}
use voidnet.Chat.Message.{
  ChatMessageType, RoomMembershipAction, SessionOffer, SessionAck, SignedEncryptedEnvelope,
  RoomMembershipEvent, RoomStateSnapshot, ChatWireMessage, session_offer, session_ack,
  direct_message, room_membership, room_state_snapshot, ChatJson,
}
use voidnet.Chat.Unsigned.{
  unsigned_offer, unsigned_ack, unsigned_envelope, unsigned_membership, unsigned_snapshot,
}
use voidnet.Chat.Signed.{
  sign_json, verify_json, new_offer, new_ack, new_envelope, new_membership, new_snapshot,
  verify_offer, verify_ack, verify_envelope, verify_membership, verify_snapshot,
}

-- The check that is made of each kind of message.
abbrev pub verify :
    {Key : Type 0} → Crypto Key → ChatJson → ChatWireMessage → Result ChatError (Unit {0})
verify c j (session_offer m) = verify_offer c j m
verify c j (session_ack m) = verify_ack c j m
verify c j (direct_message m) = verify_envelope c j m
verify c j (room_membership m) = verify_membership c j m
verify c j (room_state_snapshot m) = verify_snapshot c j m

-- The peer that a message names as its author.
abbrev pub sender : ChatWireMessage → Text
sender (session_offer m) = m.sender_peer_id
sender (session_ack m) = m.sender_peer_id
sender (direct_message m) = m.sender_peer_id
sender (room_membership m) = m.peer_id
sender (room_state_snapshot m) = m.peer_id

module _ {Key : Type 0} (c : Crypto Key) (j : ChatJson) (pair : Keypair Key) where
  -- The messages that a node with the key pair makes.
  pub data Made : ChatWireMessage → Type 0 where
    offer_made :
        (to : Text) (public : Bytes) (now : ℕ) (session nonce : Bytes) (m : SessionOffer)
        → new_offer c j pair to public now session nonce ≡ ok m
        → Made (session_offer m)
    ack_made :
        (to session : Text) (public : Bytes) (now : ℕ) (nonce : Bytes) (m : SessionAck)
        → new_ack c j pair to session public now nonce ≡ ok m
        → Made (session_ack m)
    envelope_made :
        (to session : Text) (kind : ChatMessageType) (payload : Bytes) (now : ℕ) (nonce : Bytes)
        (m : SignedEncryptedEnvelope)
        → new_envelope c j pair to session kind payload now nonce ≡ ok m
        → Made (direct_message m)
    membership_made :
        (room : Text) (action : RoomMembershipAction) (now : ℕ) (nonce : Bytes)
        (m : RoomMembershipEvent)
        → new_membership c j pair room action now nonce ≡ ok m
        → Made (room_membership m)
    snapshot_made :
        (room : ChatRoomSnapshot) (now : ℕ) (nonce : Bytes) (m : RoomStateSnapshot)
        → new_snapshot c j pair room now nonce ≡ ok m
        → Made (room_state_snapshot m)

module _ {Key : Type 0} (c : Crypto Key) where
  verify_json-sign_json :
      (pair : Keypair Key) (json : Result Text Bytes) (s : Text)
      → IsSound c pair
      → sign_json c pair json ≡ ok s
      → verify_json c (peer_id_string c pair) (public_key_protobuf_base64 c pair) json s ≡ ok tt
  unfolding sign_json verify_json
  verify_json-sign_json pair (err e) s sound h = cc
  verify_json-sign_json pair (ok payload) s sound h =
      let (b, signed, same) =
        >>=-eq_ok (map_err ChatError.identity (sign_bytes c pair payload)) _ h in
      let text : c.base64_encode b ≡ s = cc in
      rw (sym text) (
        ap (map_err ChatError.identity) (
          verify_bytes-sign_bytes c pair payload b sound
            (map_err-eq_ok ChatError.identity _ signed)))

-- A message whose fields are signed, from its making.
signed_lem :
    {Key A : Type 0} (c : Crypto Key) (pair : Keypair Key) (json : Result Text Bytes)
    (seal : Text → A) (P : A → Type 0) (m : A)
    → IsSound c pair
    → (sign_json c pair json >>= λ s. ok (seal s)) ≡ Result.ok m
    → ((s : Text)
        → verify_json c (peer_id_string c pair) (public_key_protobuf_base64 c pair) json s ≡ ok tt
        → P (seal s))
    → P m
signed_lem c pair json seal P m sound h use_signature =
    let (s, signed, same) = >>=-eq_ok (sign_json c pair json) (λ s. ok (seal s)) h in
    let e : seal s ≡ m = cc in
    subst P (e) (use_signature s (verify_json-sign_json c pair json s sound signed))

-- Every message that a node makes is accepted by the check of its kind, and names the node as its
-- author, if the node's signatures verify under its own key and encodings are read back.
pub Made-verify :
    {Key : Type 0} (c : Crypto Key) (j : ChatJson) (pair : Keypair Key) (m : ChatWireMessage)
    → IsSound c pair
    → Made c j pair m
    → (verify c j m ≡ ok tt) × (sender m ≡ peer_id_string c pair)
unfolding new_offer verify_offer unsigned_offer new_ack verify_ack unsigned_ack new_envelope
    verify_envelope unsigned_envelope new_membership verify_membership unsigned_membership
    new_snapshot verify_snapshot unsigned_snapshot
Made-verify c j pair _ sound (offer_made _ _ _ _ _ m h) =
    signed_lem c pair _ _
      (λ m. (verify_offer c j m ≡ ok tt) × (m.sender_peer_id ≡ peer_id_string c pair)) _ sound h
      (λ s v. (v, refl))
Made-verify c j pair _ sound (ack_made _ _ _ _ _ m h) =
    signed_lem c pair _ _
      (λ m. (verify_ack c j m ≡ ok tt) × (m.sender_peer_id ≡ peer_id_string c pair)) _ sound h
      (λ s v. (v, refl))
Made-verify c j pair _ sound (envelope_made _ _ _ _ _ _ m h) =
    signed_lem c pair _ _
      (λ m. (verify_envelope c j m ≡ ok tt) × (m.sender_peer_id ≡ peer_id_string c pair)) _ sound h
      (λ s v. (v, refl))
Made-verify c j pair _ sound (membership_made _ _ _ _ m h) =
    signed_lem c pair _ _
      (λ m. (verify_membership c j m ≡ ok tt) × (m.peer_id ≡ peer_id_string c pair)) _ sound h
      (λ s v. (v, refl))
Made-verify c j pair _ sound (snapshot_made _ _ _ m h) =
    signed_lem c pair _ _
      (λ m. (verify_snapshot c j m ≡ ok tt) × (m.peer_id ≡ peer_id_string c pair)) _ sound h
      (λ s v. (v, refl))
