-- ===== src/Node/Sent.antt =====
-- What the node sends over a session, and that it is read at the other side.
use voidnet.Base.{
  ◌≡◌, refl, ◌⊎◌, inl, inr, true, some, [], ◌∷◌, ◌++◌, Text, ok, err, map_err-eq_ok, Result-cases,
  length, text_eq, text_eq_refl,
}
use voidnet.Identity.{Bytes, Crypto, Keypair}
use voidnet.Chat.Error.{ChatError}
use voidnet.Chat.Message.{
  EncryptedPayload, ChatTextPayload, SignedEncryptedEnvelope, direct_message, ChatJson,
}
use voidnet.Chat.Signed.{new_envelope, payload_bytes}
use voidnet.Chat.Signed.Fields.{new_envelope-fields}
use voidnet.Chat.Cipher.{
  Ciphers, IsSoundCipher, encrypt_payload, decrypt_payload, serialize_payload, deserialize_payload,
}
use voidnet.Chat.Cipher.Session.{decrypt_payload-encrypt_payload}
use voidnet.Chat.Topic.{direct_topic}
use voidnet.Node.State.{
  PendingOutboundMessage, ActiveChatSession, publish, TransportError, Draw, Node,
}
use voidnet.Node.Session.{message_type_of, build_direct_message_action}
use voidnet.Node.Receive.{entry_of, open_envelope, after_decryption}
use voidnet.Node.Authentic.{deliver-inbox, deliver-ok}

-- What serde_json documents of the two records that are read back.
pub record IsReadBack (j : ChatJson) : Type 0 where
  pub text_back :
      (t : ChatTextPayload) (b : Bytes) → j.text_json t ≡ ok b → j.text_from_json b ≡ ok t
  pub encrypted_back :
      (p : EncryptedPayload) (b : Bytes)
      → j.encrypted_json p ≡ ok b
      → j.encrypted_from_json b ≡ ok p

abbrev pub text_of : PendingOutboundMessage → ChatTextPayload
text_of outbound = record { room = outbound.room; body = outbound.body }

-- the session after a message was sent over it
abbrev pub sent_over : {Secret : Type 0} → Draw Secret → ActiveChatSession → ActiveChatSession
sent_over d session = record session {
  snapshot = record session.snapshot { last_activity_unix_ms = d.clock 3 };
}

module _ {Key Secret Public : Type 0} (c : Crypto Key) (x : Ciphers Secret Public) (j : ChatJson)
    (pair : Keypair Key) where
  -- The steps that make the envelope of a message.
  abbrev pub Seals :
      Draw Secret
      → (peer_id : Text) → PendingOutboundMessage
      → ActiveChatSession
      → SignedEncryptedEnvelope
      → Type 0
  Seals d peer_id outbound session envelope =
      (bytes : Bytes) × (encrypted : EncryptedPayload) × (serialized : Bytes) × (j.text_json
          (text_of outbound)
        ≡ ok bytes)
      × (encrypt_payload x (d.random 2) session.key bytes ≡ ok encrypted)
      × (serialize_payload j encrypted ≡ ok serialized)
      × (new_envelope c j pair peer_id session.snapshot.session_id (message_type_of outbound.room)
            serialized (d.clock 2) (d.random 1)
          ≡ ok envelope)

  pub build_direct_message_action-cases :
      (d : Draw Secret) (peer_id : Text) (outbound : PendingOutboundMessage)
      (session : ActiveChatSession) (s : Node Secret)
      → ((e : TransportError) × (build_direct_message_action c x j pair d peer_id outbound session s
            ≡ (err e, s)))
        ⊎ ((envelope : SignedEncryptedEnvelope) × Seals d peer_id outbound session envelope
            × (build_direct_message_action c x j pair d peer_id outbound session s ≡ (
              ok (publish (direct_topic peer_id) (direct_message envelope), sent_over d session),
              s,
            )))
  unfolding build_direct_message_action
  build_direct_message_action-cases d peer_id outbound session s =
      elim (Result-cases (j.text_json (text_of outbound))) [
        | inr (e, bad) ↦ rw bad (inl (_, refl))
        | inl (bytes, written) ↦
            elim (Result-cases (encrypt_payload x (d.random 2) session.key bytes)) [
              | inr (e, bad) ↦ rw (written, bad) (inl (_, refl))
              | inl (encrypted, sealed) ↦ elim (Result-cases (serialize_payload j encrypted)) [
                | inr (e, bad) ↦ rw (written, sealed, bad) (inl (_, refl))
                | inl (serialized, packed) ↦
                    elim (Result-cases (
                      new_envelope c j pair peer_id session.snapshot.session_id
                        (message_type_of outbound.room) serialized (d.clock 2) (d.random 1))) [
                          | inr (e, bad) ↦ rw (written, sealed, packed, bad) (inl (_, refl))
                          | inl (envelope, signed) ↦ inr (
                            envelope,
                            (bytes, encrypted, serialized, written, sealed, packed, signed),
                            rw (written, sealed, packed, signed) refl,
                          )
                        ]
              ]
            ]
      ]

module _ {Key Secret Public : Type 0} (c : Crypto Key) (x : Ciphers Secret Public) (j : ChatJson)
    (pair : Keypair Key) where
  -- A sealed message is opened with the same session: its text is the message.
  pub open_envelope-Seals :
      (d e : Draw Secret) (peer_id : Text) (outbound : PendingOutboundMessage)
      (session other : ActiveChatSession) (envelope : SignedEncryptedEnvelope) (s : Node Secret)
      → ((b : Bytes) → c.base64_decode (c.base64_encode b) ≡ ok b)
      → IsSoundCipher x
      → IsReadBack j
      → length (d.random 2) ≡ 12
      → Seals c x j pair d peer_id outbound session envelope
      → other.key ≡ session.key
      → other.snapshot.session_id ≡ session.snapshot.session_id
      → ((open_envelope c x j e envelope (some other) s).0 ≡ ok tt)
        × ((open_envelope c x j e envelope (some other) s).1.chat.inbox
            ≡ s.chat.inbox ++ entry_of e envelope (text_of outbound) ∷ [])
  unfolding open_envelope after_decryption
  open_envelope-Seals d e peer_id outbound session other envelope s back sound read twelve
        (bytes, encrypted, serialized, written, sealed, packed, signed) same_key same_session =
      let (_, in_session, holds, _) = new_envelope-fields c j pair _ _ _ _ _ _ envelope signed in
      let same : text_eq other.snapshot.session_id envelope.session_id ≡ true =
        rw (same_session, in_session) (text_eq_refl session.snapshot.session_id) in
      let decoded : payload_bytes c j envelope ≡ ok serialized =
        unfold payload_bytes in rw (holds, back serialized) refl in
      let readable : deserialize_payload j serialized ≡ ok encrypted =
        unfold deserialize_payload serialize_payload in
        rw (read.encrypted_back encrypted serialized (map_err-eq_ok ChatError.json _ packed))
          refl in
      let decrypts : decrypt_payload x other.key encrypted ≡ ok bytes = rw same_key (
        decrypt_payload-encrypt_payload x (d.random 2) session.key bytes encrypted sound twelve
          sealed) in
      rw (same, decoded, readable, decrypts, read.text_back (text_of outbound) bytes written)
        (
          deliver-ok c e envelope (text_of outbound) s,
          deliver-inbox c e envelope (text_of outbound) s,
        )
