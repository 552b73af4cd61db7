-- ===== src/Node/Authentic.antt =====
-- What the inbox of a node accepts.
use voidnet.Base.{
  ℕ, suc, ◌≡◌, refl, ◌⊎◌, inl, inr, Option, none, some, [], ◌∷◌, ◌++◌, Text, text_eq, text_eq_sound,
  ok, codes, Result-cases, Option-cases, Bool-cases,
}
use voidnet.Base.Map
use voidnet.Identity.{Bytes, Crypto}
use voidnet.Chat.Message.{EncryptedPayload, ChatTextPayload, SignedEncryptedEnvelope, ChatJson}
use voidnet.Chat.Signed.{verify_envelope, payload_bytes}
use voidnet.Chat.Cipher.{Ciphers, decrypt_payload, deserialize_payload}
use voidnet.Chat.Replay.{check_and_record}
use voidnet.Node.State.{ActiveChatSession, Draw, Node}
use voidnet.Node.Receive.{
  entry_of, notify, log_room_event, deliver, after_decryption, open_envelope,
  process_direct_message,
}
use voidnet.Node.Admit.{admitted, admit-cases}

module _ {Secret : Type 0} {Key : Type 0} (c : Crypto Key) where
  pub deliver-inbox :
      (d : Draw Secret) (envelope : SignedEncryptedEnvelope) (text : ChatTextPayload)
      (s : Node Secret)
      → (deliver c d envelope text s).1.chat.inbox ≡ s.chat.inbox ++ entry_of d envelope text ∷ []
  unfolding deliver notify log_room_event
  deliver-inbox d envelope text s = room text.room
    where
      room :
          (r : Option Text)
          → (deliver c d envelope (record { room = r; body = text.body }) s).1.chat.inbox
            ≡ s.chat.inbox ++ entry_of d envelope (record { room = r; body = text.body }) ∷ []
      room none = refl
      room (some name) = refl

  pub deliver-ok :
      (d : Draw Secret) (envelope : SignedEncryptedEnvelope) (text : ChatTextPayload)
      (s : Node Secret)
      → (deliver c d envelope text s).0 ≡ ok tt
  unfolding deliver notify log_room_event
  deliver-ok d envelope text s = room text.room
    where
      room :
          (r : Option Text)
          → (deliver c d envelope (record { room = r; body = text.body }) s).0 ≡ ok tt
      room none = refl
      room (some name) = refl

module _ {Key Secret Public : Type 0} (c : Crypto Key) (x : Ciphers Secret Public)
    (j : ChatJson) where
  -- How the content of an envelope is read under the key of a session.
  abbrev pub Reads : ActiveChatSession → SignedEncryptedEnvelope → ChatTextPayload → Type 0
  Reads session envelope text =
      (bytes : Bytes) × (encrypted : EncryptedPayload) × (plaintext : Bytes)
      × (session.snapshot.session_id ≡ envelope.session_id)
      × (payload_bytes c j envelope ≡ ok bytes)
      × (deserialize_payload j bytes ≡ ok encrypted)
      × (decrypt_payload x session.key encrypted ≡ ok plaintext)
      × (j.text_from_json plaintext ≡ ok text)

  open_envelope-cases :
      (d : Draw Secret) (envelope : SignedEncryptedEnvelope) (session : ActiveChatSession)
      (s : Node Secret)
      → ((open_envelope c x j d envelope (some session) s).1.chat.inbox ≡ s.chat.inbox)
        ⊎ ((text : ChatTextPayload) × Reads session envelope text
            × ((open_envelope c x j d envelope (some session) s).1.chat.inbox
                ≡ s.chat.inbox ++ entry_of d envelope text ∷ []))
  unfolding open_envelope after_decryption
  open_envelope-cases d envelope session s =
      elim (Bool-cases (text_eq session.snapshot.session_id envelope.session_id)) [
        | inr other ↦ rw other (inl refl)
        | inl same ↦ rw same (elim (Result-cases (payload_bytes c j envelope)) [
          | inr (e, bad) ↦ rw bad (inl refl)
          | inl (bytes, decoded) ↦ elim (Result-cases (deserialize_payload j bytes)) [
            | inr (e, bad) ↦ rw (decoded, bad) (inl refl)
            | inl (encrypted, readable) ↦
                elim (Result-cases (decrypt_payload x session.key encrypted)) [
                  | inr (e, bad) ↦ rw (decoded, readable, bad) (inl refl)
                  | inl (plaintext, decrypts) ↦ elim (Result-cases (j.text_from_json plaintext)) [
                    | inr (e, bad) ↦ rw (decoded, readable, decrypts, bad) (inl refl)
                    | inl (text, says) ↦
                        rw (decoded, readable, decrypts, says)
                          (inr (
                            text,
                            (
                              bytes,
                              encrypted,
                              plaintext,
                              text_eq_sound _ _ same,
                              refl,
                              readable,
                              decrypts,
                              says,
                            ),
                            deliver-inbox c d envelope text s,
                          ))
                  ]
                ]
          ]
        ])
      ]

  -- A direct message either leaves the inbox as it is, or adds one entry at its end; it adds one only if
  -- the envelope verifies, the replay protector accepts it, and its author has an active session under
  -- whose identifier and key its content decrypts to the text of the entry.
  pub process_direct_message-inbox :
      (env : ℕ → Draw Secret) (envelope : SignedEncryptedEnvelope) (s : Node Secret)
      → let after = (process_direct_message c x j env envelope s).1.chat.inbox in
        let d = env s.drawn in
        (after ≡ s.chat.inbox)
        ⊎ ((session : ActiveChatSession) × (text : ChatTextPayload) × (verify_envelope c j envelope
              ≡ ok tt)
            × ((check_and_record
                  (d.clock 0)
                  (codes "message:" ++ envelope.sender_peer_id)
                  envelope.nonce
                  envelope.timestamp_unix_ms
                  s.chat.replay).0
                ≡ ok tt)
            × (Map.get envelope.sender_peer_id s.chat.active_sessions ≡ some session)
            × Reads session envelope text
            × (after ≡ s.chat.inbox ++ entry_of d envelope text ∷ []))
  unfolding process_direct_message
  process_direct_message-inbox env envelope s =
      let d = env s.drawn in
      let u : Node Secret = record s { drawn = suc s.drawn } in
      elim (admit-cases (d.clock 0) (verify_envelope c j envelope) (codes "direct-message")
        envelope.sender_peer_id (codes "message:" ++ envelope.sender_peer_id) envelope.nonce
        envelope.timestamp_unix_ms u) [
          | inl (replay, t, refused, kept) ↦ rw refused (inl (rw kept refl))
          | inr (verified, accepted, admits) ↦
              elim (Option-cases (Map.get envelope.sender_peer_id s.chat.active_sessions)) [
                | inl absent ↦ rw (admits, absent) (inl (unfold open_envelope in refl))
                | inr (session, active) ↦
                    rw (admits, active)
                      (elim (open_envelope-cases d envelope session (admitted _ u)) [
                        | inl same ↦ inl same
                        | inr (text, reads, added) ↦
                            inr (session, text, verified, accepted, refl, reads, added)
                      ])
              ]
        ]
