-- ===== src/Node/Delivery.antt =====
-- A message over an established session reaches the inbox of the other side.
use voidnet.Base.{
  ℕ, suc, ◌≡◌, sym, ap, ◌∙◌, inl, inr, some, [], ◌∷◌, ◌++◌, Text, ok, codes, length, subst,
  absurd_of_err,
}
use voidnet.Base.Map
use voidnet.Identity.{Crypto, Keypair, IsSound, peer_id_string}
use voidnet.Chat.Message.{SignedEncryptedEnvelope, direct_message, ChatJson}
use voidnet.Chat.Signed.{verify_envelope}
use voidnet.Chat.Signed.Fields.{new_envelope-fields}
use voidnet.Chat.Signed.Made.{Made-verify, envelope_made}
use voidnet.Chat.Cipher.{Ciphers, IsSoundCipher}
use voidnet.Chat.Topic.{direct_topic}
use voidnet.Chat.Replay.{check_and_record}
use voidnet.Node.State.{PendingOutboundMessage, ActiveChatSession, publish, Draw, Node}
use voidnet.Node.Session.{build_direct_message_action}
use voidnet.Node.Receive.{entry_of, process_direct_message}
use voidnet.Node.Admit.{admitted, admit-accepts}
use voidnet.Node.Sent.{
  IsReadBack, text_of, sent_over, Seals, build_direct_message_action-cases, open_envelope-Seals,
}

-- The two sides of a session have the same key and the same identifier.
abbrev pub Share : ActiveChatSession → ActiveChatSession → Type 0
Share a b = (b.key ≡ a.key) × (b.snapshot.session_id ≡ a.snapshot.session_id)

module _ {Key Secret Public : Type 0} (c : Crypto Key) (x : Ciphers Secret Public)
    (j : ChatJson) where
  pub process_direct_message-Seals :
      (pair : Keypair Key) (d : Draw Secret) (to : Text) (outbound : PendingOutboundMessage)
      (session : ActiveChatSession) (envelope : SignedEncryptedEnvelope) (env : ℕ → Draw Secret)
      (other : ActiveChatSession) (s : Node Secret)
      → IsSound c pair
      → IsSoundCipher x
      → IsReadBack j
      → length (d.random 2) ≡ 12
      → Seals c x j pair d to outbound session envelope
      → Map.get (peer_id_string c pair) s.chat.active_sessions ≡ some other
      → Share session other
      → (check_and_record
          ((env s.drawn).clock 0)
          (codes "message:" ++ envelope.sender_peer_id)
          envelope.nonce
          envelope.timestamp_unix_ms
          s.chat.replay).0
        ≡ ok tt
      → ((process_direct_message c x j env envelope s).0 ≡ ok tt)
        × ((process_direct_message c x j env envelope s).1.chat.inbox
            ≡ s.chat.inbox ++ entry_of (env s.drawn) envelope (text_of outbound) ∷ [])
  unfolding process_direct_message
  process_direct_message-Seals pair d to outbound session envelope env other s sound ciphers read
        twelve seals active (key, id) accepted =
      let u : Node Secret = record s { drawn = suc s.drawn } in
      let (_, _, _, _, _, _, signed) = seals in
      let (valid, _) =
        Made-verify c j pair (direct_message envelope) sound
          (envelope_made _ _ _ _ _ _ envelope signed) in
      let (from, _, _, _) = new_envelope-fields c j pair _ _ _ _ _ _ envelope signed in
      let found : Map.get envelope.sender_peer_id s.chat.active_sessions ≡ some other =
        rw from active in
      rw
        (
          admit-accepts ((env s.drawn).clock 0) (verify_envelope c j envelope)
              (codes "direct-message") envelope.sender_peer_id
              (codes "message:" ++ envelope.sender_peer_id) envelope.nonce
              envelope.timestamp_unix_ms u valid accepted,
          found,
        )
        (open_envelope-Seals c x j pair d (env s.drawn) to outbound session other envelope
          (admitted _ u) sound.base64_back ciphers read twelve seals key id)

  -- Whatever message a node sends over a session that the other side shares, the other side accepts,
  -- and its inbox gains the message at its end, if its replay protector accepts the envelope. Assumed
  -- is that signatures verify, that what is sealed can be unsealed, that encodings are read back, and
  -- that the nonce of the encryption has twelve bytes.
  pub process_direct_message-build_direct_message_action :
      (pair : Keypair Key) (d : Draw Secret) (to topic : Text) (outbound : PendingOutboundMessage)
      (session after : ActiveChatSession) (envelope : SignedEncryptedEnvelope)
      (sender sent : Node Secret) (env : ℕ → Draw Secret) (other : ActiveChatSession)
      (s : Node Secret)
      → IsSound c pair
      → IsSoundCipher x
      → IsReadBack j
      → length (d.random 2) ≡ 12
      → build_direct_message_action c x j pair d to outbound session sender
        ≡ (ok (publish topic (direct_message envelope), after), sent)
      → Map.get (peer_id_string c pair) s.chat.active_sessions ≡ some other
      → Share session other
      → (check_and_record
          ((env s.drawn).clock 0)
          (codes "message:" ++ envelope.sender_peer_id)
          envelope.nonce
          envelope.timestamp_unix_ms
          s.chat.replay).0
        ≡ ok tt
      → ((process_direct_message c x j env envelope s).0 ≡ ok tt)
        × ((process_direct_message c x j env envelope s).1.chat.inbox
            ≡ s.chat.inbox ++ entry_of (env s.drawn) envelope (text_of outbound) ∷ [])
  process_direct_message-build_direct_message_action pair d to topic outbound session after envelope
        sender sent env other s sound ciphers read twelve built active share accepted =
      elim (build_direct_message_action-cases c x j pair d to outbound session sender) [
        | inl (e, failed) ↦ absurd_of_err (ap (λ r. r.0) (sym failed ∙ built))
        | inr (envelope', seals, made) ↦
            let same : ok
                  (publish (direct_topic to) (direct_message envelope'), sent_over d session)
                ≡ ok (publish topic (direct_message envelope), after) =
              ap (λ r. r.0) (sym made ∙ built) in
            let e : envelope' ≡ envelope = cc in
            process_direct_message-Seals pair d to outbound session envelope env other s sound
              ciphers read twelve (subst (Seals c x j pair d to outbound session) (e) seals) active
              share accepted
      ]
