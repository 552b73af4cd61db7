-- ===== src/Chat/Signed/Fields.antt =====
-- What the fields of a message that a node makes are.
use voidnet.Base.{ℕ, ◌≡◌, refl, Text, Result, ok, err, ◌>>=◌, subst, absurd_of_err}
use voidnet.Identity.{Bytes, Crypto, Keypair, peer_id_string}
use voidnet.Chat.Error.{ChatError}
use voidnet.Chat.Message.{
  ChatMessageType, SessionOffer, SessionAck, SignedEncryptedEnvelope, ChatJson,
}
use voidnet.Chat.Signed.{random_token, new_offer, new_ack, new_envelope}

-- A fact of every signed form of a message is a fact of the message.
of_signed :
    {A : Type 0} (signature : Result ChatError Text) (seal : Text → A) (P : A → Type 0) (m : A)
    → (signature >>= λ s. ok (seal s)) ≡ Result.ok m
    → ((s : Text) → P (seal s))
    → P m
of_signed (ok s) seal P m h p = let e : seal s ≡ m = cc in subst P (e) (p s)
of_signed (err e) seal P m h p = absurd_of_err h

module _ {Key : Type 0} (c : Crypto Key) (j : ChatJson) (pair : Keypair Key) where
  pub new_offer-fields :
      (to : Text) (public : Bytes) (now : ℕ) (session nonce : Bytes) (m : SessionOffer)
      → new_offer c j pair to public now session nonce ≡ ok m
      → (m.sender_peer_id ≡ peer_id_string c pair)
        × (m.session_id ≡ random_token c session)
        × (m.ephemeral_public_key ≡ c.base64_encode public)
        × (m.recipient_peer_id ≡ to)
  unfolding new_offer random_token
  new_offer-fields to public now session nonce m h =
      of_signed _ _
        (λ m.
          (m.sender_peer_id ≡ peer_id_string c pair)
          × (m.session_id ≡ random_token c session)
          × (m.ephemeral_public_key ≡ c.base64_encode public)
          × (m.recipient_peer_id ≡ to))
        m h (λ s. (refl, refl, refl, refl))

  pub new_ack-fields :
      (to session : Text) (public : Bytes) (now : ℕ) (nonce : Bytes) (m : SessionAck)
      → new_ack c j pair to session public now nonce ≡ ok m
      → (m.sender_peer_id ≡ peer_id_string c pair)
        × (m.session_id ≡ session)
        × (m.ephemeral_public_key ≡ c.base64_encode public)
        × (m.recipient_peer_id ≡ to)
  unfolding new_ack
  new_ack-fields to session public now nonce m h =
      of_signed _ _
        (λ m.
          (m.sender_peer_id ≡ peer_id_string c pair)
          × (m.session_id ≡ session)
          × (m.ephemeral_public_key ≡ c.base64_encode public)
          × (m.recipient_peer_id ≡ to))
        m h (λ s. (refl, refl, refl, refl))

  pub new_envelope-fields :
      (to session : Text) (kind : ChatMessageType) (payload : Bytes) (now : ℕ) (nonce : Bytes)
      (m : SignedEncryptedEnvelope)
      → new_envelope c j pair to session kind payload now nonce ≡ ok m
      → (m.sender_peer_id ≡ peer_id_string c pair)
        × (m.session_id ≡ session)
        × (m.encrypted_payload ≡ c.base64_encode payload)
        × (m.recipient_peer_id ≡ to)
  unfolding new_envelope
  new_envelope-fields to session kind payload now nonce m h =
      of_signed _ _
        (λ m.
          (m.sender_peer_id ≡ peer_id_string c pair)
          × (m.session_id ≡ session)
          × (m.encrypted_payload ≡ c.base64_encode payload)
          × (m.recipient_peer_id ≡ to))
        m h (λ s. (refl, refl, refl, refl))
