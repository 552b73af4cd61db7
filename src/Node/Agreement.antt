-- ===== src/Node/Agreement.antt =====
-- After an offer and its acknowledgement the two nodes share a session.
use voidnet.Base.{
  ℕ, suc, ◌≡◌, sym, ap, ◌∙◌, inl, inr, true, some, List, [], ◌∷◌, ◌++◌, Text, text_eq, text_eq_refl,
  Result, ok, codes, subst, absurd_of_err,
}
use voidnet.Base.Map
use voidnet.Base.Map.{Map}
use voidnet.Identity.{Bytes, Crypto, Keypair, IsSound, peer_id_string}
use voidnet.Chat.Message.{SessionOffer, SessionAck, session_ack, ChatJson}
use voidnet.Chat.Signed.{new_offer, verify_offer, verify_ack}
use voidnet.Chat.Signed.Fields.{new_offer-fields, new_ack-fields}
use voidnet.Chat.Signed.Made.{Made-verify, ack_made}
use voidnet.Chat.Cipher.{Ciphers, IsSoundCipher, derive_session_key, decode_x25519_public_key}
use voidnet.Chat.Cipher.Session.{decode_x25519_public_key-base64_encode, derive_session_key_agrees}
use voidnet.Chat.Topic.{direct_topic}
use voidnet.Chat.Replay.{check_and_record}
use voidnet.Node.State.{ChatSwarmAction, publish, PendingChatSession, Draw, Node}
use voidnet.Node.Session.{establish}
use voidnet.Node.Negotiation.{accept_ack, process_session_offer, process_session_ack}
use voidnet.Node.Admit.{admitted, admit-cases, admit-accepts}
use voidnet.Node.Handshake.{
  shared, shared-flush_pending, shared-establish, Answers, accept_offer-cases,
}

module _ {Key Secret Public : Type 0} (c : Crypto Key) (x : Ciphers Secret Public) (j : ChatJson)
    (env : ℕ → Draw Secret) (pair : Keypair Key) where
  -- An offer that was answered leaves a session with the key of the offer and of the answer.
  process_session_offer-Answers :
      (offer : SessionOffer) (topic : Text) (ack : SessionAck) (rest : List ChatSwarmAction)
      (s t : Node Secret)
      → process_session_offer c x j env pair offer s
        ≡ (ok (publish topic (session_ack ack) ∷ rest), t)
      → Answers c x j env pair (env s.drawn) offer ack t
  unfolding process_session_offer
  process_session_offer-Answers offer topic ack rest s t h =
      let d = env s.drawn in
      let u : Node Secret = record s { drawn = suc s.drawn } in
      let check =
        check_and_record (d.clock 0) (codes "offer:" ++ offer.sender_peer_id) offer.nonce
          offer.timestamp_unix_ms s.chat.replay in
      elim (admit-cases (d.clock 0) (verify_offer c j offer) (codes "session-offer")
        offer.sender_peer_id (codes "offer:" ++ offer.sender_peer_id) offer.nonce
        offer.timestamp_unix_ms u) [
          | inl (replay, v, refused, kept) ↦
              let bad : Result.ok [] ≡ ok (publish topic (session_ack ack) ∷ rest) =
                ap (λ r. r.0) (rw refused at h) in
              cc
          | inr (verified, accepted, admits) ↦
              elim (accept_offer-cases c x j env pair d offer (admitted check.1 u)) [
                | inl (e, v, failed) ↦ absurd_of_err (ap (λ r. r.0) (rw (admits, failed) at h))
                | inr (ack', rest', v, answered, answers) ↦
                    let same = rw (admits, answered) at h in
                    let acks : ok
                          (publish (direct_topic offer.sender_peer_id) (session_ack ack') ∷ rest')
                        ≡ ok (publish topic (session_ack ack) ∷ rest) =
                      ap (λ r. r.0) same in
                    let e₁ : ack' ≡ ack = cc in
                    let e₂ : v ≡ t = ap (λ r. r.1) same in
                    subst (λ a. Answers c x j env pair d offer a t) (e₁)
                      (subst (λ v. Answers c x j env pair d offer ack' v) e₂ answers)
              ]
        ]

  -- An acknowledgement of a pending session is accepted, and leaves a session with the key of both.
  process_session_ack-shared :
      (ack : SessionAck) (pending : PendingChatSession Secret) (remote : Public) (s : Node Secret)
      → verify_ack c j ack ≡ ok tt
      → (check_and_record
          ((env s.drawn).clock 0)
          (codes "ack:" ++ ack.sender_peer_id)
          ack.nonce
          ack.timestamp_unix_ms
          s.chat.replay).0
        ≡ ok tt
      → Map.get ack.sender_peer_id s.chat.pending_sessions ≡ some pending
      → pending.session_id ≡ ack.session_id
      → decode_x25519_public_key x c ack.ephemeral_public_key ≡ ok remote
      → shared ack.sender_peer_id (process_session_ack c x j env pair ack s).1
        ≡ some (derive_session_key x pending.secret remote ack.session_id, ack.session_id)
  unfolding process_session_ack accept_ack
  process_session_ack-shared ack pending remote s verified accepted waiting same decoded =
      let d = env s.drawn in
      let u : Node Secret = record s { drawn = suc s.drawn } in
      let key = derive_session_key x pending.secret remote ack.session_id in
      let matches : text_eq pending.session_id ack.session_id ≡ true =
        rw same (text_eq_refl ack.session_id) in
      let t : Node Secret =
        record (admitted
          (check_and_record (d.clock 0) (codes "ack:" ++ ack.sender_peer_id) ack.nonce
            ack.timestamp_unix_ms s.chat.replay).1
          u) {
            chat = record s.chat {
              replay =
                  (check_and_record (d.clock 0) (codes "ack:" ++ ack.sender_peer_id) ack.nonce
                    ack.timestamp_unix_ms s.chat.replay).1;
              pending_sessions = Map.remove ack.sender_peer_id s.chat.pending_sessions;
            };
          } in
      let (sets, holds, _, _, _) =
        shared-establish c x j env pair d ack.sender_peer_id ack.session_id key t in
      rw
        (
          admit-accepts (d.clock 0) (verify_ack c j ack) (codes "session-ack") ack.sender_peer_id
              (codes "ack:" ++ ack.sender_peer_id) ack.nonce ack.timestamp_unix_ms u verified
              accepted,
          waiting,
          matches,
          decoded,
          sets,
        )
        (shared-flush_pending c x j env pair ack.sender_peer_id ack.sender_peer_id
            (establish d ack.sender_peer_id ack.session_id key t).1
          ∙ holds)

module _ {Key Secret Public : Type 0} (c : Crypto Key) (x : Ciphers Secret Public)
    (j : ChatJson) where
  -- Two nodes negotiate a session: one makes an offer and keeps its secret as pending for the other,
  -- the other answers with an acknowledgement, and the first processes it. Then each has an active
  -- session for the other, with the identifier of the offer and with one and the same key, if the
  -- replay protector of the first accepts the acknowledgement. Assumed is that signatures verify, that
  -- encodings are read back, and that both sides of an exchange of keys get the same secret.
  pub process_session_ack-process_session_offer :
      (first second : Keypair Key) (env₁ env₂ : ℕ → Draw Secret)
      (pending : PendingChatSession Secret) (now : ℕ) (session_bytes nonce_bytes : Bytes)
      (offer : SessionOffer) (topic : Text) (ack : SessionAck) (rest : List ChatSwarmAction)
      (s t : Node Secret) (u : Node Secret)
      → IsSound c first
      → IsSound c second
      → IsSoundCipher x
      → new_offer c j first
          (peer_id_string c second)
          (x.to_bytes (x.public_of pending.secret))
          now
          session_bytes
          nonce_bytes
        ≡ ok offer
      → pending.session_id ≡ offer.session_id
      → process_session_offer c x j env₂ second offer s
        ≡ (ok (publish topic (session_ack ack) ∷ rest), t)
      → Map.get (peer_id_string c second) u.chat.pending_sessions ≡ some pending
      → (check_and_record
          ((env₁ u.drawn).clock 0)
          (codes "ack:" ++ ack.sender_peer_id)
          ack.nonce
          ack.timestamp_unix_ms
          u.chat.replay).0
        ≡ ok tt
      → (shared (peer_id_string c second) (process_session_ack c x j env₁ first ack u).1
          ≡ shared (peer_id_string c first) t)
        × ((key : Bytes) × (shared (peer_id_string c first) t ≡ some (key, offer.session_id)))
  process_session_ack-process_session_offer first second env₁ env₂ pending now session_bytes
        nonce_bytes offer topic ack rest s t u sound₁ sound₂ ciphers offered waits answered pends
        accepted =
      let d = env₂ s.drawn in
      let (remote, decoded, made, theirs) =
        process_session_offer-Answers c x j env₂ second offer topic ack rest s t answered in
      let (from, _, ephemeral, _) = new_offer-fields c j first _ _ _ _ _ offer offered in
      let (by, of_session, ephemeral', _) = new_ack-fields c j second _ _ _ _ _ ack made in
      let (verified, _) =
        Made-verify c j second (session_ack ack) sound₂ (ack_made _ _ _ _ _ ack made) in
      let public = x.public_of pending.secret in
      let public' = x.public_of d.secret in
      let reads : decode_x25519_public_key x c offer.ephemeral_public_key ≡ ok public =
        rw ephemeral
          (decode_x25519_public_key-base64_encode x c public sound₁.base64_back ciphers) in
      let reads' : decode_x25519_public_key x c ack.ephemeral_public_key ≡ ok public' =
        rw ephemeral'
          (decode_x25519_public_key-base64_encode x c public' sound₁.base64_back ciphers) in
      let same_remote : remote ≡ public = cc in
      let ours =
        process_session_ack-shared c x j env₁ first ack pending public' u verified accepted
          (rw by pends) (waits ∙ sym of_session) reads' in
      let agree = derive_session_key_agrees x pending.secret d.secret offer.session_id ciphers in
      let theirs' : shared (peer_id_string c first) t
          ≡ some (derive_session_key x d.secret public offer.session_id, offer.session_id) =
        rw (sym from, sym same_remote) theirs in
      let ours' : shared (peer_id_string c second) (process_session_ack c x j env₁ first ack u).1
          ≡ some (derive_session_key x d.secret public offer.session_id, offer.session_id) =
        rw (sym by, sym agree, sym of_session) ours in
      (ours' ∙ sym theirs', (_, theirs'))
