-- ===== src/Node/Crossed.antt =====
-- Two peers that offer each other a session at the same time (core/transport/src/node.rs).
use voidnet.Base.{
  ℕ, suc, ◌≡◌, refl, sym, ap, ◌∙◌, inl, inr, Bool, true, false, Option, none, some, List, [], ◌∷◌,
  ◌++◌, Text, Result, ok, err, codes, Result-cases,
}
use voidnet.Base.Map
use voidnet.Identity.{Bytes, Crypto, Keypair, IsSound, peer_id_string}
use voidnet.Chat.Error.{ChatError}
use voidnet.Chat.Message.{SessionOffer, SessionAck, session_ack, ChatJson}
use voidnet.Chat.Signed.{new_offer, new_ack, verify_offer}
use voidnet.Chat.Cipher.{Ciphers, IsSoundCipher, derive_session_key, decode_x25519_public_key}
use voidnet.Chat.Replay.{ReplayProtector, check_and_record}
use voidnet.Node.State.{
  PendingOutboundMessage, ActiveChatSession, ChatSwarmAction, publish, PendingChatSession, Draw,
  Node, Step,
}
use voidnet.Node.Session.{
  checked, admit, when_admitted, establish, build_direct_message_action, send_over, send_pending,
  flush_pending,
}
use voidnet.Node.Negotiation.{accept_offer, process_session_offer, process_session_ack}
use voidnet.Node.Sent.{build_direct_message_action-cases}
use voidnet.Node.Handshake.{shared, pair-cases, shared-establish}
use voidnet.Node.Agreement.{process_session_ack-process_session_offer}

-- What is shared has the identifier.
abbrev pub IsOf : Option (Bytes × Text) → Text → Type 0
IsOf o session_id = (key : Bytes) × (o ≡ some (key, session_id))

module _ {Secret : Type 0} where
  -- The handler leaves the pending sessions as they are.
  abbrev pub Keeps : {A : Type 0} → Step Secret A → Type 0
  Keeps m = (s : Node Secret) → (m s).1.chat.pending_sessions ≡ s.chat.pending_sessions

  checked-Keeps :
      (context peer_id nonce : Text) (check : Result ChatError (Unit {0}) × ReplayProtector)
      → Keeps (checked context peer_id nonce check)
  checked-Keeps context peer_id nonce (ok tt, replay) s = refl
  checked-Keeps context peer_id nonce (err e, replay) s = refl

  admit-Keeps :
      (now : ℕ) (verified : Result ChatError (Unit {0})) (context peer_id scope nonce : Text)
      (timestamp : ℕ)
      → Keeps (admit now verified context peer_id scope nonce timestamp)
  unfolding admit
  admit-Keeps now (err e) context peer_id scope nonce timestamp s = refl
  admit-Keeps now (ok tt) context peer_id scope nonce timestamp s =
      checked-Keeps context peer_id nonce (check_and_record now scope nonce timestamp s.chat.replay)
        s

  establish-Keeps :
      (d : Draw Secret) (peer_id session_id : Text) (key : Bytes)
      → Keeps (establish d peer_id session_id key)
  unfolding establish
  establish-Keeps d peer_id session_id key s = refl

  when_admitted-Keeps :
      (good : Bool) (m : Step Secret (List ChatSwarmAction))
      → Keeps m
      → Keeps (when_admitted good m)
  when_admitted-Keeps true m h = h
  when_admitted-Keeps false m h = λ s. refl

module _ {Key Secret Public : Type 0} (c : Crypto Key) (x : Ciphers Secret Public) (j : ChatJson)
    (env : ℕ → Draw Secret) (pair : Keypair Key) where
  build-Keeps :
      (d : Draw Secret) (peer_id : Text) (outbound : PendingOutboundMessage)
      (session : ActiveChatSession)
      → Keeps (build_direct_message_action c x j pair d peer_id outbound session)
  build-Keeps d peer_id outbound session s =
      elim (build_direct_message_action-cases c x j pair d peer_id outbound session s) [
        | inl (e, failed) ↦ rw failed refl
        | inr (envelope, seals, sent) ↦ rw sent refl
      ]

  send_over-Keeps :
      (peer_id : Text) (outbound : PendingOutboundMessage) (o : Option ActiveChatSession)
      → Keeps (send_over c x j env pair peer_id outbound o)
  send_over-Keeps peer_id outbound none s = refl
  send_over-Keeps peer_id outbound (some session) s =
      elim (build_direct_message_action-cases c x j pair (env s.drawn) peer_id outbound session
        (record s { drawn = suc s.drawn })) [
          | inl (e, failed) ↦ rw failed refl
          | inr (envelope, seals, sent) ↦ rw sent refl
        ]

  send_pending-Keeps :
      (peer_id : Text) (messages : List PendingOutboundMessage)
      → Keeps (send_pending c x j env pair peer_id messages)
  unfolding send_pending
  send_pending-Keeps peer_id [] s = refl
  send_pending-Keeps peer_id (outbound ∷ messages) s =
      let now = Map.get peer_id s.chat.active_sessions in
      elim (pair-cases (send_over c x j env pair peer_id outbound now s)) [
        | inl (e, t, failed) ↦ rw failed (
            ap (λ r. r.1.chat.pending_sessions) (sym failed)
            ∙ send_over-Keeps peer_id outbound now s)
        | inr (actions, t, sent) ↦
            let kept =
              send_pending-Keeps peer_id messages t
              ∙ ap (λ r. r.1.chat.pending_sessions) (sym sent)
              ∙ send_over-Keeps peer_id outbound now s in
            rw sent (elim (pair-cases (send_pending c x j env pair peer_id messages t)) [
              | inl (e, u, failed) ↦
                  rw failed (ap (λ r. r.1.chat.pending_sessions) (sym failed) ∙ kept)
              | inr (rest, u, done) ↦
                  rw done (ap (λ r. r.1.chat.pending_sessions) (sym done) ∙ kept)
            ])
      ]

  flush_pending-Keeps : (peer_id : Text) → Keeps (flush_pending c x j env pair peer_id)
  unfolding flush_pending
  flush_pending-Keeps peer_id s = send_pending-Keeps peer_id _ _

  accept_offer-Keeps :
      (d : Draw Secret) (offer : SessionOffer) → Keeps (accept_offer c x j env pair d offer)
  unfolding accept_offer
  accept_offer-Keeps d offer s =
      elim (Result-cases (decode_x25519_public_key x c offer.ephemeral_public_key)) [
        | inr (e, bad) ↦ rw bad refl
        | inl (remote, decoded) ↦
            let key = derive_session_key x d.secret remote offer.session_id in
            let (sets, _, _, _, _) =
              shared-establish c x j env pair d offer.sender_peer_id offer.session_id key s in
            let u = (establish d offer.sender_peer_id offer.session_id key s).1 in
            let kept = establish-Keeps d offer.sender_peer_id offer.session_id key s in
            elim (Result-cases (
              new_ack c j pair offer.sender_peer_id offer.session_id
                (x.to_bytes (x.public_of d.secret)) (d.clock 2) (d.random 0))) [
                  | inr (e, bad) ↦ rw (decoded, sets, bad) kept
                  | inl (ack, made) ↦
                      rw (decoded, sets, made)
                        (elim (pair-cases (flush_pending c x j env pair offer.sender_peer_id u)) [
                          | inl (e, t, failed) ↦ rw failed (
                              ap (λ r. r.1.chat.pending_sessions) (sym failed)
                              ∙ flush_pending-Keeps offer.sender_peer_id u
                              ∙ kept)
                          | inr (actions, t, sent) ↦ rw sent (
                              ap (λ r. r.1.chat.pending_sessions) (sym sent)
                              ∙ flush_pending-Keeps offer.sender_peer_id u
                              ∙ kept)
                        ])
                ]
      ]

  -- The answer to an offer leaves the own offers that are pending.
  process_session_offer-Keeps :
      (offer : SessionOffer) → Keeps (process_session_offer c x j env pair offer)
  unfolding process_session_offer
  process_session_offer-Keeps offer s =
      let d = env s.drawn in
      let u : Node Secret = record s { drawn = suc s.drawn } in
      let kept =
        admit-Keeps (d.clock 0) (verify_offer c j offer) (codes "session-offer")
          offer.sender_peer_id (codes "offer:" ++ offer.sender_peer_id) offer.nonce
          offer.timestamp_unix_ms u in
      elim (pair-cases (
        admit (d.clock 0) (verify_offer c j offer) (codes "session-offer") offer.sender_peer_id
          (codes "offer:" ++ offer.sender_peer_id) offer.nonce offer.timestamp_unix_ms u)) [
            | inl (e, t, failed) ↦
                rw failed (ap (λ r. r.1.chat.pending_sessions) (sym failed) ∙ kept)
            | inr (good, t, done) ↦ rw done (
                when_admitted-Keeps good (accept_offer c x j env pair d offer)
                  (accept_offer-Keeps d offer) t
                ∙ ap (λ r. r.1.chat.pending_sessions) (sym done)
                ∙ kept)
          ]

module _ {Key Secret Public : Type 0} (c : Crypto Key) (x : Ciphers Secret Public)
    (j : ChatJson) where
  -- Two nodes offer each other a session at the same time: each has its own offer pending when it
  -- answers the offer of the other, and then processes the acknowledgement of its own. After the
  -- answers each node has an active session with the identifier of the offer that came from the other;
  -- after the acknowledgements that session is overwritten, and each has one with the identifier of the
  -- offer that it made itself, so that the two have exchanged their identifiers. Assumed is that the replay protectors accept the acknowledgements, that
  -- signatures verify, that encodings are read back, and that both sides of an exchange of keys get the
  -- same secret.
  pub crossed_offers :
      (first second : Keypair Key) (env₁ env₂ : ℕ → Draw Secret)
      (pending₁ pending₂ : PendingChatSession Secret) (now₁ now₂ : ℕ)
      (session_bytes₁ nonce_bytes₁ session_bytes₂ nonce_bytes₂ : Bytes)
      (offer₁ offer₂ : SessionOffer) (topic₁ topic₂ : Text) (ack₁ ack₂ : SessionAck)
      (rest₁ rest₂ : List ChatSwarmAction) (s₁ t₁ s₂ t₂ : Node Secret)
      → IsSound c first
      → IsSound c second
      → IsSoundCipher x
      → new_offer c j first
          (peer_id_string c second)
          (x.to_bytes (x.public_of pending₁.secret))
          now₁
          session_bytes₁
          nonce_bytes₁
        ≡ ok offer₁
      → new_offer c j second
          (peer_id_string c first)
          (x.to_bytes (x.public_of pending₂.secret))
          now₂
          session_bytes₂
          nonce_bytes₂
        ≡ ok offer₂
      → pending₁.session_id ≡ offer₁.session_id
      → pending₂.session_id ≡ offer₂.session_id
      → Map.get (peer_id_string c second) s₁.chat.pending_sessions ≡ some pending₁
      → Map.get (peer_id_string c first) s₂.chat.pending_sessions ≡ some pending₂
      → process_session_offer c x j env₁ first offer₂ s₁
        ≡ (ok (publish topic₁ (session_ack ack₁) ∷ rest₁), t₁)
      → process_session_offer c x j env₂ second offer₁ s₂
        ≡ (ok (publish topic₂ (session_ack ack₂) ∷ rest₂), t₂)
      → (check_and_record
          ((env₁ t₁.drawn).clock 0)
          (codes "ack:" ++ ack₂.sender_peer_id)
          ack₂.nonce
          ack₂.timestamp_unix_ms
          t₁.chat.replay).0
        ≡ ok tt
      → (check_and_record
          ((env₂ t₂.drawn).clock 0)
          (codes "ack:" ++ ack₁.sender_peer_id)
          ack₁.nonce
          ack₁.timestamp_unix_ms
          t₂.chat.replay).0
        ≡ ok tt
      → IsOf (shared (peer_id_string c second) t₁) offer₂.session_id
        × IsOf (shared (peer_id_string c first) t₂) offer₁.session_id
        × IsOf
            (shared (peer_id_string c second) (process_session_ack c x j env₁ first ack₂ t₁).1)
            offer₁.session_id
        × IsOf
            (shared (peer_id_string c first) (process_session_ack c x j env₂ second ack₁ t₂).1)
            offer₂.session_id
  crossed_offers first second env₁ env₂ pending₁ pending₂ now₁ now₂ session_bytes₁ nonce_bytes₁
        session_bytes₂ nonce_bytes₂ offer₁ offer₂ topic₁ topic₂ ack₁ ack₂ rest₁ rest₂ s₁ t₁ s₂ t₂
        sound₁ sound₂ ciphers made₁ made₂ same₁ same₂ pends₁ pends₂ answered₁ answered₂ accepted₁
        accepted₂ =
      let kept₁ : t₁.chat.pending_sessions ≡ s₁.chat.pending_sessions =
        ap (λ r. r.1.chat.pending_sessions) (sym answered₁)
        ∙ process_session_offer-Keeps c x j env₁ first offer₂ s₁ in
      let kept₂ : t₂.chat.pending_sessions ≡ s₂.chat.pending_sessions =
        ap (λ r. r.1.chat.pending_sessions) (sym answered₂)
        ∙ process_session_offer-Keeps c x j env₂ second offer₁ s₂ in
      let (agree₁, (key₁, has₁)) =
        process_session_ack-process_session_offer c x j first second env₁ env₂ pending₁ now₁
          session_bytes₁ nonce_bytes₁ offer₁ topic₂ ack₂ rest₂ s₂ t₂ t₁ sound₁ sound₂ ciphers made₁
          same₁ answered₂ (ap (Map.get (peer_id_string c second)) kept₁ ∙ pends₁) accepted₁ in
      let (agree₂, (key₂, has₂)) =
        process_session_ack-process_session_offer c x j second first env₂ env₁ pending₂ now₂
          session_bytes₂ nonce_bytes₂ offer₂ topic₁ ack₁ rest₁ s₁ t₁ t₂ sound₂ sound₁ ciphers made₂
          same₂ answered₁ (ap (Map.get (peer_id_string c first)) kept₂ ∙ pends₂) accepted₂ in
      ((key₂, has₂), (key₁, has₁), (key₁, agree₁ ∙ has₁), (key₂, agree₂ ∙ has₂))
