-- ===== src/Node/Handshake.antt =====
-- What an offer and its acknowledgement leave at the two nodes.
use voidnet.Base.{
  ℕ, suc, ◌≡◌, refl, sym, ap, ◌∙◌, inl, inr, ◌⊎◌, Option, none, some, List, [], ◌∷◌, ◌++◌, Text,
  text_eq, text_eq_sound, Result, ok, err, Option-cases, Result-cases, Bool-cases, text_eq_refl,
}
use voidnet.Base.Map
use voidnet.Base.Map.{Map, map_option, or_default, get-insert, get-update}
use voidnet.Identity.{Bytes, Crypto, Keypair}
use voidnet.Chat.Message.{SessionOffer, SessionAck, session_ack, ChatJson}
use voidnet.Chat.Signed.{new_ack}
use voidnet.Chat.Topic.{direct_topic}
use voidnet.Chat.Cipher.{Ciphers, derive_session_key, decode_x25519_public_key}
use voidnet.Node.State.{
  PendingOutboundMessage, ActiveChatSession, ChatSwarmAction, publish, Draw, Node, TransportError,
  and_then, pure, ◌>>=◌,
}
use voidnet.Node.Session.{send_over, send_pending, flush_pending, establish}
use voidnet.Node.Negotiation.{accept_offer}
use voidnet.Node.Sent.{build_direct_message_action-cases}

-- What the two sides of a session have in common.
abbrev pub shared_of : Option ActiveChatSession → Option (Bytes × Text)
shared_of none = none
shared_of (some session) = some (session.key, session.snapshot.session_id)

abbrev pub shared : {Secret : Type 0} → Text → Node Secret → Option (Bytes × Text)
shared peer_id s = shared_of (Map.get peer_id s.chat.active_sessions)

module _ {Secret : Type 0} where
  and_then-pure :
      {A B : Type 0} (r : Result TransportError A × Node Secret) (g : A → B)
      → (and_then r (λ a. pure (g a))).1 ≡ r.1
  and_then-pure (ok a, s) g = refl
  and_then-pure (err e, s) g = refl

  -- A handler fails or answers.
  pub pair-cases :
      {A : Type 0} (r : Result TransportError A × Node Secret)
      → ((e : TransportError) × (t : Node Secret) × (r ≡ (err e, t)))
        ⊎ ((a : A) × (t : Node Secret) × (r ≡ (ok a, t)))
  pair-cases (ok a, t) = inr (a, t, refl)
  pair-cases (err e, t) = inl (e, t, refl)

module _ {Key Secret Public : Type 0} (c : Crypto Key) (x : Ciphers Secret Public) (j : ChatJson)
    (env : ℕ → Draw Secret) (pair : Keypair Key) where
  shared-send_over :
      (p peer_id : Text) (outbound : PendingOutboundMessage) (s : Node Secret)
      → shared p
          (send_over c x j env pair peer_id outbound (Map.get peer_id s.chat.active_sessions) s).1
        ≡ shared p s
  shared-send_over p peer_id outbound s =
      elim (Option-cases (Map.get peer_id s.chat.active_sessions)) [
        | inl absent ↦ rw absent refl
        | inr (session, active) ↦
            let u : Node Secret = record s { drawn = suc s.drawn } in
            rw active
              (elim (build_direct_message_action-cases c x j pair (env s.drawn) peer_id outbound
                session u) [
                  | inl (e, failed) ↦ rw failed refl
                  | inr (envelope, seals, sent) ↦
                      rw (sent, get-update)
                        (elim (Bool-cases (text_eq peer_id p)) [
                          | inl same ↦ rw (same, sym (text_eq_sound peer_id p same), active) refl
                          | inr other ↦ rw other refl
                        ])
                ])
      ]

  pub shared-send_pending :
      (p peer_id : Text) (messages : List PendingOutboundMessage) (s : Node Secret)
      → shared p (send_pending c x j env pair peer_id messages s).1 ≡ shared p s
  unfolding send_pending
  shared-send_pending p peer_id [] s = refl
  shared-send_pending p peer_id (outbound ∷ messages) s =
      after (send_over c x j env pair peer_id outbound (Map.get peer_id s.chat.active_sessions) s)
        (shared-send_over p peer_id outbound s) (shared-send_pending p peer_id messages)
    where
      after :
          (r : Result TransportError (List ChatSwarmAction) × Node Secret)
          → shared p r.1 ≡ shared p s
          → ((t : Node Secret)
              → shared p (send_pending c x j env pair peer_id messages t).1 ≡ shared p t)
          → shared p
              (and_then r (λ actions.
                send_pending c x j env pair peer_id messages >>= λ rest. pure (actions ++ rest))).1
            ≡ shared p s
      after (err e, t) h ih = h
      after (ok actions, t) h ih =
          ap (shared p) (
            and_then-pure (send_pending c x j env pair peer_id messages t)
              (λ rest. actions ++ rest))
          ∙ ih t
          ∙ h

  pub shared-flush_pending :
      (p peer_id : Text) (s : Node Secret)
      → shared p (flush_pending c x j env pair peer_id s).1 ≡ shared p s
  unfolding flush_pending
  shared-flush_pending p peer_id s = shared-send_pending p peer_id _ _

  pub shared-establish :
      (d : Draw Secret) (peer_id session_id : Text) (key : Bytes) (s : Node Secret)
      → (establish d peer_id session_id key s ≡ (ok tt, (establish d peer_id session_id key s).1))
        × (shared peer_id (establish d peer_id session_id key s).1 ≡ some (key, session_id))
        × ((establish d peer_id session_id key s).1.chat.pending_messages ≡ s.chat.pending_messages)
        × ((establish d peer_id session_id key s).1.chat.replay ≡ s.chat.replay)
        × ((establish d peer_id session_id key s).1.drawn ≡ s.drawn)
  unfolding establish
  shared-establish d peer_id session_id key s =
      (refl, rw (get-insert, text_eq_refl peer_id) refl, refl, refl, refl)

  -- The acknowledgement that a node answers an offer with, and the session that it then has.
  abbrev pub Answers : Draw Secret → SessionOffer → SessionAck → Node Secret → Type 0
  Answers d offer ack t =
      (remote : Public) × (decode_x25519_public_key x c offer.ephemeral_public_key ≡ ok remote)
      × (new_ack c j pair offer.sender_peer_id offer.session_id (x.to_bytes (x.public_of d.secret))
            (d.clock 2) (d.random 0)
          ≡ ok ack)
      × (shared offer.sender_peer_id t
          ≡ some (derive_session_key x d.secret remote offer.session_id, offer.session_id))

  pub accept_offer-cases :
      (d : Draw Secret) (offer : SessionOffer) (s : Node Secret)
      → ((e : TransportError) × (t : Node Secret) × (accept_offer c x j env pair d offer s
            ≡ (err e, t)))
        ⊎ ((ack : SessionAck) × (rest : List ChatSwarmAction) × (t : Node Secret) × (accept_offer c
                x j env pair d offer s
              ≡ (ok (publish (direct_topic offer.sender_peer_id) (session_ack ack) ∷ rest), t))
            × Answers d offer ack t)
  unfolding accept_offer
  accept_offer-cases d offer s =
      elim (Result-cases (decode_x25519_public_key x c offer.ephemeral_public_key)) [
        | inr (e, bad) ↦ rw bad (inl (_, _, refl))
        | inl (remote, decoded) ↦
            let key = derive_session_key x d.secret remote offer.session_id in
            let (sets, holds, _, _, _) =
              shared-establish d offer.sender_peer_id offer.session_id key s in
            let u = (establish d offer.sender_peer_id offer.session_id key s).1 in
            elim (Result-cases (
              new_ack c j pair offer.sender_peer_id offer.session_id
                (x.to_bytes (x.public_of d.secret)) (d.clock 2) (d.random 0))) [
                  | inr (e, bad) ↦ rw (decoded, sets, bad) (inl (_, _, refl))
                  | inl (ack, made) ↦
                      rw (decoded, sets, made)
                        (elim (pair-cases (flush_pending c x j env pair offer.sender_peer_id u)) [
                          | inl (e, t, failed) ↦ rw failed (inl (_, _, refl))
                          | inr (actions, t, sent) ↦ rw sent (
                              inr (
                                ack,
                                actions,
                                t,
                                refl,
                                (
                                  remote,
                                  refl,
                                  refl,
                                  ap (λ r. shared offer.sender_peer_id r.1) (sym sent)
                                      ∙ shared-flush_pending offer.sender_peer_id
                                          offer.sender_peer_id u
                                      ∙ holds,
                                ),
                              ))
                        ])
                ]
      ]
