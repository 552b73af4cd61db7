-- ===== src/Node/Tests.antt =====
-- Runs of the chat of two nodes, and instances of the theorems on it.
use voidnet.Base.{
  ℕ, ◌≡◌, ◌⊎◌, refl, [], ◌∷◌, ◌++◌, none, some, List, Text, Result, ok, codes, text_eq,
}
use voidnet.Base.Map
use voidnet.Identity.{
  Bytes, Keypair, peer_id_string, sign_bytes, verify_bytes, public_key_protobuf_base64,
}
use voidnet.Chat.Message.{ChatTextPayload}
use voidnet.Chat.Rooms.{no_rooms}
use voidnet.Chat.Replay
use voidnet.Chat.Message.{
  SessionOffer, SessionAck, SignedEncryptedEnvelope, session_ack, direct_message, direct_text,
  chat_protocol_version,
}
use voidnet.Chat.Signed.{
  new_offer, new_ack, new_envelope, sign_json, verify_json, random_token, verify_offer,
  verify_envelope,
}
use voidnet.Chat.Unsigned.{unsigned_offer}
use voidnet.Chat.Cipher.{encrypt_payload, decode_x25519_public_key, serialize_payload}
use voidnet.Chat.Topic.{direct_topic}
use voidnet.Chat.Replay.{check_and_record}
use voidnet.Node.State.{
  Draw, Node, PendingOutboundMessage, PendingChatSession, ActiveChatSession, ChatSwarmAction,
  publish, TransportError,
}
use voidnet.Node.Session.{new_session, admit, establish, build_direct_message_action, flush_pending}
use voidnet.Node.Negotiation.{accept_offer, process_session_offer, process_session_ack}
use voidnet.Node.Receive.{entry_of, process_direct_message}
use voidnet.Node.Sent.{text_of, sent_over}
use voidnet.Node.Authentic.{Reads, process_direct_message-inbox}
use voidnet.Node.Delivery.{process_direct_message-build_direct_message_action}
use voidnet.Node.Handshake.{shared}
use voidnet.Node.Agreement.{process_session_ack-process_session_offer}
use voidnet.Node.Crossed.{IsOf, crossed_offers}
use voidnet.Transport.Topology.Records
use voidnet.Node.Samples.{
  plain_crypto, keys_of, keys_of-IsSound, padded, sums, sums-IsSoundCipher, twelve, plain_json,
  plain_json-IsReadBack,
}

-- The n-th draw of a node.
abbrev env : ℕ → Draw ℕ
env n = record { clock = λ i. 1000; random = twelve; secret = 5 }

abbrev alice : Keypair Text
alice = keys_of (codes "alice")

abbrev bob : Keypair Text
bob = keys_of (codes "bob")

abbrev node_of : Text → Node ℕ
node_of name = record {
  chat = record {
    local_peer_id = name;
    joined_rooms = [];
    inbox = [];
    notifications = [];
    rooms = no_rooms;
    pending_sessions = [];
    active_sessions = [];
    pending_messages = [];
    replay = Replay.new 120000;
    last_room_sync_unix_ms = 0;
  };
  topology = Records.new 0 name;
  events = [];
  drawn = 0;
}

abbrev with_session : Text → ActiveChatSession → Node ℕ → Node ℕ
with_session peer_id session s = record s {
  chat = record s.chat { active_sessions = (peer_id, session) ∷ [] };
}

abbrev with_pending : Text → PendingChatSession ℕ → Node ℕ → Node ℕ
with_pending peer_id pending s = record s {
  chat = record s.chat { pending_sessions = (peer_id, pending) ∷ [] };
}

-- A message from alice to bob over a session that both have.
abbrev hello : PendingOutboundMessage
hello = record { room = none; body = codes "hello" }

abbrev ours : ActiveChatSession
ours = new_session 900 (codes "bob") (codes "s") (padded 9)

abbrev theirs : ActiveChatSession
theirs = new_session 950 (codes "alice") (codes "s") (padded 9)

abbrev sealed : SignedEncryptedEnvelope
sealed = record {
  protocol_version = chat_protocol_version;
  sender_peer_id = codes "alice";
  recipient_peer_id = codes "bob";
  sender_public_key = codes "alice";
  session_id = codes "s";
  timestamp_unix_ms = 1000;
  nonce = twelve 1;
  message_type = direct_text;
  encrypted_payload = codes "hello";
  signature = codes "alice" ++ twelve 1;
}

abbrev at_alice : Node ℕ
at_alice = node_of (codes "alice")

abbrev at_bob : Node ℕ
at_bob = with_session (codes "alice") theirs (node_of (codes "bob"))

sealed-built :
    build_direct_message_action plain_crypto sums plain_json alice
      (env 0)
      (codes "bob")
      hello
      ours
      at_alice
    ≡ (
      ok (publish (direct_topic (codes "bob")) (direct_message sealed), sent_over (env 0) ours),
      at_alice,
    )
unfolding build_direct_message_action encrypt_payload serialize_payload new_envelope sign_json
    sign_bytes random_token peer_id_string public_key_protobuf_base64 direct_topic text_eq
sealed-built = refl

session-active : Map.get (codes "alice") at_bob.chat.active_sessions ≡ some theirs
unfolding Map.get text_eq
session-active = refl

sealed-accepted :
    (check_and_record 1000 (codes "message:alice") (twelve 1) 1000 at_bob.chat.replay).0 ≡ ok tt
unfolding check_and_record Map.get Map.retain
sealed-accepted = refl

process_direct_message-build_direct_message_action_example :
    ((process_direct_message plain_crypto sums plain_json env sealed at_bob).0 ≡ ok tt)
    × ((process_direct_message plain_crypto sums plain_json env sealed at_bob).1.chat.inbox
        ≡ entry_of (env 0) sealed (text_of hello) ∷ [])
unfolding peer_id_string
process_direct_message-build_direct_message_action_example =
    process_direct_message-build_direct_message_action plain_crypto sums plain_json alice (env 0)
      (codes "bob") (direct_topic (codes "bob")) hello ours (sent_over (env 0) ours) sealed at_alice
      at_alice env theirs at_bob (keys_of-IsSound (codes "alice")) sums-IsSoundCipher
      plain_json-IsReadBack refl sealed-built session-active (refl, refl) sealed-accepted

process_direct_message-inbox_example :
    let after =
      (process_direct_message plain_crypto sums plain_json env sealed at_bob).1.chat.inbox in
    (after ≡ [])
    ⊎ ((session : ActiveChatSession) × (text : ChatTextPayload) × (verify_envelope plain_crypto
            plain_json sealed
          ≡ ok tt)
        × ((check_and_record 1000 (codes "message:alice") (twelve 1) 1000 at_bob.chat.replay).0
            ≡ ok tt)
        × (Map.get (codes "alice") at_bob.chat.active_sessions ≡ some session)
        × Reads plain_crypto sums plain_json session sealed text
        × (after ≡ entry_of (env 0) sealed text ∷ []))
process_direct_message-inbox_example =
    process_direct_message-inbox plain_crypto sums plain_json env sealed at_bob

-- A session that alice offers to bob, and that bob acknowledges.
abbrev offered : SessionOffer
offered = record {
  protocol_version = chat_protocol_version;
  session_id = codes "s1";
  sender_peer_id = codes "alice";
  recipient_peer_id = codes "bob";
  sender_public_key = codes "alice";
  ephemeral_public_key = padded 5;
  timestamp_unix_ms = 1000;
  nonce = codes "n";
  signature = codes "alicen";
}

abbrev waiting : PendingChatSession ℕ
waiting = record {
  peer_id = codes "bob";
  session_id = codes "s1";
  secret = 5;
  started_at_unix_ms = 1000;
}

abbrev acknowledged : SessionAck
acknowledged = record {
  protocol_version = chat_protocol_version;
  session_id = codes "s1";
  sender_peer_id = codes "bob";
  recipient_peer_id = codes "alice";
  sender_public_key = codes "bob";
  ephemeral_public_key = padded 5;
  timestamp_unix_ms = 1000;
  nonce = twelve 0;
  signature = codes "bob" ++ twelve 0;
}

abbrev asking : Node ℕ
asking = with_pending (codes "bob") waiting (node_of (codes "alice"))

abbrev answering : Result TransportError (List ChatSwarmAction) × Node ℕ
answering =
    process_session_offer plain_crypto sums plain_json env bob offered (node_of (codes "bob"))

new_offer-offered :
    new_offer plain_crypto plain_json alice (codes "bob") (padded 5) 1000 (codes "s1") (codes "n")
    ≡ ok offered
unfolding new_offer sign_json sign_bytes random_token peer_id_string public_key_protobuf_base64
new_offer-offered = refl

offered-answered :
    answering
    ≡ (ok (publish (direct_topic (codes "alice")) (session_ack acknowledged) ∷ []), answering.1)
unfolding process_session_offer verify_offer verify_json verify_bytes unsigned_offer text_eq admit
    check_and_record Map.get Map.retain accept_offer decode_x25519_public_key establish new_ack
    sign_json sign_bytes random_token peer_id_string public_key_protobuf_base64 flush_pending
offered-answered = refl

asking-pending : Map.get (codes "bob") asking.chat.pending_sessions ≡ some waiting
unfolding Map.get text_eq
asking-pending = refl

acknowledged-accepted :
    (check_and_record 1000 (codes "ack:bob") (twelve 0) 1000 asking.chat.replay).0 ≡ ok tt
unfolding check_and_record Map.get Map.retain
acknowledged-accepted = refl

process_session_ack-process_session_offer_example :
    (shared
        (codes "bob")
        (process_session_ack plain_crypto sums plain_json env alice acknowledged asking).1
      ≡ shared (codes "alice") answering.1)
    × ((key : Bytes) × (shared (codes "alice") answering.1 ≡ some (key, codes "s1")))
unfolding peer_id_string
process_session_ack-process_session_offer_example =
    process_session_ack-process_session_offer plain_crypto sums plain_json alice bob env env waiting
      1000 (codes "s1") (codes "n") offered (direct_topic (codes "alice")) acknowledged []
      (node_of (codes "bob")) answering.1 asking (keys_of-IsSound (codes "alice"))
      (keys_of-IsSound (codes "bob")) sums-IsSoundCipher new_offer-offered refl offered-answered
      asking-pending acknowledged-accepted

-- The session that bob offers at the same time, and the acknowledgement of alice.
abbrev waiting_too : PendingChatSession ℕ
waiting_too = record {
  peer_id = codes "alice";
  session_id = codes "s2";
  secret = 5;
  started_at_unix_ms = 1000;
}

abbrev offered_too : SessionOffer
offered_too = record offered {
  session_id = codes "s2";
  sender_peer_id = codes "bob";
  recipient_peer_id = codes "alice";
  sender_public_key = codes "bob";
  nonce = codes "n2";
  signature = codes "bobn2";
}

abbrev acknowledged_too : SessionAck
acknowledged_too = record acknowledged {
  session_id = codes "s2";
  sender_peer_id = codes "alice";
  recipient_peer_id = codes "bob";
  sender_public_key = codes "alice";
  signature = codes "alice" ++ twelve 0;
}

abbrev asking_too : Node ℕ
asking_too = with_pending (codes "alice") waiting_too (node_of (codes "bob"))

new_offer-offered_too :
    new_offer plain_crypto plain_json bob (codes "alice") (padded 5) 1000 (codes "s2") (codes "n2")
    ≡ ok offered_too
unfolding new_offer sign_json sign_bytes random_token peer_id_string public_key_protobuf_base64
new_offer-offered_too = refl

asking_too-pending : Map.get (codes "alice") asking_too.chat.pending_sessions ≡ some waiting_too
unfolding Map.get text_eq
asking_too-pending = refl

-- Each answers the offer of the other while its own is pending.
abbrev alice_answering : Result TransportError (List ChatSwarmAction) × Node ℕ
alice_answering = process_session_offer plain_crypto sums plain_json env alice offered_too asking

abbrev bob_answering : Result TransportError (List ChatSwarmAction) × Node ℕ
bob_answering = process_session_offer plain_crypto sums plain_json env bob offered asking_too

alice_answered : alice_answering ≡ (
  ok (publish (direct_topic (codes "bob")) (session_ack acknowledged_too) ∷ []),
  alice_answering.1,
)
unfolding process_session_offer verify_offer verify_json verify_bytes unsigned_offer text_eq admit
    check_and_record Map.get Map.retain accept_offer decode_x25519_public_key establish new_ack
    sign_json sign_bytes random_token peer_id_string public_key_protobuf_base64 flush_pending
alice_answered = refl

bob_answered :
    bob_answering
    ≡ (ok (publish (direct_topic (codes "alice")) (session_ack acknowledged) ∷ []), bob_answering.1)
unfolding process_session_offer verify_offer verify_json verify_bytes unsigned_offer text_eq admit
    check_and_record Map.get Map.retain accept_offer decode_x25519_public_key establish new_ack
    sign_json sign_bytes random_token peer_id_string public_key_protobuf_base64 flush_pending
bob_answered = refl

alice_accepts :
    (check_and_record
      ((env alice_answering.1.drawn).clock 0)
      (codes "ack:bob")
      (twelve 0)
      1000
      alice_answering.1.chat.replay).0
    ≡ ok tt
unfolding process_session_offer verify_offer verify_json verify_bytes unsigned_offer text_eq admit
    check_and_record Map.get Map.retain Map.insert accept_offer decode_x25519_public_key establish
    new_ack sign_json sign_bytes random_token peer_id_string public_key_protobuf_base64
    flush_pending
alice_accepts = refl

bob_accepts :
    (check_and_record
      ((env bob_answering.1.drawn).clock 0)
      (codes "ack:alice")
      (twelve 0)
      1000
      bob_answering.1.chat.replay).0
    ≡ ok tt
unfolding process_session_offer verify_offer verify_json verify_bytes unsigned_offer text_eq admit
    check_and_record Map.get Map.retain Map.insert accept_offer decode_x25519_public_key establish
    new_ack sign_json sign_bytes random_token peer_id_string public_key_protobuf_base64
    flush_pending
bob_accepts = refl

crossed_offers_example :
    IsOf (shared (codes "bob") alice_answering.1) (codes "s2")
    × IsOf (shared (codes "alice") bob_answering.1) (codes "s1")
    × IsOf
        (shared
          (codes "bob")
          (process_session_ack plain_crypto sums plain_json env alice acknowledged
            alice_answering.1).1)
        (codes "s1")
    × IsOf
        (shared
          (codes "alice")
          (process_session_ack plain_crypto sums plain_json env bob acknowledged_too
            bob_answering.1).1)
        (codes "s2")
unfolding peer_id_string
crossed_offers_example =
    crossed_offers plain_crypto sums plain_json alice bob env env waiting waiting_too 1000 1000
      (codes "s1") (codes "n") (codes "s2") (codes "n2") offered offered_too
      (direct_topic (codes "bob")) (direct_topic (codes "alice")) acknowledged_too acknowledged []
      [] asking alice_answering.1 asking_too bob_answering.1 (keys_of-IsSound (codes "alice"))
      (keys_of-IsSound (codes "bob")) sums-IsSoundCipher new_offer-offered new_offer-offered_too
      refl refl asking-pending asking_too-pending alice_answered bob_answered alice_accepts
      bob_accepts
