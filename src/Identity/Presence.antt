-- ===== src/Identity/Presence.antt =====
-- The signed presence of a peer: `SignedPeerPresence` of core/identity/src/lib.rs. The time of the
-- presence is an argument, and so is the blake3 hash.
use voidnet.Base.{
  ℕ, ◌≡◌, sym, ap, ◌++◌, not, Text, Result, ok, err, map_err, >>=-eq_ok, map_err-eq_ok, ◌>>=◌,
  if◌then◌else◌, text_eq, text_eq_refl, codes, decimal, utf8, arith, subst,
}
use voidnet.Identity.{
  Bytes, Crypto, Keypair, IsSound, IdentityError, base64, network_identity, peer_id_mismatch,
  invalid_presence_signature, peer_id_string, public_key_protobuf_base64,
}

pub record SignedPeerPresence : Type 0 where
  pub peer_id : Text
  pub public_key : Text
  pub agent : Text
  pub issued_unix_ms : ℕ
  pub nonce : Text
  pub signature : Text

abbrev pub colon : Text
colon = codes ":"

unfoldable pub presence_payload : Text → Text → ℕ → Text → Text
presence_payload peer_id agent issued_unix_ms nonce =
    codes "voidnet/presence/v1:"
    ++ (peer_id ++ colon ++ (agent ++ colon ++ (decimal issued_unix_ms ++ colon ++ nonce)))

module _ {Key : Type 0} (c : Crypto Key) where
  -- the presence with its signature
  abbrev pub presence : Keypair Key → Text → ℕ → Text → Bytes → SignedPeerPresence
  presence pair agent issued_unix_ms nonce signature = record {
    peer_id = peer_id_string c pair;
    public_key = public_key_protobuf_base64 c pair;
    agent = agent;
    issued_unix_ms = issued_unix_ms;
    nonce = nonce;
    signature = c.base64_encode signature;
  }

  unfoldable pub sign_presence :
      (blake3_hex : Bytes → Text)
      → Keypair Key
      → (agent : Text) (issued_unix_ms : ℕ) → Result IdentityError SignedPeerPresence
  sign_presence blake3_hex pair agent issued_unix_ms =
      let peer_id = peer_id_string c pair in
      let nonce = blake3_hex (utf8 (peer_id ++ colon ++ decimal issued_unix_ms)) in
      do
        signature ←
            map_err network_identity
              (pair.key_sign (utf8 (presence_payload peer_id agent issued_unix_ms nonce)))
        ok (presence pair agent issued_unix_ms nonce signature)

  unfoldable pub verify_presence : SignedPeerPresence → Result IdentityError (Unit {0})
  verify_presence p = do
    public_key_bytes ← map_err base64 (c.base64_decode p.public_key)
    key ← map_err network_identity (c.try_decode_protobuf public_key_bytes)
    if not (text_eq (c.to_peer_id key) p.peer_id)
        then err (peer_id_mismatch (c.to_peer_id key) p.peer_id)
        else do
          signature ← map_err base64 (c.base64_decode p.signature)
          if not (
                c.key_verify key
                  (utf8 (presence_payload p.peer_id p.agent p.issued_unix_ms p.nonce)) signature)
              then err invalid_presence_signature
              else ok tt

  verify_presence-presence :
      (pair : Keypair Key) (agent : Text) (issued_unix_ms : ℕ) (nonce : Text) (s : Bytes)
      → IsSound c pair
      → pair.key_sign (utf8 (presence_payload (peer_id_string c pair) agent issued_unix_ms nonce))
        ≡ ok s
      → verify_presence (presence pair agent issued_unix_ms nonce s) ≡ ok tt
  unfolding verify_presence peer_id_string public_key_protobuf_base64
  verify_presence-presence pair agent issued_unix_ms nonce s sound signed =
      let valid = sound.verifies _ s signed in
      rw (sound.base64_back, sound.protobuf_back, text_eq_refl, sound.base64_back)
        (ground (arith, valid))

  -- A presence that a key pair signs is accepted, if signatures verify under their own key and
  -- encodings are read back, and it names the key pair's peer and the agent and time that were given.
  pub verify_presence-sign_presence :
      (blake3_hex : Bytes → Text) (pair : Keypair Key) (agent : Text) (issued_unix_ms : ℕ)
      (p : SignedPeerPresence)
      → IsSound c pair
      → sign_presence blake3_hex pair agent issued_unix_ms ≡ ok p
      → (verify_presence p ≡ ok tt)
        × (p.peer_id ≡ peer_id_string c pair)
        × (p.agent ≡ agent)
        × (p.issued_unix_ms ≡ issued_unix_ms)
  unfolding sign_presence
  verify_presence-sign_presence blake3_hex pair agent issued_unix_ms p sound h =
      let nonce = blake3_hex (utf8 (peer_id_string c pair ++ colon ++ decimal issued_unix_ms)) in
      let payload = utf8 (presence_payload (peer_id_string c pair) agent issued_unix_ms nonce) in
      let (s, signed, same) = >>=-eq_ok (map_err network_identity (pair.key_sign payload)) _ h in
      let e : presence pair agent issued_unix_ms nonce s ≡ p = cc in
      let valid =
        verify_presence-presence pair agent issued_unix_ms nonce s sound
          (map_err-eq_ok network_identity _ signed) in
      (
        subst (λ p. verify_presence p ≡ ok tt) (e) valid,
        ap SignedPeerPresence.peer_id (sym e),
        ap SignedPeerPresence.agent (sym e),
        ap SignedPeerPresence.issued_unix_ms (sym e),
      )
