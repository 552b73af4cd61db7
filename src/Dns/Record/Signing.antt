-- ===== src/Dns/Record/Signing.antt =====
-- A record that was signed verifies, and lives for its time to live.
use voidnet.Base.{
  ℕ, ◌≡◌, ◌+◌, refl, ap, ◌∙◌, List, Text, Result, ok, err, map_err, >>=-eq_ok, leb, arith,
}
use voidnet.Identity.{
  Bytes, Crypto, Keypair, IsSound, verify_bytes, sign_bytes, peer_id_string,
  public_key_protobuf_base64, verify_bytes-sign_bytes,
}
use voidnet.Dns.Domain.{VoidDomain}
use voidnet.Dns.Record.{
  UnsignedDnsRecord, DnsRecord, json, identity, Encoding, unsigned, with_signature, is_expired,
  sign, seal, draft, verify,
}

unsigned-with_signature : (u : UnsignedDnsRecord) (s : Text) → unsigned (with_signature u s) ≡ u
unfolding unsigned with_signature
unsigned-with_signature u s = refl

map_err-eq_ok :
    {E F A : Type 0} (f : E → F) (r : Result E A) (a : A) → map_err f r ≡ ok a → r ≡ ok a
map_err-eq_ok f (ok b) a h = ground arith
map_err-eq_ok f (err e) a h = cc

module _ {Key : Type 0} (c : Crypto Key) (x : Encoding) (pair : Keypair Key)
    (sound : IsSound c pair) where
  verify-with_signature :
      (u : UnsignedDnsRecord) (payload : Bytes) (s : Text)
      → map_err json (x.unsigned_json u) ≡ ok payload
      → verify_bytes c u.owner_peer_id u.public_key payload s ≡ ok tt
      → verify c x (with_signature u s) ≡ ok tt
  unfolding verify with_signature
  verify-with_signature u payload s e v = rw (e, v)

  verify-seal :
      (u : UnsignedDnsRecord) (r : DnsRecord)
      → u.owner_peer_id ≡ peer_id_string c pair
      → u.public_key ≡ public_key_protobuf_base64 c pair
      → seal c x pair u ≡ ok r
      → (s : Bytes) × (r ≡ with_signature u (c.base64_encode s)) × (verify c x r ≡ ok tt)
  unfolding seal verify
  verify-seal u r owner key h =
      let (payload, e₁, h₁) = >>=-eq_ok (map_err json (x.unsigned_json u)) _ h in
      let (s, e₂, h₂) = >>=-eq_ok (map_err identity (sign_bytes c pair payload)) _ h₁ in
      let signed = verify_bytes-sign_bytes c pair payload s sound (map_err-eq_ok identity _ s e₂) in
      let built : r ≡ with_signature u (c.base64_encode s) = ground (arith, h₂) in
      (
        s,
        built,
        ap (verify c x) built
            ∙ verify-with_signature u payload (c.base64_encode s) e₁ (rw (owner, key) signed),
      )

  -- A record that `sign` made verifies, names the signer as its owner, and is expired exactly from
  -- the end of its time to live on, if signatures verify under their own key and encodings are
  -- read back.
  pub verify-sign :
      (domain : VoidDomain) (target surface : Text) (capabilities : List Text) (ttl now later : ℕ)
      (r : DnsRecord)
      → sign c x pair domain target surface capabilities ttl now ≡ ok r
      → (verify c x r ≡ ok tt)
        × (r.owner_peer_id ≡ peer_id_string c pair)
        × (is_expired r later ≡ leb (now + ttl) later)
  unfolding sign is_expired
  verify-sign domain target surface capabilities ttl now later r h =
      let (s, e, v) =
        verify-seal (draft c x pair domain target surface capabilities ttl now) r refl refl h in
      (v, ground (arith, e), ground (arith, e))

  -- and it is a record for the domain
  pub domain-sign :
      (domain : VoidDomain) (target surface : Text) (capabilities : List Text) (ttl now : ℕ)
      (r : DnsRecord)
      → sign c x pair domain target surface capabilities ttl now ≡ ok r
      → r.domain ≡ domain
  unfolding sign
  domain-sign domain target surface capabilities ttl now r h =
      let (s, e, v) =
        verify-seal (draft c x pair domain target surface capabilities ttl now) r refl refl h in
      ground (arith, e)
