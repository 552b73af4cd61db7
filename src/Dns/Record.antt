-- ===== src/Dns/Record.antt =====
-- The records of core/dns/src/lib.rs: what is signed, verified and cached. Times are milliseconds
-- and do not reach the bound of u128.
pub mod Signing
use voidnet.Base.{
  ℕ, ◌≡◌, ◌+◌, ◌-◌, ◌/◌, ◌%◌, ◌^◌, Bool, true, false, Option, none, some, List, Text, Result, ok,
  err, map_err, ◌>>=◌, ◌>>◌, if◌then◌else◌, leb, sort, dedup, arith,
}
use voidnet.Base.Map.{Map}
use voidnet.Protocol.Uri.{VoidUri}
use voidnet.Identity.{
  Bytes, Crypto, Keypair, IsSound, IdentityError, peer_id_string, public_key_protobuf_base64,
  sign_bytes, verify_bytes, verify_bytes-sign_bytes,
}
use voidnet.Dns.Domain.{VoidDomain}

pub record UnsignedDnsRecord : Type 0 where
  pub domain : VoidDomain
  pub owner_peer_id : Text
  pub target_peer_id : Text
  pub runtime_surface : Text
  pub capabilities : List Text
  pub created_at_unix_ms : ℕ
  pub expires_at_unix_ms : ℕ
  pub public_key : Text

pub record DnsRecord : Type 0 where
  pub domain : VoidDomain
  pub owner_peer_id : Text
  pub target_peer_id : Text
  pub runtime_surface : Text
  pub capabilities : List Text
  pub created_at_unix_ms : ℕ
  pub expires_at_unix_ms : ℕ
  pub public_key : Text
  pub signature : Text

-- The errors that the modelled operations give; `io` is a failure to write the cache.
pub data VoidDnsError : Type 0 where
  io json : Text → VoidDnsError
  invalid_domain expired_record : Text → VoidDnsError
  identity : IdentityError → VoidDnsError

unfoldable pub normalize_capabilities : List Text → List Text
unfolding sort dedup
normalize_capabilities capabilities = dedup (sort capabilities)

unfoldable pub is_expired : DnsRecord → ℕ → Bool
is_expired r now = leb r.expires_at_unix_ms now

-- in seconds, `as u64`
unfoldable pub ttl_remaining_secs : DnsRecord → ℕ → ℕ
unfolding is_expired
ttl_remaining_secs r now =
    if is_expired r now then 0 else (r.expires_at_unix_ms - now) / 1000 % 2 ^ 64

unfoldable pub unsigned : DnsRecord → UnsignedDnsRecord
unsigned r = record {
  domain = r.domain;
  owner_peer_id = r.owner_peer_id;
  target_peer_id = r.target_peer_id;
  runtime_surface = r.runtime_surface;
  capabilities = r.capabilities;
  created_at_unix_ms = r.created_at_unix_ms;
  expires_at_unix_ms = r.expires_at_unix_ms;
  public_key = r.public_key;
}

-- `serde_json::to_vec` of the two kinds of records, and the hexadecimal blake3 hash.
pub record Encoding : Type 0 where
  pub unsigned_json : UnsignedDnsRecord → Result Text Bytes
  pub record_json : DnsRecord → Result Text Bytes
  pub blake3_hex : Bytes → Text

unfoldable pub fingerprint : Encoding → DnsRecord → Result VoidDnsError Text
fingerprint x r = do bytes ← map_err json (x.record_json r); ok (x.blake3_hex bytes)

-- What the signer adds to an unsigned record.
unfoldable pub with_signature : UnsignedDnsRecord → Text → DnsRecord
with_signature u signature = record {
  domain = u.domain;
  owner_peer_id = u.owner_peer_id;
  target_peer_id = u.target_peer_id;
  runtime_surface = u.runtime_surface;
  capabilities = u.capabilities;
  created_at_unix_ms = u.created_at_unix_ms;
  expires_at_unix_ms = u.expires_at_unix_ms;
  public_key = u.public_key;
  signature = signature;
}

module _ {Key : Type 0} (c : Crypto Key) (x : Encoding) where
  -- the record that `sign` builds before it signs
  unfoldable pub draft :
      Keypair Key → VoidDomain → Text → Text → List Text → ℕ → ℕ → UnsignedDnsRecord
  draft pair domain target surface capabilities ttl now = record {
    domain = domain;
    owner_peer_id = peer_id_string c pair;
    target_peer_id = target;
    runtime_surface = surface;
    capabilities = normalize_capabilities capabilities;
    created_at_unix_ms = now;
    expires_at_unix_ms = now + ttl;
    public_key = public_key_protobuf_base64 c pair;
  }

  unfoldable pub seal : Keypair Key → UnsignedDnsRecord → Result VoidDnsError DnsRecord
  unfolding with_signature
  seal pair u = do
    payload ← map_err json (x.unsigned_json u)
    signature ← map_err identity (sign_bytes c pair payload)
    ok (with_signature u (c.base64_encode signature))

  -- `DnsRecord::sign` at the time `now`, with the time to live in milliseconds
  unfoldable pub sign :
      Keypair Key → VoidDomain → Text → Text → List Text → ℕ → ℕ → Result VoidDnsError DnsRecord
  unfolding draft seal
  sign pair domain target surface capabilities ttl now =
      seal pair (draft pair domain target surface capabilities ttl now)

  -- `DnsRecord::verify`
  unfoldable pub verify : DnsRecord → Result VoidDnsError (Unit {0})
  unfolding unsigned
  verify r = do
    payload ← map_err json (x.unsigned_json (unsigned r))
    map_err identity (verify_bytes c r.owner_peer_id r.public_key payload r.signature)
