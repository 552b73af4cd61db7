-- ===== src/Dns/Tests.antt =====
-- Runs of the models of core/identity and core/dns at fixed inputs, and instances of their theorems.
use voidnet.Base.{
  ◌≡◌, refl, ◌++◌, [], ◌∷◌, true, false, none, some, Text, codes, Result, ok, ◌>>◌, text_eq,
  text_eq_refl, leb, arith, is_ascii_alphanumeric, to_ascii_lowercase, ends_with,
}
use voidnet.Base.Map
use voidnet.Base.Map.{IsSorted}
use voidnet.Protocol.Uri.{scheme_prefix, from_str, is_void_domain}
use voidnet.Identity.{
  Crypto, Keypair, IsSound, sign_bytes, peer_id_string, public_key_protobuf_base64,
}
use voidnet.Dns.Domain.{VoidDomain, new, checked, split, trim_end_matches, is_label_char}
use voidnet.Dns.Domain.Laws.{from_str-domain, domain_uri}
use voidnet.Dns.Record.{
  DnsRecord, VoidDnsError, Encoding, sign, seal, draft, verify, is_expired, with_signature,
  normalize_capabilities,
}
use voidnet.Dns.Record.Signing.{verify-sign}
use voidnet.Dns.Cache.{
  Checks, DnsCacheEntry, DnsCacheSnapshot, DnsApplyOutcome, published, conflict, conflict_of,
  cache_restore, admit, compete, record_conflict, local_publish, mesh_propagation, Persist,
  entry_of, apply_record,
}
use voidnet.Dns.Cache.Lookup.{purge_expired, resolve}
use voidnet.Dns.Cache.Expiry.{get-purge_expired, resolve_lem, live_entry, live_record}
use voidnet.Dns.Cache.Ownership.{Succeeds, apply_record-Succeeds}
use voidnet.Dns.Cache.Invariant.{
  empty, Reach, start, next, applied, purged, IsSound as IsSoundCache, Reach-IsSound,
}
use voidnet.Dns.Cache.Echo.{apply_record_again}
use voidnet.Dns.Cache.Publish.{publish_record, resolve-publish_record}

abbrev chat_text : Text
chat_text = codes "chat.void"

abbrev chat : VoidDomain
chat = record { as_str = chat_text }

new-chat : new (codes "Chat.void") ≡ ok chat
unfolding new checked split trim_end_matches is_label_char is_ascii_alphanumeric to_ascii_lowercase
    ends_with text_eq
new-chat = refl

from_str-domain_example :
    (from_str (scheme_prefix ++ chat_text) ≡ ok (domain_uri chat))
    × (is_void_domain (domain_uri chat) ≡ true)
from_str-domain_example = from_str-domain (codes "Chat.void") chat new-chat

-- Keys are texts that serve as their own encoding, and a signature is the key before the payload.
abbrev plain_crypto : Crypto Text
plain_crypto = record {
  base64_encode = λ b. b;
  base64_decode = λ t. ok t;
  encode_protobuf = λ k. k;
  try_decode_protobuf = λ b. ok b;
  to_peer_id = λ k. k;
  key_verify = λ k payload s. text_eq s (k ++ payload);
}

abbrev alice : Keypair Text
alice = record { public = codes "alice"; key_sign = λ payload. ok (codes "alice" ++ payload) }

alice-IsSound : IsSound plain_crypto alice
alice-IsSound = record {
  base64_back = λ b. refl;
  protobuf_back = λ k. refl;
  verifies = λ payload s h. ground (arith, text_eq_refl s);
}

-- The payload of a record is its domain, and a fingerprint the payload.
abbrev plain_encoding : Encoding
plain_encoding = record {
  unsigned_json = λ u. ok u.domain.as_str;
  record_json = λ r. ok r.domain.as_str;
  blake3_hex = λ b. b;
}

-- What alice signs at the time 100 for 50 milliseconds.
abbrev chat_record : DnsRecord
chat_record = record {
  domain = chat;
  owner_peer_id = codes "alice";
  target_peer_id = codes "alice";
  runtime_surface = codes "chat";
  capabilities = codes "chat" ∷ [];
  created_at_unix_ms = 100;
  expires_at_unix_ms = 150;
  public_key = codes "alice";
  signature = codes "alicechat.void";
}

sign-chat :
    sign plain_crypto plain_encoding alice chat
      (codes "alice")
      (codes "chat")
      (codes "chat" ∷ [])
      50
      100
    ≡ ok chat_record
unfolding sign seal draft sign_bytes with_signature normalize_capabilities peer_id_string
    public_key_protobuf_base64
sign-chat = refl

verify-sign_example :
    (verify plain_crypto plain_encoding chat_record ≡ ok tt)
    × (codes "alice" ≡ peer_id_string plain_crypto alice)
    × (is_expired chat_record 120 ≡ leb 150 120)
verify-sign_example =
    verify-sign plain_crypto plain_encoding alice alice-IsSound chat (codes "alice") (codes "chat")
      (codes "chat" ∷ []) 50 100 120 chat_record sign-chat

-- Writes that succeed.
abbrev saved : Persist
saved s = ok tt

get-empty : Map.get chat_text empty.records ≡ none
unfolding Map.get
get-empty = refl

abbrev after_publication : Result VoidDnsError (DnsRecord × DnsApplyOutcome) × DnsCacheSnapshot
after_publication =
    publish_record plain_crypto plain_encoding alice chat (codes "alice") (codes "chat")
      (codes "chat" ∷ []) 50 100 101 saved empty

resolve-publish_record_example :
    (after_publication.0 ≡ ok (chat_record, published chat_record))
    × ((resolve saved 120 chat after_publication.1).0 ≡ ok (some chat_record))
resolve-publish_record_example =
    resolve-publish_record plain_crypto plain_encoding alice alice-IsSound chat (codes "alice")
      (codes "chat") (codes "chat" ∷ []) 50 100 101 120 saved empty chat_record (λ s'. refl) tt
      get-empty sign-chat (omega arith) (omega arith)

-- A cache that takes every record, and that holds alice's.
abbrev trusting : Checks
trusting = record { verify = λ r. ok tt; fingerprint = λ r. ok r.owner_peer_id }

abbrev chat_entry : DnsCacheEntry
chat_entry = entry_of 101 local_publish chat_record

abbrev holding : DnsCacheSnapshot
holding = record { records = (chat_text, chat_entry) ∷ []; conflicts = []; updated_unix_ms = 101 }

get-holding : Map.get chat_text holding.records ≡ some chat_entry
unfolding Map.get text_eq
get-holding = refl

chat_lives : is_expired chat_entry.dns_record 120 ≡ false
unfolding is_expired
chat_lives = refl

-- Mallory's record for the same domain, which is younger.
abbrev rival_record : DnsRecord
rival_record = record chat_record { owner_peer_id = codes "mallory"; created_at_unix_ms = 119 }

apply_record-Succeeds_example :
    Succeeds chat_record chat_text
      (apply_record trusting saved 120 rival_record mesh_propagation holding).1
apply_record-Succeeds_example =
    apply_record-Succeeds trusting saved 120 mesh_propagation rival_record holding chat_text
      chat_entry get-holding chat_lives

holding-IsSorted : IsSorted holding.records
holding-IsSorted = (tt, tt)

get-purge_expired_example :
    (Map.get chat_text (purge_expired saved 200 holding).1.records
      ≡ live_entry 200 (Map.get chat_text holding.records))
    × (purge_expired saved 200 (purge_expired saved 200 holding).1
        ≡ (ok [], (purge_expired saved 200 holding).1))
get-purge_expired_example = get-purge_expired saved 200 holding chat_text holding-IsSorted

resolve_lem_example : (resolve saved 120 chat holding).0 ≡ (
    (purge_expired saved 120 holding).0 >> ok (live_record 120 (Map.get chat_text holding.records)))
resolve_lem_example = resolve_lem saved 120 chat holding holding-IsSorted

abbrev after_two : DnsCacheSnapshot
after_two =
    (purge_expired saved 200
      (apply_record trusting saved 120 rival_record mesh_propagation empty).1).1

after_two_reached : Reach trusting after_two
after_two_reached =
    next (next start (applied saved 120 rival_record mesh_propagation empty))
      (purged saved 200 (apply_record trusting saved 120 rival_record mesh_propagation empty).1)

Reach-IsSound_example : IsSoundCache trusting after_two
Reach-IsSound_example = Reach-IsSound trusting after_two after_two_reached

-- Mallory's record is noted as a conflict, and comes a second time from the cache file.
abbrev noted : Result VoidDnsError DnsApplyOutcome × DnsCacheSnapshot
noted = apply_record trusting saved 120 rival_record mesh_propagation holding

abbrev rivalry : DnsApplyOutcome
rivalry =
    conflict chat_record rival_record
      (conflict_of 120 chat_record rival_record (codes "alice") (codes "mallory"))

rival-noted : noted ≡ (ok rivalry, noted.1)
unfolding apply_record admit compete record_conflict is_expired Map.get text_eq
rival-noted = refl

apply_record_again_example :
    apply_record trusting saved 120 rival_record cache_restore noted.1 ≡ (ok rivalry, noted.1)
apply_record_again_example =
    apply_record_again trusting saved 120 mesh_propagation cache_restore rival_record
      (codes "mallory") holding rivalry noted.1 refl rival-noted
