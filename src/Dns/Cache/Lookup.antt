-- ===== src/Dns/Cache/Lookup.antt =====
-- The operations of `PersistentVoidDns` that purge, list, inspect and resolve.
use voidnet.Base.{
  ℕ, Bool, true, not, Option, none, some, List, [], ◌∷◌, Text, Result, ok, err, ◌>>=◌, ◌>>◌,
  if◌then◌else◌,
}
use mathlib.Core.List.{flatten}
use voidnet.Base.Map
use voidnet.Base.Map.{Map}
use voidnet.Protocol.Uri.{VoidUri}
use voidnet.Dns.Domain
use voidnet.Dns.Domain.{VoidDomain, DomainError}
use voidnet.Dns.Record.{DnsRecord, VoidDnsError, invalid_domain, is_expired, ttl_remaining_secs}
use voidnet.Dns.Cache.{DnsCacheEntry, DnsConflict, DnsCacheSnapshot, Persist, Checks}

pub record DnsResolvedRoute : Type 0 where
  pub uri : VoidUri
  pub domain : VoidDomain
  pub target_peer_id : Text
  pub runtime_surface : Text
  pub capabilities : List Text
  pub ttl_remaining_secs : ℕ
  pub signature_verified : Bool
  pub resolution_latency_ms : ℕ

pub record DnsInspection : Type 0 where
  pub domain : VoidDomain
  pub active_record : Option DnsCacheEntry
  pub conflicts : List DnsConflict
  pub ttl_remaining_secs : Option ℕ

pub record DnsPropagationMessage : Type 0 where
  pub event_id : Text
  pub issued_at_unix_ms : ℕ
  pub dns_record : DnsRecord

-- the records that `retain` drops, in the order of their keys
unfoldable pub expired_records : ℕ → Map DnsCacheEntry → List DnsRecord
expired_records now [] = []
expired_records now ((k, entry) ∷ m) =
    let rest = expired_records now m in
    if is_expired entry.dns_record now then entry.dns_record ∷ rest else rest

abbrev pub lives : ℕ → DnsCacheEntry → Bool
lives now entry = not (is_expired entry.dns_record now)

abbrev pub finish_purge :
    Persist
    → ℕ
    → List DnsRecord
    → DnsCacheSnapshot
    → Result VoidDnsError (List DnsRecord) × DnsCacheSnapshot
finish_purge persist now [] s = (ok [], s)
finish_purge persist now (r ∷ expired) s =
    let s' = record s { updated_unix_ms = now } in ((persist s' >> ok (r ∷ expired)), s')

unfoldable pub purge_expired :
    Persist → ℕ → DnsCacheSnapshot → Result VoidDnsError (List DnsRecord) × DnsCacheSnapshot
purge_expired persist now s =
    finish_purge persist now (expired_records now s.records)
      (record s { records = Map.retain (lives now) s.records })

unfoldable pub list_records : DnsCacheSnapshot → List DnsCacheEntry
list_records s = Map.values s.records

unfoldable pub list_conflicts : DnsCacheSnapshot → List DnsConflict
list_conflicts s = flatten (Map.values s.conflicts)

abbrev pub remaining : ℕ → Option DnsCacheEntry → Option ℕ
remaining now none = none
remaining now (some entry) = some (ttl_remaining_secs entry.dns_record now)

unfoldable pub inspect : ℕ → VoidDomain → DnsCacheSnapshot → DnsInspection
inspect now domain s = record {
  domain = domain;
  active_record = Map.get domain.as_str s.records;
  conflicts = Map.or_default [] (Map.get domain.as_str s.conflicts);
  ttl_remaining_secs = remaining now (Map.get domain.as_str s.records);
}

abbrev pub record_of : Option DnsCacheEntry → Option DnsRecord
record_of none = none
record_of (some entry) = some entry.dns_record

abbrev pub after_purge :
    VoidDomain
    → Result VoidDnsError (List DnsRecord) × DnsCacheSnapshot
    → Result VoidDnsError (Option DnsRecord) × DnsCacheSnapshot
after_purge domain (r, s) = ((r >> ok (record_of (Map.get domain.as_str s.records))), s)

unfoldable pub resolve :
    Persist
    → ℕ
    → VoidDomain
    → DnsCacheSnapshot
    → Result VoidDnsError (Option DnsRecord) × DnsCacheSnapshot
resolve persist now domain s = after_purge domain (purge_expired persist now s)

abbrev pub domain_error : DomainError → VoidDnsError
domain_error (DomainError.invalid_domain d) = invalid_domain d

abbrev pub route_of : VoidUri → VoidDomain → ℕ → ℕ → Option DnsRecord → Option DnsResolvedRoute
route_of uri domain later latency none = none
route_of uri domain later latency (some r) = some (record {
  uri = uri;
  domain = domain;
  target_peer_id = r.target_peer_id;
  runtime_surface = r.runtime_surface;
  capabilities = r.capabilities;
  ttl_remaining_secs = ttl_remaining_secs r later;
  signature_verified = true;
  resolution_latency_ms = latency;
})

abbrev routed :
    VoidUri
    → VoidDomain
    → ℕ
    → ℕ
    → Result VoidDnsError (Option DnsRecord) × DnsCacheSnapshot
    → Result VoidDnsError (Option DnsResolvedRoute) × DnsCacheSnapshot
routed uri domain later latency (r, s) =
    ((r >>= λ found. ok (route_of uri domain later latency found)), s)

abbrev resolve_in :
    Persist
    → ℕ
    → ℕ
    → ℕ
    → VoidUri
    → DnsCacheSnapshot
    → Result DomainError VoidDomain
    → Result VoidDnsError (Option DnsResolvedRoute) × DnsCacheSnapshot
resolve_in persist now later latency uri s (err e) = (err (domain_error e), s)
resolve_in persist now later latency uri s (ok domain) =
    routed uri domain later latency (resolve persist now domain s)

-- `resolve_route`: the cache is purged at `now`, and the remaining time is taken at `later`.
unfoldable pub resolve_route :
    Persist
    → ℕ
    → ℕ
    → ℕ
    → VoidUri
    → DnsCacheSnapshot
    → Result VoidDnsError (Option DnsResolvedRoute) × DnsCacheSnapshot
resolve_route persist now later latency uri s =
    resolve_in persist now later latency uri s (Domain.new uri.authority)

unfoldable pub propagation_message :
    Checks → ℕ → DnsRecord → Result VoidDnsError DnsPropagationMessage
propagation_message x now r = do
  event_id ← x.fingerprint r
  ok (record { event_id = event_id; issued_at_unix_ms = now; dns_record = r })
