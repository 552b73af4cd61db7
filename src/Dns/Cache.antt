-- ===== src/Dns/Cache.antt =====
-- `PersistentVoidDns` of core/dns/src/lib.rs: the cache of records and the conflicts that it noted.
-- A write of the cache file is the argument `persist`, which may fail after the state has changed.
pub mod Lookup
pub mod Effect
pub mod Ownership
pub mod Expiry
pub mod Invariant
pub mod Publish
pub mod Echo
use voidnet.Base.{
  ℕ, ◌≡◌, ◌+◌, refl, Bool, true, false, not, Option, none, some, List, [], ◌∷◌, ◌++◌, Text, codes,
  Result, ok, err, ◌>>=◌, ◌>>◌, if◌then◌else◌, leb, text_eq, any, map,
}
use voidnet.Base.Map
use voidnet.Base.Map.{Map}
use voidnet.Protocol.Uri.{VoidUri}
use voidnet.Dns.Domain
use voidnet.Dns.Domain.{VoidDomain}
use voidnet.Dns.Record.{
  DnsRecord, VoidDnsError, invalid_domain, expired_record, is_expired, ttl_remaining_secs,
}

-- What the cache asks of a record: `verify` and `fingerprint`.
pub record Checks : Type 0 where
  pub verify : DnsRecord → Result VoidDnsError (Unit {0})
  pub fingerprint : DnsRecord → Result VoidDnsError Text

pub data DnsRecordSource : Type 0 where
  local_publish mesh_propagation cache_restore : DnsRecordSource

pub record DnsCacheEntry : Type 0 where
  pub dns_record : DnsRecord
  pub verified : Bool
  pub source : DnsRecordSource
  pub cached_at_unix_ms : ℕ

pub record DnsConflict : Type 0 where
  pub domain : VoidDomain
  pub active_owner_peer_id : Text
  pub conflicting_owner_peer_id : Text
  pub active_record_fingerprint : Text
  pub conflicting_record_fingerprint : Text
  pub detected_at_unix_ms : ℕ
  pub reason : Text

pub record DnsCacheSnapshot : Type 0 where
  pub records : Map DnsCacheEntry
  pub conflicts : Map (List DnsConflict)
  pub updated_unix_ms : ℕ

pub data DnsApplyOutcome : Type 0 where
  published updated duplicate : DnsRecord → DnsApplyOutcome
  conflict : DnsRecord → DnsRecord → DnsConflict → DnsApplyOutcome

abbrev pub Persist : Type 0
Persist = DnsCacheSnapshot → Result VoidDnsError (Unit {0})

-- the key of a record in the cache
abbrev pub key_of : DnsRecord → Text
key_of r = r.domain.as_str

-- the write at the end of a change
abbrev pub commit :
    Persist
    → DnsApplyOutcome
    → DnsCacheSnapshot
    → Result VoidDnsError DnsApplyOutcome × DnsCacheSnapshot
commit persist outcome s = ((persist s >> ok outcome), s)

abbrev pub entry_of : ℕ → DnsRecordSource → DnsRecord → DnsCacheEntry
entry_of now source r = record {
  dns_record = r;
  verified = true;
  source = source;
  cached_at_unix_ms = now;
}

unfoldable pub store :
    Persist
    → ℕ
    → DnsRecord
    → DnsRecordSource
    → DnsCacheSnapshot
    → Result VoidDnsError DnsApplyOutcome × DnsCacheSnapshot
store persist now r source s =
    let outcome = if Map.contains_key (key_of r) s.records then updated r else published r in
    commit persist outcome (record s {
      records = Map.insert (key_of r) (entry_of now source r) s.records;
      updated_unix_ms = now;
    })

unfoldable pub conflict_of : ℕ → DnsRecord → DnsRecord → Text → Text → DnsConflict
conflict_of now active incoming active_print incoming_print = record {
  domain = incoming.domain;
  active_owner_peer_id = active.owner_peer_id;
  conflicting_owner_peer_id = incoming.owner_peer_id;
  active_record_fingerprint = active_print;
  conflicting_record_fingerprint = incoming_print;
  detected_at_unix_ms = now;
  reason = codes "duplicate ownership advertisement";
}

-- A conflict is noted once for each fingerprint.
unfoldable pub note_conflict : DnsConflict → List DnsConflict → List DnsConflict
note_conflict c noted =
    if any (λ entry. text_eq entry.conflicting_record_fingerprint c.conflicting_record_fingerprint)
      noted
    then noted
    else noted ++ c ∷ []

unfoldable pub record_conflict :
    Persist
    → ℕ
    → DnsRecord
    → DnsRecord
    → DnsConflict
    → DnsCacheSnapshot
    → Result VoidDnsError DnsApplyOutcome × DnsCacheSnapshot
unfolding note_conflict
record_conflict persist now active incoming c s =
    commit persist (conflict active incoming c) (record s {
      conflicts = Map.upsert (key_of incoming) [] (note_conflict c) s.conflicts;
      updated_unix_ms = now;
    })

module _ (x : Checks) where
  -- `incoming` against a record of its domain that has not expired
  unfoldable pub compete :
      Persist
      → ℕ
      → DnsRecord
      → DnsRecord
      → DnsRecordSource
      → DnsCacheSnapshot
      → Text
      → Text
      → Result VoidDnsError DnsApplyOutcome × DnsCacheSnapshot
  unfolding store record_conflict conflict_of
  compete persist now active incoming source s active_print incoming_print =
      if text_eq active_print incoming_print
      then (ok (duplicate active), s)
      else if not (text_eq active.owner_peer_id incoming.owner_peer_id)
      then record_conflict persist now active incoming
          (conflict_of now active incoming active_print incoming_print) s
      else if leb incoming.created_at_unix_ms active.created_at_unix_ms
      then (ok (duplicate active), s)
      else store persist now incoming source s

  abbrev pub with_prints :
      Result VoidDnsError Text
      → Result VoidDnsError Text
      → DnsCacheSnapshot
      → (Text → Text → Result VoidDnsError DnsApplyOutcome × DnsCacheSnapshot)
      → Result VoidDnsError DnsApplyOutcome × DnsCacheSnapshot
  with_prints (ok a) (ok b) s k = k a b
  with_prints (ok a) (err e) s k = (err e, s)
  with_prints (err e) b s k = (err e, s)

  -- `incoming` against what the cache holds for its domain
  unfoldable pub admit :
      Persist
      → ℕ
      → DnsRecord
      → DnsRecordSource
      → DnsCacheSnapshot
      → Option DnsCacheEntry
      → Result VoidDnsError DnsApplyOutcome × DnsCacheSnapshot
  unfolding store
  admit persist now incoming source s none = store persist now incoming source s
  admit persist now incoming source s (some existing) =
      if is_expired existing.dns_record now
      then store persist now incoming source
          (record s { records = Map.remove (key_of incoming) s.records })
      else with_prints (x.fingerprint existing.dns_record) (x.fingerprint incoming) s
          (compete persist now existing.dns_record incoming source s)

  abbrev pub after_verify :
      Result VoidDnsError (Unit {0})
      → DnsCacheSnapshot
      → Result VoidDnsError DnsApplyOutcome × DnsCacheSnapshot
      → Result VoidDnsError DnsApplyOutcome × DnsCacheSnapshot
  after_verify (ok _) s rest = rest
  after_verify (err e) s rest = (err e, s)

  -- `apply_record` at the time `now`
  unfoldable pub apply_record :
      Persist
      → ℕ
      → DnsRecord
      → DnsRecordSource
      → DnsCacheSnapshot
      → Result VoidDnsError DnsApplyOutcome × DnsCacheSnapshot
  apply_record persist now incoming source s = after_verify (x.verify incoming) s (
      if is_expired incoming now
      then (err (expired_record (key_of incoming)), s)
      else admit persist now incoming source s (Map.get (key_of incoming) s.records))
