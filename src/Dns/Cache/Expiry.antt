-- ===== src/Dns/Cache/Expiry.antt =====
-- What a purge and a lookup leave and return.
use voidnet.Base.{
  ℕ, ◌≡◌, refl, sym, ap, ◌∙◌, Option, none, some, List, [], ◌∷◌, Text, ok, ◌>>◌, arith,
  if◌then◌else◌,
}
use voidnet.Base.Map
use voidnet.Base.Map.{Map, IsSorted, get-retain, keep_if}
use voidnet.Dns.Domain.{VoidDomain}
use voidnet.Dns.Record.{DnsRecord, is_expired}
use voidnet.Dns.Cache.{DnsCacheEntry, DnsCacheSnapshot, Persist}
use voidnet.Dns.Cache.Lookup.{
  expired_records, lives, finish_purge, purge_expired, record_of, resolve,
}

pub finish_purge-records :
    (persist : Persist) (now : ℕ) (expired : List DnsRecord) (s : DnsCacheSnapshot)
    → (finish_purge persist now expired s).1.records ≡ s.records
finish_purge-records persist now [] s = refl
finish_purge-records persist now (r ∷ expired) s = refl

purge_expired-records :
    (persist : Persist) (now : ℕ) (s : DnsCacheSnapshot)
    → (purge_expired persist now s).1.records ≡ Map.retain (lives now) s.records
unfolding purge_expired
purge_expired-records persist now s =
    finish_purge-records persist now (expired_records now s.records)
      (record s { records = Map.retain (lives now) s.records })

pub get-purge_expired_retained :
    (persist : Persist) (now : ℕ) (s : DnsCacheSnapshot) (k : Text)
    → IsSorted s.records
    → Map.get k (purge_expired persist now s).1.records ≡ keep_if (lives now) (Map.get k s.records)
get-purge_expired_retained persist now s k sorted =
    ap (Map.get k) (purge_expired-records persist now s) ∙ get-retain (lives now) k s.records sorted

-- What an entry is after its expiry.
abbrev pub live_entry : ℕ → Option DnsCacheEntry → Option DnsCacheEntry
live_entry now none = none
live_entry now (some e) = if is_expired e.dns_record now then none else some e

keep_if-live_entry : (now : ℕ) (o : Option DnsCacheEntry) → keep_if (lives now) o ≡ live_entry now o
keep_if-live_entry now o = ground arith

expired_records-retain :
    (now : ℕ) (m : Map DnsCacheEntry) → expired_records now (Map.retain (lives now) m) ≡ []
unfolding expired_records Map.retain
expired_records-retain now [] = refl
expired_records-retain now ((k, e) ∷ m) = ground (arith, expired_records-retain now m)

retain-retain :
    (now : ℕ) (m : Map DnsCacheEntry)
    → Map.retain (lives now) (Map.retain (lives now) m) ≡ Map.retain (lives now) m
unfolding Map.retain
retain-retain now [] = refl
retain-retain now ((k, e) ∷ m) = ground (arith, retain-retain now m)

purge_expired_nothing :
    (persist : Persist) (now : ℕ) (s : DnsCacheSnapshot)
    → expired_records now s.records ≡ []
    → Map.retain (lives now) s.records ≡ s.records
    → purge_expired persist now s ≡ (ok [], s)
unfolding purge_expired
purge_expired_nothing persist now s none_expired all_live = rw (none_expired, all_live) refl

purge_expired_twice :
    (persist : Persist) (now : ℕ) (s : DnsCacheSnapshot)
    → purge_expired persist now (purge_expired persist now s).1
      ≡ (ok [], (purge_expired persist now s).1)
purge_expired_twice persist now s =
    let same = purge_expired-records persist now s in
    purge_expired_nothing persist now (purge_expired persist now s).1
      (ap (expired_records now) same ∙ expired_records-retain now s.records)
      (ap (Map.retain (lives now)) same ∙ retain-retain now s.records ∙ sym same)

-- In a cache whose keys ascend, after a purge each key holds what it held, if that has not expired
-- at the time of the purge, and nothing otherwise, whether or not the cache file could be written; and
-- a second purge at that time answers that nothing has expired and changes nothing.
pub get-purge_expired :
    (persist : Persist) (now : ℕ) (s : DnsCacheSnapshot) (k : Text)
    → IsSorted s.records
    → (Map.get k (purge_expired persist now s).1.records ≡ live_entry now (Map.get k s.records))
      × (purge_expired persist now (purge_expired persist now s).1
          ≡ (ok [], (purge_expired persist now s).1))
get-purge_expired persist now s k sorted = (
  get-purge_expired_retained persist now s k sorted ∙ keep_if-live_entry now (Map.get k s.records),
  purge_expired_twice persist now s,
)

-- What a lookup finds in a purged cache.
abbrev pub live_record : ℕ → Option DnsCacheEntry → Option DnsRecord
live_record now none = none
live_record now (some e) = if is_expired e.dns_record now then none else some e.dns_record

record_of-keep_if :
    (now : ℕ) (o : Option DnsCacheEntry) → record_of (keep_if (lives now) o) ≡ live_record now o
record_of-keep_if now o = ground arith

-- In a cache whose keys ascend: if `resolve` succeeds it returns the record that the cache held for the domain, if that has not
-- expired, and nothing otherwise; it fails only where the purge failed to write the cache file.
pub resolve_lem :
    (persist : Persist) (now : ℕ) (domain : VoidDomain) (s : DnsCacheSnapshot)
    → IsSorted s.records
    → (resolve persist now domain s).0
      ≡ ((purge_expired persist now s).0 >> ok (live_record now (Map.get domain.as_str s.records)))
unfolding resolve
resolve_lem persist now domain s sorted =
    rw (get-purge_expired_retained persist now s domain.as_str sorted, record_of-keep_if)
