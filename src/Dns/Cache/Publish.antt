-- ===== src/Dns/Cache/Publish.antt =====
-- `publish_record` of core/dns/src/lib.rs: a record is signed and applied to the cache.
use voidnet.Base.{
  ℕ, ◌≡◌, ◌+◌, ◌<◌, refl, ap, ◌∙◌, true, false, Option, none, some, List, [], ◌∷◌, Text, Result, ok,
  err, ◌>>=◌, ◌>>◌, text_eq_refl, arith, if◌then◌else◌,
}
use voidnet.Base.Map
use voidnet.Base.Map.{Map, IsSorted, get-insert, insert-IsSorted}
use voidnet.Identity.{Crypto, Keypair, IsSound}
use voidnet.Dns.Domain.{VoidDomain}
use voidnet.Dns.Record.{DnsRecord, VoidDnsError, Encoding, sign, verify, fingerprint, is_expired}
use voidnet.Dns.Record.Signing.{verify-sign, domain-sign}
use voidnet.Dns.Cache.{
  Checks, DnsCacheSnapshot, DnsApplyOutcome, published, updated, local_publish, Persist, key_of,
  entry_of, store, admit, apply_record,
}
use voidnet.Dns.Cache.Lookup.{expired_records, lives, finish_purge, purge_expired, resolve}
use voidnet.Dns.Cache.Expiry.{resolve_lem, live_record}

module _ {Key : Type 0} (c : Crypto Key) (x : Encoding) where
  -- The cache verifies and fingerprints records by their own methods.
  abbrev pub checks : Checks
  checks = record { verify = verify c x; fingerprint = fingerprint x }

  abbrev pub with_record :
      DnsRecord
      → Result VoidDnsError DnsApplyOutcome × DnsCacheSnapshot
      → Result VoidDnsError (DnsRecord × DnsApplyOutcome) × DnsCacheSnapshot
  with_record r (outcome, s) = ((outcome >>= λ o. ok (r, o)), s)

  abbrev pub publish_signed :
      Result VoidDnsError DnsRecord
      → Persist
      → ℕ
      → DnsCacheSnapshot
      → Result VoidDnsError (DnsRecord × DnsApplyOutcome) × DnsCacheSnapshot
  publish_signed (err e) persist now s = (err e, s)
  publish_signed (ok r) persist now s =
      with_record r (apply_record checks persist now r local_publish s)

  -- The record is signed at the time `signed` and applied at the time `now`.
  unfoldable pub publish_record :
      Keypair Key
      → VoidDomain
      → Text
      → Text
      → List Text
      → ℕ
      → ℕ
      → ℕ
      → Persist
      → DnsCacheSnapshot
      → Result VoidDnsError (DnsRecord × DnsApplyOutcome) × DnsCacheSnapshot
  publish_record pair domain target surface capabilities ttl signed now persist s =
      publish_signed (sign c x pair domain target surface capabilities ttl signed) persist now s

  apply_record_free :
      (persist : Persist) (now : ℕ) (r : DnsRecord) (s : DnsCacheSnapshot)
      → verify c x r ≡ ok tt
      → is_expired r now ≡ false
      → Map.get (key_of r) s.records ≡ none
      → apply_record checks persist now r local_publish s ≡ store persist now r local_publish s
  unfolding apply_record admit
  apply_record_free persist now r s v live free = rw (v, live, free) refl

  store_free :
      (persist : Persist) (now : ℕ) (r : DnsRecord) (s : DnsCacheSnapshot)
      → Map.get (key_of r) s.records ≡ none
      → (store persist now r local_publish s).0
        ≡ (persist (store persist now r local_publish s).1 >> ok (published r))
  unfolding store
  store_free persist now r s free =
      ap
        (λ o.
          let s' = record s {
            records = Map.insert (key_of r) (entry_of now local_publish r) s.records;
            updated_unix_ms = now;
          } in
          persist s'
          >> ok (if elim o [ none ↦ false | some _ ↦ true ] then updated r else published r))
        free

  records-store :
      (persist : Persist) (now : ℕ) (r : DnsRecord) (s : DnsCacheSnapshot)
      → (store persist now r local_publish s).1.records
        ≡ Map.insert (key_of r) (entry_of now local_publish r) s.records
  unfolding store
  records-store persist now r s = refl

  -- With writes that succeed a purge succeeds.
  is_ok-purge_expired :
      (persist : Persist) (now : ℕ) (s : DnsCacheSnapshot) (o : Option DnsRecord)
      → ((s' : DnsCacheSnapshot) → persist s' ≡ ok tt)
      → ((purge_expired persist now s).0 >> ok o) ≡ ok o
  unfolding purge_expired
  is_ok-purge_expired persist now s o writes = is_ok_of (expired_records now s.records)
    where
      is_ok_of :
          (expired : List DnsRecord)
          → ((finish_purge persist now expired
                (record s { records = Map.retain (lives now) s.records })).0
              >> ok o)
            ≡ ok o
      is_ok_of [] = refl
      is_ok_of (r ∷ expired) = rw writes refl

  -- the first record of a domain, with writes that succeed
  publish_record_free :
      (pair : Keypair Key) (domain : VoidDomain) (target surface : Text) (capabilities : List Text)
      (ttl signed now : ℕ) (persist : Persist) (s : DnsCacheSnapshot) (r : DnsRecord)
      → ((s' : DnsCacheSnapshot) → persist s' ≡ ok tt)
      → sign c x pair domain target surface capabilities ttl signed ≡ ok r
      → verify c x r ≡ ok tt
      → is_expired r now ≡ false
      → Map.get (key_of r) s.records ≡ none
      → publish_record pair domain target surface capabilities ttl signed now persist s
        ≡ (ok (r, published r), (store persist now r local_publish s).1)
  unfolding publish_record
  publish_record_free pair domain target surface capabilities ttl signed now persist s r writes made
        v live free =
      rw
        (
          made,
          apply_record_free persist now r s v live free,
          store_free persist now r s free,
          writes,
        )
        refl

  resolve-store :
      (persist : Persist) (now later : ℕ) (domain : VoidDomain) (s : DnsCacheSnapshot)
      (r : DnsRecord)
      → ((s' : DnsCacheSnapshot) → persist s' ≡ ok tt)
      → IsSorted s.records
      → r.domain ≡ domain
      → is_expired r later ≡ false
      → (resolve persist later domain (store persist now r local_publish s).1).0 ≡ ok (some r)
  resolve-store persist now later domain s r writes sorted same live =
      let s' = (store persist now r local_publish s).1 in
      let key : key_of r ≡ domain.as_str = ap (λ d. d.as_str) same in
      let found : Map.get domain.as_str s'.records ≡ some (entry_of now local_publish r) =
        rw (records-store, get-insert, key, text_eq_refl) refl in
      resolve_lem persist later domain s' (
        rw records-store
          (insert-IsSorted (key_of r) (entry_of now local_publish r) s.records sorted))
      ∙ is_ok-purge_expired persist later s' (live_record later (Map.get domain.as_str s'.records))
          writes
      ∙ rw (found, live) refl

  -- If signatures verify under their own key and encodings are read back, the keys of the cache ascend,
  -- every write succeeds, the cache holds no record for the domain and the signer makes a record, then
  -- publishing it within its time to live succeeds as a first publication, and a lookup of the domain
  -- within the time to live finds that record.
  pub resolve-publish_record :
      (pair : Keypair Key)
      → IsSound c pair
      → (domain : VoidDomain) (target surface : Text) (capabilities : List Text)
        (ttl signed now later : ℕ) (persist : Persist) (s : DnsCacheSnapshot) (r : DnsRecord)
      → ((s' : DnsCacheSnapshot) → persist s' ≡ ok tt)
      → IsSorted s.records
      → Map.get domain.as_str s.records ≡ none
      → sign c x pair domain target surface capabilities ttl signed ≡ ok r
      → now < signed + ttl
      → later < signed + ttl
      → let after =
          publish_record pair domain target surface capabilities ttl signed now persist s in
        (after.0 ≡ ok (r, published r)) × ((resolve persist later domain after.1).0 ≡ ok (some r))
  unfolding publish_record
  resolve-publish_record pair sound domain target surface capabilities ttl signed now later persist
        s r writes sorted free made live live_later =
      let (v, owner, expires) =
        verify-sign c x pair sound domain target surface capabilities ttl signed now r made in
      let same = domain-sign c x pair sound domain target surface capabilities ttl signed r made in
      let free' : Map.get (key_of r) s.records ≡ none = rw same free in
      let expires' =
        verify-sign c x pair sound domain target surface capabilities ttl signed later r made in
      let at_once =
        publish_record_free pair domain target surface capabilities ttl signed now persist s r
          writes made v (ground (arith, expires)) free' in
      let unexpired : is_expired r later ≡ false = ground (arith, expires'.2) in
      rw at_once (refl, resolve-store persist now later domain s r writes sorted same unexpired)
