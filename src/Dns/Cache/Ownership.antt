-- ===== src/Dns/Cache/Ownership.antt =====
-- Who owns a domain in the cache.
use voidnet.Base.{ℕ, ◌≡◌, ◌≤◌, refl, sym, ◌∙◌, inl, inr, false, some, Text, arith, subst}
use voidnet.Base.Map
use voidnet.Dns.Record.{DnsRecord, is_expired}
use voidnet.Dns.Cache.{
  Checks, DnsCacheEntry, DnsCacheSnapshot, DnsRecordSource, Persist, entry_of, apply_record,
}
use voidnet.Dns.Cache.Effect.{Replaceable, Effect, apply_record-Effect}

-- At the key `k` the state holds a record of the same owner as `r`, and none that is older.
abbrev pub Succeeds : DnsRecord → Text → DnsCacheSnapshot → Type 0
Succeeds r k s =
    (e : DnsCacheEntry) × (Map.get k s.records ≡ some e)
    × (e.dns_record.owner_peer_id ≡ r.owner_peer_id)
    × (r.created_at_unix_ms ≤ e.dns_record.created_at_unix_ms)

module _ (x : Checks) (persist : Persist) (now : ℕ) (source : DnsRecordSource)
    (incoming : DnsRecord) (s : DnsCacheSnapshot) (k : Text) (e : DnsCacheEntry)
    (held : Map.get k s.records ≡ some e) where
  kept-Succeeds :
      (s' : DnsCacheSnapshot)
      → Map.get k s'.records ≡ Map.get k s.records
      → Succeeds e.dns_record k s'
  kept-Succeeds s' same = (e, same ∙ held, refl, omega arith)

  Effect-Succeeds :
      (s' : DnsCacheSnapshot)
      → is_expired e.dns_record now ≡ false
      → Effect persist now source incoming k s s'
      → Succeeds e.dns_record k s'
  Effect-Succeeds s' live (inl same) = kept-Succeeds s' same
  Effect-Succeeds s' live (inr (key, put, free)) =
      elim (subst (Replaceable now incoming) held free) [
        | inl gone ↦ absurd (cc)
        | inr (owner, older) ↦ (entry_of now source incoming, put, sym owner, omega arith)
      ]

  -- While a record has not expired, no call of `apply_record` gives its domain to another owner or
  -- puts an older record in its place, whatever comes in, whether the call succeeds or fails.
  pub apply_record-Succeeds :
      is_expired e.dns_record now ≡ false
      → Succeeds e.dns_record k (apply_record x persist now incoming source s).1
  apply_record-Succeeds live =
      let s' = (apply_record x persist now incoming source s).1 in
      elim (apply_record-Effect persist now source incoming k x s) [
        | inl same ↦ kept-Succeeds s' same
        | inr (_, _, effect) ↦ Effect-Succeeds s' live effect
      ]
