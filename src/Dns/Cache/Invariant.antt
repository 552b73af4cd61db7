-- ===== src/Dns/Cache/Invariant.antt =====
-- What holds of every cache that the operations can reach from an empty one.
use voidnet.Base.{
  ℕ, ◌≡◌, refl, sym, ◌∙◌, inl, inr, Bool, true, Option, none, some, [], Text, Result, ok, err,
  text_eq, arith, Bool-cases, Result-cases, subst, leb,
}
use voidnet.Base.Map
use voidnet.Base.Map.{Map, IsSorted, keep_if, insert-IsSorted, remove-IsSorted, retain-IsSorted}
use voidnet.Dns.Record.{DnsRecord, VoidDnsError, is_expired}
use voidnet.Dns.Cache.{
  Checks, DnsCacheEntry, DnsCacheSnapshot, DnsApplyOutcome, DnsRecordSource, Persist, key_of,
  entry_of, store, compete, with_prints, admit, apply_record,
}
use voidnet.Dns.Cache.Lookup.{expired_records, lives, purge_expired}
use voidnet.Dns.Cache.Effect.{Effect, apply_record-Effect}
use voidnet.Dns.Cache.Expiry.{get-purge_expired_retained, finish_purge-records}

-- The records of a cache that was just created.
abbrev pub empty : DnsCacheSnapshot
empty = record { records = []; conflicts = []; updated_unix_ms = 0 }

module _ (x : Checks) where
  -- The operations that change the cache, at any times and with any outcome of the writes.
  pub data Step : DnsCacheSnapshot → DnsCacheSnapshot → Type 0 where
    applied :
        (persist : Persist) (now : ℕ) (incoming : DnsRecord) (source : DnsRecordSource)
        (s : DnsCacheSnapshot)
        → Step s (apply_record x persist now incoming source s).1
    purged :
        (persist : Persist) (now : ℕ) (s : DnsCacheSnapshot)
        → Step s (purge_expired persist now s).1

  pub data Reach : DnsCacheSnapshot → Type 0 where
    start : Reach empty
    next : {s s' : DnsCacheSnapshot} → Reach s → Step s s' → Reach s'

  -- Each record verifies, is marked so, and stands under its own domain.
  abbrev pub IsGenuine : Text → DnsCacheEntry → Type 0
  IsGenuine k e = (key_of e.dns_record ≡ k) × (x.verify e.dns_record ≡ ok tt) × (e.verified ≡ true)

  pub record IsSound (s : DnsCacheSnapshot) : Type 0 where
    pub sorted : IsSorted s.records
    pub genuine : (k : Text) (e : DnsCacheEntry) → Map.get k s.records ≡ some e → IsGenuine k e

  module _ (persist : Persist) (now : ℕ) (source : DnsRecordSource) (incoming : DnsRecord) where
    store-IsSorted :
        (s : DnsCacheSnapshot)
        → IsSorted s.records
        → IsSorted (store persist now incoming source s).1.records
    unfolding store
    store-IsSorted s h =
        insert-IsSorted (key_of incoming) (entry_of now source incoming) s.records h

    compete-IsSorted :
        (active : DnsRecord) (s : DnsCacheSnapshot) (p q : Text)
        → IsSorted s.records
        → IsSorted (compete x persist now active incoming source s p q).1.records
    unfolding compete
    compete-IsSorted active s p q h = elim (Bool-cases (text_eq p q)) [
      | inl e ↦ rw e h
      | inr e ↦ rw e (elim (Bool-cases (text_eq active.owner_peer_id incoming.owner_peer_id)) [
        | inr e₁ ↦ rw e₁ h
        | inl e₁ ↦
            rw e₁ (elim (Bool-cases (leb incoming.created_at_unix_ms active.created_at_unix_ms)) [
              | inl e₂ ↦ rw e₂ h
              | inr e₂ ↦ rw e₂ (store-IsSorted s h)
            ])
      ])
    ]

    with_prints-IsSorted :
        (a b : Result VoidDnsError Text) (s : DnsCacheSnapshot)
        (c : Text → Text → Result VoidDnsError DnsApplyOutcome × DnsCacheSnapshot)
        → IsSorted s.records
        → ((p q : Text) → IsSorted (c p q).1.records)
        → IsSorted (with_prints x a b s c).1.records
    with_prints-IsSorted (ok a) (ok b) s c h k = k a b
    with_prints-IsSorted (ok a) (err e) s c h k = h
    with_prints-IsSorted (err e) b s c h k = h

    admit-IsSorted :
        (s : DnsCacheSnapshot) (o : Option DnsCacheEntry)
        → IsSorted s.records
        → IsSorted (admit x persist now incoming source s o).1.records
    unfolding admit
    admit-IsSorted s none h = store-IsSorted s h
    admit-IsSorted s (some existing) h = elim (Bool-cases (is_expired existing.dns_record now)) [
      | inl e ↦ rw e (
          store-IsSorted (record s { records = Map.remove (key_of incoming) s.records })
            (remove-IsSorted (key_of incoming) s.records h))
      | inr e ↦ rw e (
          with_prints-IsSorted (x.fingerprint existing.dns_record) (x.fingerprint incoming) s
            (compete x persist now existing.dns_record incoming source s) h
            λ p q. compete-IsSorted existing.dns_record s p q h)
    ]

    apply_record-IsSorted :
        (s : DnsCacheSnapshot)
        → IsSorted s.records
        → IsSorted (apply_record x persist now incoming source s).1.records
    unfolding apply_record
    apply_record-IsSorted s h = elim (Result-cases (x.verify incoming)) [
      | inr (_, e) ↦ rw e h
      | inl (_, e) ↦ rw e (elim (Bool-cases (is_expired incoming now)) [
        | inl e₁ ↦ rw e₁ h
        | inr e₁ ↦ rw e₁ (admit-IsSorted s (Map.get (key_of incoming) s.records) h)
      ])
    ]

    Effect-IsGenuine :
        (s s' : DnsCacheSnapshot) (k : Text) (e : DnsCacheEntry)
        → IsSound s
        → x.verify incoming ≡ ok tt
        → Effect persist now source incoming k s s'
        → Map.get k s'.records ≡ some e
        → IsGenuine k e
    Effect-IsGenuine s s' k e h v (inl same) held = h.genuine k e (sym same ∙ held)
    Effect-IsGenuine s s' k e h v (inr (key, put, _)) held =
        let is_new : entry_of now source incoming ≡ e = cc in
        subst (IsGenuine k) is_new (key, v, refl)

    apply_record-IsSound :
        (s : DnsCacheSnapshot)
        → IsSound s
        → IsSound (apply_record x persist now incoming source s).1
    apply_record-IsSound s h = record {
      sorted = apply_record-IsSorted s h.sorted;
      genuine = λ k e held. elim (apply_record-Effect persist now source incoming k x s) [
        | inl same ↦ h.genuine k e (sym same ∙ held)
        | inr (v, _, effect) ↦
            Effect-IsGenuine s (apply_record x persist now incoming source s).1 k e h v effect held
      ];
    }

  purge_expired-IsSorted :
      (persist : Persist) (now : ℕ) (s : DnsCacheSnapshot)
      → IsSorted s.records
      → IsSorted (purge_expired persist now s).1.records
  unfolding purge_expired
  purge_expired-IsSorted persist now s h =
      subst IsSorted
        (sym (
          finish_purge-records persist now (expired_records now s.records)
            (record s { records = Map.retain (lives now) s.records })))
        (retain-IsSorted (lives now) s.records h)

  kept :
      (p : DnsCacheEntry → Bool) (o : Option DnsCacheEntry) (e : DnsCacheEntry)
      → keep_if p o ≡ some e
      → o ≡ some e
  kept p o e h = ground arith

  purge_expired-IsSound :
      (persist : Persist) (now : ℕ) (s : DnsCacheSnapshot)
      → IsSound s
      → IsSound (purge_expired persist now s).1
  purge_expired-IsSound persist now s h = record {
    sorted = purge_expired-IsSorted persist now s h.sorted;
    genuine = λ k e held. h.genuine k e (
        kept (lives now) (Map.get k s.records) e
          (sym (get-purge_expired_retained persist now s k h.sorted) ∙ held));
  }

  Step-IsSound : (s s' : DnsCacheSnapshot) → Step s s' → IsSound s → IsSound s'
  Step-IsSound s s' (applied persist now incoming source _) h =
      apply_record-IsSound persist now source incoming s h
  Step-IsSound s s' (purged persist now _) h = purge_expired-IsSound persist now s h

  -- In every cache that the operations reach from the empty one, the keys ascend without repetition,
  -- and each record verifies, is marked as verified and stands under its own domain.
  pub Reach-IsSound : (s : DnsCacheSnapshot) → Reach s → IsSound s
  unfolding Map.get
  Reach-IsSound s start = record { sorted = tt; genuine = λ k e h. cc }
  Reach-IsSound s' (next {s} r step) = Step-IsSound s s' step (Reach-IsSound s r)
