-- ===== src/Dns/Cache/Effect.antt =====
-- What `apply_record` does to the records, seen at one key.
use voidnet.Base.{
  ℕ, ◌≡◌, ◌<◌, refl, ◌⊎◌, inl, inr, true, false, Option, none, some, Text, Result, ok, err, leb,
  text_eq, text_eq_sound, arith, Bool-cases, Result-cases, subst,
}
use voidnet.Base.Map
use voidnet.Base.Map.{Map, get-insert, get-remove}
use voidnet.Dns.Record.{DnsRecord, VoidDnsError, is_expired}
use voidnet.Dns.Cache.{
  Checks, DnsCacheEntry, DnsCacheSnapshot, DnsApplyOutcome, DnsRecordSource, Persist, key_of,
  entry_of, store, compete, with_prints, admit, apply_record,
}

-- Why `incoming` may take the place: it is empty, its record has expired, or its record is an
-- older one of the same owner.
abbrev pub Replaceable : ℕ → DnsRecord → Option DnsCacheEntry → Type 0
Replaceable now incoming none = Unit
Replaceable now incoming (some e) =
    (is_expired e.dns_record now ≡ true)
    ⊎ ((e.dns_record.owner_peer_id ≡ incoming.owner_peer_id)
        × (e.dns_record.created_at_unix_ms < incoming.created_at_unix_ms))

module _ (persist : Persist) (now : ℕ) (source : DnsRecordSource) (incoming : DnsRecord)
    (k : Text) where
  -- From `s` to `s'` the key keeps what it has, or is the key of `incoming` and gets it.
  abbrev pub Effect : DnsCacheSnapshot → DnsCacheSnapshot → Type 0
  Effect s s' =
      (Map.get k s'.records ≡ Map.get k s.records)
      ⊎ ((key_of incoming ≡ k)
          × (Map.get k s'.records ≡ some (entry_of now source incoming))
          × Replaceable now incoming (Map.get k s.records))

  store-Effect :
      (s : DnsCacheSnapshot)
      → Replaceable now incoming (Map.get (key_of incoming) s.records)
      → Effect s (store persist now incoming source s).1
  unfolding store
  store-Effect s r = elim (Bool-cases (text_eq (key_of incoming) k)) [
    | inl same ↦
        let e = text_eq_sound (key_of incoming) k same in
        inr (
          e,
          rw (get-insert, same),
          subst (λ j. Replaceable now incoming (Map.get j s.records)) e r,
        )
    | inr other ↦ inl (rw (get-insert, other))
  ]

  store-Effect_expired :
      (s : DnsCacheSnapshot)
      → Replaceable now incoming (Map.get (key_of incoming) s.records)
      → Effect s
          (store persist now incoming source
            (record s { records = Map.remove (key_of incoming) s.records })).1
  unfolding store
  store-Effect_expired s r = elim (Bool-cases (text_eq (key_of incoming) k)) [
    | inl same ↦
        let e = text_eq_sound (key_of incoming) k same in
        inr (
          e,
          rw (get-insert, same),
          subst (λ j. Replaceable now incoming (Map.get j s.records)) e r,
        )
    | inr other ↦ inl (rw (get-insert, other, get-remove, other))
  ]

  module _ (x : Checks) where
    compete-Effect :
        (existing : DnsCacheEntry) (s : DnsCacheSnapshot) (p q : Text)
        → Map.get (key_of incoming) s.records ≡ some existing
        → Effect s (compete x persist now existing.dns_record incoming source s p q).1
    unfolding compete
    compete-Effect existing s p q held = elim (Bool-cases (text_eq p q)) [
      | inl e ↦ rw e (inl refl)
      | inr e ↦
          rw e
            (elim (Bool-cases (text_eq existing.dns_record.owner_peer_id incoming.owner_peer_id)) [
              | inr e₁ ↦ rw e₁ (inl refl)
              | inl e₁ ↦
                  rw e₁
                    (elim (Bool-cases
                      (leb incoming.created_at_unix_ms existing.dns_record.created_at_unix_ms)) [
                        | inl e₂ ↦ rw e₂ (inl refl)
                        | inr e₂ ↦ rw e₂ (
                            store-Effect s (
                              rw held (
                                inr (
                                  text_eq_sound existing.dns_record.owner_peer_id
                                      incoming.owner_peer_id e₁,
                                  ground arith,
                                ))))
                      ])
            ])
    ]

    with_prints-Effect :
        (a b : Result VoidDnsError Text) (s : DnsCacheSnapshot)
        (c : Text → Text → Result VoidDnsError DnsApplyOutcome × DnsCacheSnapshot)
        → ((p q : Text) → Effect s (c p q).1)
        → Effect s (with_prints x a b s c).1
    with_prints-Effect (ok a) (ok b) s c h = h a b
    with_prints-Effect (ok a) (err e) s c h = inl refl
    with_prints-Effect (err e) b s c h = inl refl

    admit-Effect :
        (s : DnsCacheSnapshot) (o : Option DnsCacheEntry)
        → Map.get (key_of incoming) s.records ≡ o
        → Effect s (admit x persist now incoming source s o).1
    unfolding admit
    admit-Effect s none held = store-Effect s (rw held tt)
    admit-Effect s (some existing) held = elim (Bool-cases (is_expired existing.dns_record now)) [
      | inl e ↦ rw e (store-Effect_expired s (rw held (inl e)))
      | inr e ↦ rw e (
          with_prints-Effect (x.fingerprint existing.dns_record) (x.fingerprint incoming) s
            (compete x persist now existing.dns_record incoming source s)
            λ p q. compete-Effect existing s p q held)
    ]

    -- At every key `apply_record` leaves the record that is there, or puts the incoming one in,
    -- and that only where it verified, has not expired, and the place was free for it.
    pub apply_record-Effect :
        (s : DnsCacheSnapshot)
        → (Map.get k (apply_record x persist now incoming source s).1.records ≡ Map.get k s.records)
          ⊎ ((x.verify incoming ≡ ok tt)
              × (is_expired incoming now ≡ false)
              × Effect s (apply_record x persist now incoming source s).1)
    unfolding apply_record
    apply_record-Effect s = elim (Result-cases (x.verify incoming)) [
      | inl (_, e) ↦ rw e (elim (Bool-cases (is_expired incoming now)) [
        | inl e₁ ↦ rw e₁ (inl refl)
        | inr e₁ ↦
            rw e₁ (inr (refl, refl, admit-Effect s (Map.get (key_of incoming) s.records) refl))
      ])
      | inr (_, e) ↦ rw e (inl refl)
    ]
