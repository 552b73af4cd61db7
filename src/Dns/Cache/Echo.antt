-- ===== src/Dns/Cache/Echo.antt =====
-- A record that comes a second time.
use voidnet.Base.{
  ℕ, ◌≡◌, refl, sym, ap, ◌∙◌, inl, inr, Bool, false, ◌||◌, some, List, [], ◌∷◌, ◌++◌, Text, Result,
  ok, err, text_eq, text_eq_refl, leb, any, arith, subst, Bool-cases, Option-cases, Result-cases,
  absurd_of_err, ◌>>◌, if◌then◌else◌,
}
use voidnet.Base.Map
use voidnet.Base.Map.{get-insert, upsert_twice}
use voidnet.Dns.Record.{DnsRecord, VoidDnsError, is_expired}
use voidnet.Dns.Cache.{
  Checks, DnsCacheEntry, DnsConflict, DnsCacheSnapshot, DnsApplyOutcome, published, updated,
  duplicate, conflict, DnsRecordSource, Persist, key_of, commit, entry_of, store, conflict_of,
  note_conflict, record_conflict, compete, admit, apply_record,
}

-- The answer when a record comes again after this answer.
abbrev pub repeated : DnsApplyOutcome → DnsApplyOutcome
repeated (published r) = duplicate r
repeated (updated r) = duplicate r
repeated (duplicate active) = duplicate active
repeated (conflict active incoming c) = conflict active incoming c

has_print-append :
    (p : DnsConflict → Bool) (noted : List DnsConflict) (c : DnsConflict)
    → any p (noted ++ c ∷ []) ≡ (any p noted || p c)
has_print-append p [] c = ground arith
has_print-append p (d ∷ noted) c = ground (arith, has_print-append p noted c)

note_conflict_twice :
    (c : DnsConflict) (noted : List DnsConflict)
    → note_conflict c (note_conflict c noted) ≡ note_conflict c noted
unfolding note_conflict
note_conflict_twice c noted =
    let same = λ (entry : DnsConflict).
      text_eq entry.conflicting_record_fingerprint c.conflicting_record_fingerprint in
    elim (Bool-cases (any same noted)) [
      | inl h ↦ rw (h, h) refl
      | inr h ↦
          rw (h, has_print-append same noted c, h, text_eq_refl c.conflicting_record_fingerprint)
            refl
    ]

commit-eq_ok :
    (persist : Persist) (outcome o : DnsApplyOutcome) (s t : DnsCacheSnapshot)
    → commit persist outcome s ≡ (ok o, t)
    → (outcome ≡ o) × (s ≡ t) × (commit persist outcome s ≡ (ok o, s))
commit-eq_ok persist outcome o s t h =
    let same : s ≡ t = ap (λ r. r.1) h in
    (
      written (persist s) (ap (λ r. r.0) h),
      same,
      subst (λ u. commit persist outcome s ≡ (ok o, u)) (sym same) h,
    )
  where
    written : (w : Result VoidDnsError (Unit {0})) → (w >> ok outcome) ≡ ok o → outcome ≡ o
    written (ok tt) e = cc
    written (err f) e = cc

module _ (x : Checks) (persist : Persist) (now : ℕ) (source source' : DnsRecordSource)
    (r : DnsRecord) (print : Text) (verified : x.verify r ≡ ok tt) (live : is_expired r now ≡ false)
    (printed : x.fingerprint r ≡ ok print) where
  -- A record against a live one of its domain.
  apply_record-compete :
      (e : DnsCacheEntry) (p : Text) (s : DnsCacheSnapshot)
      → Map.get (key_of r) s.records ≡ some e
      → is_expired e.dns_record now ≡ false
      → x.fingerprint e.dns_record ≡ ok p
      → apply_record x persist now r source' s
        ≡ compete x persist now e.dns_record r source' s p print
  unfolding apply_record admit
  apply_record-compete e p s held lives prints =
      rw (verified, live, held, lives, prints, printed) refl

  repeated-stored : (b : Bool) → repeated (if b then updated r else published r) ≡ duplicate r
  repeated-stored b = ground arith

  held_again :
      (s : DnsCacheSnapshot)
      → Map.get (key_of r) s.records ≡ some (entry_of now source r)
      → apply_record x persist now r source' s ≡ (ok (duplicate r), s)
  unfolding compete
  held_again s held =
      apply_record-compete (entry_of now source r) print s held live printed
      ∙ rw (text_eq_refl print) refl

  store_again :
      (s : DnsCacheSnapshot) (o : DnsApplyOutcome) (t : DnsCacheSnapshot)
      → store persist now r source s ≡ (ok o, t)
      → apply_record x persist now r source' t ≡ (ok (repeated o), t)
  unfolding store
  store_again s o t h =
      let b = Map.contains_key (key_of r) s.records in
      let s' : DnsCacheSnapshot = record s {
        records = Map.insert (key_of r) (entry_of now source r) s.records;
        updated_unix_ms = now;
      } in
      let (answer, same, _) =
        commit-eq_ok persist (if b then updated r else published r) o s' t h in
      let answer' : duplicate r ≡ repeated o = sym (repeated-stored b) ∙ ap repeated answer in
      subst (λ a. apply_record x persist now r source' t ≡ (ok a, t)) answer'
        (subst (λ u. apply_record x persist now r source' u ≡ (ok (duplicate r), u)) same
          (held_again s' (rw (get-insert, text_eq_refl (key_of r)) refl)))

  -- Two answers that leave the state.
  same_again :
      (active : DnsRecord) (s : DnsCacheSnapshot) (o : DnsApplyOutcome) (t : DnsCacheSnapshot)
      → apply_record x persist now r source' s ≡ (ok (duplicate active), s)
      → ◌≡◌ {A = Result VoidDnsError DnsApplyOutcome × DnsCacheSnapshot}
          (ok (duplicate active), s)
          (ok o, t)
      → apply_record x persist now r source' t ≡ (ok (repeated o), t)
  same_again active s o t second first =
      let answer : duplicate active ≡ o = cc in
      let same : s ≡ t = ap (λ r. r.1) first in
      subst (λ a. apply_record x persist now r source' t ≡ (ok (repeated a), t)) answer
        (subst (λ u. apply_record x persist now r source' u ≡ (ok (duplicate active), u)) same
          second)

  conflict_again :
      (e : DnsCacheEntry) (p : Text) (s : DnsCacheSnapshot) (o : DnsApplyOutcome)
      (t : DnsCacheSnapshot)
      → Map.get (key_of r) s.records ≡ some e
      → is_expired e.dns_record now ≡ false
      → x.fingerprint e.dns_record ≡ ok p
      → text_eq p print ≡ false
      → text_eq e.dns_record.owner_peer_id r.owner_peer_id ≡ false
      → record_conflict persist now e.dns_record r (conflict_of now e.dns_record r p print) s
        ≡ (ok o, t)
      → apply_record x persist now r source' t ≡ (ok (repeated o), t)
  unfolding compete record_conflict
  conflict_again e p s o t held lives prints differ other h =
      let c = conflict_of now e.dns_record r p print in
      let s' : DnsCacheSnapshot = record s {
        conflicts = Map.upsert (key_of r) [] (note_conflict c) s.conflicts;
        updated_unix_ms = now;
      } in
      let (answer, same, written) = commit-eq_ok persist (conflict e.dns_record r c) o s' t h in
      let noted : Map.upsert (key_of r) [] (note_conflict c) s'.conflicts ≡ s'.conflicts =
        upsert_twice (key_of r) [] (note_conflict c) s.conflicts (note_conflict_twice c) in
      let unchanged : repeated o ≡ o = ap repeated (sym answer) ∙ answer in
      let second : apply_record x persist now r source' s' ≡ (ok o, s') =
        apply_record-compete e p s' held lives prints ∙ rw (differ, other, noted) written in
      subst (λ a. apply_record x persist now r source' t ≡ (ok a, t)) (sym unchanged)
        (subst (λ u. apply_record x persist now r source' u ≡ (ok o, u)) same second)

  compete_again :
      (e : DnsCacheEntry) (p : Text) (s : DnsCacheSnapshot) (o : DnsApplyOutcome)
      (t : DnsCacheSnapshot)
      → Map.get (key_of r) s.records ≡ some e
      → is_expired e.dns_record now ≡ false
      → x.fingerprint e.dns_record ≡ ok p
      → compete x persist now e.dns_record r source s p print ≡ (ok o, t)
      → apply_record x persist now r source' t ≡ (ok (repeated o), t)
  unfolding compete
  compete_again e p s o t held lives prints h =
      let route = apply_record-compete e p s held lives prints in
      elim (Bool-cases (text_eq p print)) [
        | inl same ↦ same_again e.dns_record s o t (route ∙ rw same refl) (rw same at h)
        | inr differ ↦ elim (Bool-cases (text_eq e.dns_record.owner_peer_id r.owner_peer_id)) [
          | inr other ↦
              conflict_again e p s o t held lives prints differ other (rw (differ, other) at h)
          | inl owner ↦
              elim (Bool-cases (leb r.created_at_unix_ms e.dns_record.created_at_unix_ms)) [
                | inl older ↦
                    same_again e.dns_record s o t (route ∙ rw (differ, owner, older) refl)
                      (rw (differ, owner, older) at h)
                | inr newer ↦ store_again s o t (rw (differ, owner, newer) at h)
              ]
        ]
      ]

  admit_again :
      (s : DnsCacheSnapshot) (o : DnsApplyOutcome) (t : DnsCacheSnapshot)
      → admit x persist now r source s (Map.get (key_of r) s.records) ≡ (ok o, t)
      → apply_record x persist now r source' t ≡ (ok (repeated o), t)
  unfolding admit
  admit_again s o t h = elim (Option-cases (Map.get (key_of r) s.records)) [
    | inl empty ↦ store_again s o t (rw empty at h)
    | inr (e, held) ↦ elim (Bool-cases (is_expired e.dns_record now)) [
      | inl gone ↦
          store_again (record s { records = Map.remove (key_of r) s.records }) o t
            (rw (held, gone) at h)
      | inr lives ↦ elim (Result-cases (x.fingerprint e.dns_record)) [
        | inr (f, bad) ↦ absurd_of_err (ap (λ a. a.0) (rw (held, lives, bad) at h))
        | inl (p, prints) ↦
            compete_again e p s o t held lives prints (rw (held, lives, prints, printed) at h)
      ]
    ]
  ]

module _ (x : Checks) (persist : Persist) (now : ℕ) (source source' : DnsRecordSource)
    (r : DnsRecord) (print : Text) (s : DnsCacheSnapshot) (o : DnsApplyOutcome)
    (t : DnsCacheSnapshot) where
  -- `apply_record` is idempotent. If it succeeds for a record whose fingerprint can be taken, whatever
  -- its answer, then the same record at the same time, from whatever source it comes again, succeeds
  -- and changes nothing, not even the conflicts that are noted; where it was published or updated the
  -- answer is now that it is a duplicate, and else the answer is the same.
  pub apply_record_again :
      x.fingerprint r ≡ ok print
      → apply_record x persist now r source s ≡ (ok o, t)
      → apply_record x persist now r source' t ≡ (ok (repeated o), t)
  unfolding apply_record
  apply_record_again printed h = elim (Result-cases (x.verify r)) [
    | inr (f, bad) ↦ absurd_of_err (ap (λ a. a.0) (rw bad at h))
    | inl (tt, verified) ↦ elim (Bool-cases (is_expired r now)) [
      | inl gone ↦ absurd_of_err (ap (λ a. a.0) (rw (verified, gone) at h))
      | inr live ↦
          admit_again x persist now source source' r print verified live printed s o t
            (rw (verified, live) at h)
    ]
  ]
