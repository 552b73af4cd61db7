-- ===== src/Dns/Domain/Laws.antt =====
-- What `VoidDomain::new` accepts.
use voidnet.Base.{
  ℕ, ◌≡◌, refl, sym, append-nil, ap, ◌∙◌, Bool, true, false, List, [], ◌∷◌, ◌++◌, map, Text, codes,
  ok, ◌==◌, is_empty, ends_with, all, any, to_ascii_lowercase, text_eq, text_eq_sound, arith,
  Bool-cases, ==_iff, inl, inr, none,
}
use voidnet.Protocol.Uri.{VoidUri, is_void_domain, is_authority_char, from_str, scheme_prefix}
use voidnet.Protocol.Uri.RoundTrip.{from_str-bare}
use voidnet.Dns.Domain.{
  VoidDomain, trim_end_matches, add_first, split, is_label_char, no_labels, is_bad_label,
  void_suffix, checked, new,
}

to_ascii_lowercase_idem : (c : ℕ) → to_ascii_lowercase (to_ascii_lowercase c) ≡ to_ascii_lowercase c
unfolding to_ascii_lowercase
to_ascii_lowercase_idem c = ground arith

map-to_ascii_lowercase_idem :
    (s : Text) → map to_ascii_lowercase (map to_ascii_lowercase s) ≡ map to_ascii_lowercase s
map-to_ascii_lowercase_idem [] = refl
map-to_ascii_lowercase_idem (c ∷ s) = cc (to_ascii_lowercase_idem c, map-to_ascii_lowercase_idem s)

-- A name that was checked is kept as it is.
checked-as_str : (s : Text) (d : VoidDomain) → checked s ≡ ok d → d.as_str ≡ s
unfolding checked
checked-as_str s d h = ground arith

-- Case does not count, and a domain is its own normal form: any spelling of the text of a domain
-- in upper and lower case gives that domain.
pub new_case_insensitive :
    (raw spelling : Text) (d : VoidDomain)
    → new raw ≡ ok d
    → map to_ascii_lowercase spelling ≡ d.as_str
    → new spelling ≡ ok d
unfolding new
new_case_insensitive raw spelling d h e =
    let same = checked-as_str (map to_ascii_lowercase raw) d h in ap checked (e ∙ same) ∙ h

all-trim_end_matches :
    (q : ℕ → Bool) (p s : Text)
    → all q p ≡ true
    → all q (trim_end_matches s p) ≡ true
    → all q s ≡ true
unfolding trim_end_matches
all-trim_end_matches q p [] hp h = refl
all-trim_end_matches q p (x ∷ s) hp h = elim (Bool-cases (text_eq (x ∷ trim_end_matches s p) p)) [
  | inl e ↦
      let whole : all q (x ∷ trim_end_matches s p) ≡ true =
        ap (all q) (text_eq_sound (x ∷ trim_end_matches s p) p e) ∙ hp in
      ground (arith, whole, all-trim_end_matches q p s hp)
  | inr e ↦
      let whole : all q (x ∷ trim_end_matches s p) ≡ true = rw e at h in
      ground (arith, whole, all-trim_end_matches q p s hp)
]

label-authority : (c : ℕ) → is_label_char c ≡ true → is_authority_char c ≡ true
unfolding is_label_char is_authority_char
label-authority c h = ground arith

all-add_first :
    (x : ℕ) (labels : List Text)
    → no_labels labels ≡ false
    → all (all is_label_char) (add_first x labels) ≡ true
    → (is_label_char x ≡ true) × (all (all is_label_char) labels ≡ true)
all-add_first x [] n h = cc
all-add_first x (label ∷ labels) n h = ground arith

no_labels-add_first :
    (x : ℕ) (labels : List Text) → no_labels labels ≡ false → no_labels (add_first x labels) ≡ false
no_labels-add_first x [] n = n
no_labels-add_first x (label ∷ labels) n = refl

split-no_labels : (s : Text) (c : ℕ) → no_labels (split s c) ≡ false
unfolding split
split-no_labels [] c = refl
split-no_labels (x ∷ s) c = elim (Bool-cases (x == c)) [
  | inl e ↦ rw e
  | inr e ↦ rw e (no_labels-add_first x (split s c) (split-no_labels s c))
]

dot_authority : is_authority_char b'.' ≡ true
unfolding is_authority_char
dot_authority = refl

all-split :
    (s : Text) → all (all is_label_char) (split s b'.') ≡ true → all is_authority_char s ≡ true
unfolding split
all-split [] h = refl
all-split (x ∷ s) h = elim (Bool-cases (x == b'.')) [
  | inl e ↦
      let rest : all (all is_label_char) (split s b'.') ≡ true = rw e at h in
      let dot : is_authority_char x ≡ true =
        ap is_authority_char ((==_iff x b'.').0 e) ∙ dot_authority in
      ground (arith, all-split s rest, dot)
  | inr e ↦
      let (first, rest) = all-add_first x (split s b'.') (split-no_labels s b'.') (rw e at h) in
      ground (arith, all-split s rest, label-authority x first)
]

labels_good :
    (labels : List Text) → any is_bad_label labels ≡ false → all (all is_label_char) labels ≡ true
labels_good [] h = refl
labels_good (label ∷ labels) h = ground (arith, labels_good labels)

checked_cases :
    (s : Text) (d : VoidDomain)
    → checked s ≡ ok d
    → (ends_with s void_suffix ≡ true)
      × (any is_bad_label (split (trim_end_matches s void_suffix) b'.') ≡ false)
unfolding checked
checked_cases s d h = ground arith

new-authority :
    (raw : Text) (d : VoidDomain) → new raw ≡ ok d → all is_authority_char d.as_str ≡ true
unfolding new
new-authority raw d h =
    let s = map to_ascii_lowercase raw in
    let (_, good) = checked_cases s d h in
    rw (checked-as_str s d h) (
      all-trim_end_matches is_authority_char void_suffix s (unfold is_authority_char in refl)
        (all-split (trim_end_matches s void_suffix) (labels_good _ good)))

new-present : (s : Text) → ends_with s void_suffix ≡ true → is_empty s ≡ false
unfolding ends_with text_eq
new-present [] h = sym h
new-present (x ∷ s) h = refl

abbrev pub domain_uri : VoidDomain → VoidUri
domain_uri d = record { authority = d.as_str; path = codes "/"; query = none }

-- Every domain is the authority of an address: `void://` and its text parse to the address with
-- that authority, path "/" and no query, which counts as one of a `.void` domain.
pub from_str-domain :
    (raw : Text) (d : VoidDomain)
    → new raw ≡ ok d
    → (from_str (scheme_prefix ++ d.as_str) ≡ ok (domain_uri d))
      × (is_void_domain (domain_uri d) ≡ true)
unfolding new is_void_domain
from_str-domain raw d h =
    let same = checked-as_str (map to_ascii_lowercase raw) d h in
    let (suffix, _) = checked_cases (map to_ascii_lowercase raw) d h in
    let ends : ends_with d.as_str void_suffix ≡ true =
      ap (λ t. ends_with t void_suffix) same ∙ suffix in
    let parsed = from_str-bare d.as_str (new-present d.as_str ends) (new-authority raw d h) none in
    (ap (λ t. from_str (scheme_prefix ++ t)) (sym (append-nil d.as_str)) ∙ parsed, ends)
