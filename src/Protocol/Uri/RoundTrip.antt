-- ===== src/Protocol/Uri/RoundTrip.antt =====
-- Printing an address and parsing it back, and what parsing accepts.
use voidnet.Base.{
  ℕ, ◌≡◌, refl, ◌↔◌, ◌⊎◌, inl, inr, ◌∙◌, true, false, Option, none, some, ◌∷◌, [], ◌++◌, Text,
  codes, ok, ok_or, all, ◌==◌, is_empty, strip_prefix, split_once, strip_prefix, split_once, arith,
  contains, append-nil, strip_prefix-append, split_once-append, split_once-eq_none, contains-append,
  ap, sym, Bool-cases, Option-cases, >>=-eq_ok, contains-split_once-none, contains-split_once_head,
  split_once-eq_some, strip_prefix-eq_some,
}
use voidnet.Protocol.Uri.{
  VoidUri, is_authority_char, rooted, new, display, from_str, scheme_prefix, display_query,
  split_query, split_path, invalid_scheme,
}

abbrev pub IsRooted : Text → Type 0
IsRooted path = (rest : Text) × (path ≡ b'/' ∷ rest)

-- What `new` establishes.
pub record IsWellFormed (uri : VoidUri) : Type 0 where
  pub authority_present : is_empty uri.authority ≡ false
  pub authority_chars : all is_authority_char uri.authority ≡ true
  pub path_rooted : IsRooted uri.path

-- An authority holds neither delimiter.
authority-lacks :
    (c : ℕ)
    → is_authority_char c ≡ false
    → (s : Text) → all is_authority_char s ≡ true
    → contains s c ≡ false
authority-lacks c h [] k = refl
authority-lacks c h (x ∷ s) k = ground (arith, authority-lacks c h s, ap is_authority_char)

no_question : is_authority_char b'?' ≡ false
unfolding is_authority_char
no_question = refl

no_slash : is_authority_char b'/' ≡ false
unfolding is_authority_char
no_slash = refl

module _ (a : Text) (present : is_empty a ≡ false) (chars : all is_authority_char a ≡ true) where
  head_lacks : (p : Text) → contains p b'?' ≡ false → contains (a ++ b'/' ∷ p) b'?' ≡ false
  head_lacks p h = rw contains-append (ground (arith, authority-lacks b'?' no_question a chars))

  split_path-head :
      (p : Text) → split_path (a ++ b'/' ∷ p) (split_once (a ++ b'/' ∷ p) b'/') ≡ (a, b'/' ∷ p)
  split_path-head p = rw (split_once-append a p b'/' (authority-lacks b'/' no_slash a chars))

  split_query-head :
      (p : Text) (q : Option Text)
      → contains p b'?' ≡ false
      → let rest = (a ++ b'/' ∷ p) ++ display_query q in
        split_query rest (split_once rest b'?') ≡ (a ++ b'/' ∷ p, q)
  split_query-head p none h = rw append-nil (rw (split_once-eq_none _ _ (head_lacks p h)))
  split_query-head p (some q) h = rw (split_once-append _ q b'?' (head_lacks p h))

  from_str-parts :
      (p : Text) (q : Option Text)
      → contains p b'?' ≡ false
      → from_str (scheme_prefix ++ ((a ++ b'/' ∷ p) ++ display_query q))
        ≡ ok (record { authority = a; path = b'/' ∷ p; query = q })
  unfolding from_str
  from_str-parts p q h =
      rw (strip_prefix-append, split_query-head p q h, split_path-head p) (ground arith)

  -- With the path left out, as in `void://core?x`.
  pub from_str-bare :
      (q : Option Text)
      → from_str (scheme_prefix ++ (a ++ display_query q))
        ≡ ok (record { authority = a; path = codes "/"; query = q })
  unfolding from_str
  from_str-bare none =
      rw
        (
          strip_prefix-append,
          append-nil,
          split_once-eq_none a b'?' (authority-lacks b'?' no_question a chars),
          split_once-eq_none a b'/' (authority-lacks b'/' no_slash a chars),
        )
        (ground arith)
  from_str-bare (some q) =
      rw
        (
          strip_prefix-append,
          split_once-append a q b'?' (authority-lacks b'?' no_question a chars),
          split_once-eq_none a b'/' (authority-lacks b'/' no_slash a chars),
        )
        (ground arith)

-- What `raw` may look like when it parses to `uri`: the printed address, or the same without the
-- path where that is "/".
abbrev pub Spells : VoidUri → Text → Type 0
Spells uri raw =
    (raw ≡ display uri)
    ⊎ ((uri.path ≡ codes "/") × (raw ≡ scheme_prefix ++ (uri.authority ++ display_query uri.query)))

-- An address that `new` can build prints to a text that parses to it, if its path has no '?'.
pub from_str-display :
    (uri : VoidUri)
    → IsWellFormed uri
    → contains uri.path b'?' ≡ false
    → from_str (display uri) ≡ ok uri
unfolding display
from_str-display uri w h =
    let (p, e) = w.path_rooted in
    let lacks : contains p b'?' ≡ false = ground (arith, ap (λ t. contains t b'?') e) in
    rw e (from_str-parts uri.authority w.authority_present w.authority_chars p uri.query lacks)

module _ (a path : Text) (q : Option Text) (u : VoidUri) (h : new a path q ≡ ok u) where
  new-parts : (u.authority ≡ a) × (u.path ≡ rooted path) × (u.query ≡ q)
  unfolding new
  new-parts = ground arith

  new-chars : (is_empty a ≡ false) × (all is_authority_char a ≡ true)
  unfolding new
  new-chars = ground arith

rooted-IsRooted : (path : Text) → IsRooted (rooted path)
unfolding rooted
rooted-IsRooted [] = ([], refl)
rooted-IsRooted (p ∷ path) = elim (Bool-cases (p == b'/')) [
  | inl e ↦ (path, ground arith)
  | inr e ↦ (p ∷ path, ground arith)
]

-- Whatever `new` builds is well formed.
pub new-IsWellFormed :
    (a path : Text) (q : Option Text) (u : VoidUri) → new a path q ≡ ok u → IsWellFormed u
new-IsWellFormed a path q u h =
    let parts = new-parts a path q u h in
    let chars = new-chars a path q u h in
    record {
      authority_present = rw parts.0 chars.0;
      authority_chars = rw parts.0 chars.1;
      path_rooted = rw parts.1 (rooted-IsRooted path);
    }

join_query :
    (s : Text)
    → let (head, q) = split_query s (split_once s b'?') in
      (s ≡ head ++ display_query q) × (contains head b'?' ≡ false)
join_query s = elim (Option-cases (split_once s b'?')) [
  | inl e ↦ rw e (sym (append-nil s), contains-split_once-none s b'?' e)
  | inr ((head, q), e) ↦
      rw e (split_once-eq_some s b'?' head q e, contains-split_once_head s b'?' head q e)
]

join_path :
    (s : Text)
    → let (a, p) = split_path s (split_once s b'/') in
      (rooted p ≡ p) × ((s ≡ a ++ p) ⊎ ((p ≡ codes "/") × (s ≡ a)))
unfolding rooted
join_path s = elim (Option-cases (split_once s b'/')) [
  | inl e ↦ rw e (refl, inr (refl, refl))
  | inr ((a, p), e) ↦ rw e (refl, inl (split_once-eq_some s b'/' a p e))
]

path_lacks :
    (s a p : Text)
    → (s ≡ a ++ p) ⊎ ((p ≡ codes "/") × (s ≡ a))
    → contains s b'?' ≡ false
    → contains p b'?' ≡ false
path_lacks s a p (inl e) h = ground (arith, contains-append a p b'?', ap (λ t. contains t b'?') e)
path_lacks s a p (inr (e, _)) h = rw e

-- The pieces of a text that splits as `from_str` splits it.
module _ (uri : VoidUri) (s head a p : Text) (q : Option Text) (whole : s ≡ head ++ display_query q)
    (lacks : contains head b'?' ≡ false) (root : rooted p ≡ p)
    (pieces : (head ≡ a ++ p) ⊎ ((p ≡ codes "/") × (head ≡ a))) (built : new a p q ≡ ok uri) where
  pieces-Spells :
      IsWellFormed uri × (contains uri.path b'?' ≡ false) × Spells uri (scheme_prefix ++ s)
  unfolding display
  pieces-Spells =
      let parts = new-parts a p q uri built in
      let path_eq : uri.path ≡ p = parts.1 ∙ root in
      let spell : Spells uri (scheme_prefix ++ s) = elim pieces [
        | inl e ↦ inl (rw (whole, e, parts.0, path_eq, parts.2))
        | inr (slash, e) ↦ inr (path_eq ∙ slash, rw (whole, e, parts.0, parts.2))
      ] in
      (new-IsWellFormed a p q uri built, rw path_eq (path_lacks head a p pieces lacks), spell)

from_str-accepted :
    (raw : Text) (uri : VoidUri)
    → from_str raw ≡ ok uri
    → IsWellFormed uri × (contains uri.path b'?' ≡ false) × Spells uri raw
unfolding from_str
from_str-accepted raw uri h =
    let (s, stripped, built) =
      >>=-eq_ok (ok_or (strip_prefix scheme_prefix raw) invalid_scheme) _ h in
    let split = split_query s (split_once s b'?') in
    let (whole, lacks) = join_query s in
    let (root, pieces) = join_path split.0 in
    let e : raw ≡ scheme_prefix ++ s =
      strip_prefix-eq_some scheme_prefix raw s (ground (arith, stripped)) in
    rw e (pieces-Spells uri s split.0 _ _ split.1 whole lacks root pieces built)

from_str-spelled :
    (raw : Text) (uri : VoidUri)
    → IsWellFormed uri × (contains uri.path b'?' ≡ false) × Spells uri raw
    → from_str raw ≡ ok uri
from_str-spelled raw uri (w, lacks, inl e) = rw e (from_str-display uri w lacks)
from_str-spelled raw uri (w, lacks, inr (root, e)) =
    rw (e, root) (from_str-bare uri.authority w.authority_present w.authority_chars uri.query)

-- A text parses to an address exactly when the address is well formed with no '?' in its path, and
-- the text is its print, where a path "/" may be left out.
pub from_str-eq_ok_iff :
    (raw : Text) (uri : VoidUri)
    → (from_str raw ≡ ok uri)
      ↔ (IsWellFormed uri × (contains uri.path b'?' ≡ false) × Spells uri raw)
from_str-eq_ok_iff raw uri = (from_str-accepted raw uri, from_str-spelled raw uri)

-- Printing an address that `new` built from any parts gives a text that parses to it exactly when its path holds
-- no '?'.
pub from_str-display_iff :
    (a path : Text) (q : Option Text) (uri : VoidUri)
    → new a path q ≡ ok uri
    → (from_str (display uri) ≡ ok uri) ↔ (contains uri.path b'?' ≡ false)
from_str-display_iff a path q uri h = (
  λ e. (from_str-accepted (display uri) uri e).1,
  from_str-display uri (new-IsWellFormed a path q uri h),
)
