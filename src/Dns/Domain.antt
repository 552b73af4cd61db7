-- ===== src/Dns/Domain.antt =====
-- `VoidDomain` of core/dns/src/lib.rs.
pub mod Laws
use voidnet.Base.{
  ℕ, Bool, true, false, ◌||◌, not, List, [], ◌∷◌, map, Text, codes, Result, ok, err, if◌then◌else◌,
  ◌==◌, is_empty, ends_with, all, any, to_ascii_lowercase, is_ascii_alphanumeric, text_eq,
}

-- The text is private in the source: values are built by `new`.
pub record VoidDomain : Type 0 where
  pub as_str : Text

pub data DomainError : Type 0 where
  invalid_domain : Text → DomainError

abbrev trim_step : Text → Text → Text
trim_step p s = if text_eq s p then [] else s

-- `s.trim_end_matches(p)`: what the tail of `s` leaves is trimmed once more where, with the first
-- character in front, it is `p`
unfoldable pub trim_end_matches : Text → Text → Text
trim_end_matches [] p = []
trim_end_matches (x ∷ s) p = trim_step p (x ∷ trim_end_matches s p)

abbrev pub add_first : ℕ → List Text → List Text
add_first x [] = []
add_first x (label ∷ labels) = (x ∷ label) ∷ labels

-- `s.split(c)`
unfoldable pub split : Text → ℕ → List Text
split [] c = [] ∷ []
split (x ∷ s) c = let labels = split s c in if x == c then [] ∷ labels else add_first x labels

unfoldable pub is_label_char : ℕ → Bool
unfolding is_ascii_alphanumeric
is_label_char ch = is_ascii_alphanumeric ch || ch == b'-'

abbrev pub no_labels : List Text → Bool
no_labels [] = true
no_labels (label ∷ labels) = false

abbrev pub is_bad_label : Text → Bool
is_bad_label label = is_empty label || not (all is_label_char label)

abbrev pub void_suffix : Text
void_suffix = codes ".void"

unfoldable pub checked : Text → Result DomainError VoidDomain
checked domain =
    if not (ends_with domain void_suffix)
    then err (invalid_domain domain)
    else (let labels = split (trim_end_matches domain void_suffix) b'.' in
        if no_labels labels || any is_bad_label labels
        then err (invalid_domain domain)
        else ok (record { as_str = domain }))

-- `VoidDomain::new`
unfoldable pub new : Text → Result DomainError VoidDomain
unfolding to_ascii_lowercase
new raw = checked (map to_ascii_lowercase raw)
