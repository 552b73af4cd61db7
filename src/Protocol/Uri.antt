-- ===== src/Protocol/Uri.antt =====
-- `VoidUri` of core/protocol/src/lib.rs: addresses `void://authority/path?query`.
pub mod RoundTrip
use voidnet.Base.{
  ℕ, ◌≡◌, refl, Bool, true, false, ◌||◌, not, Option, none, some, ◌∷◌, [], ◌++◌, Text, codes,
  Result, ok, err, ok_or, ◌>>=◌, all, if◌then◌else◌, ◌==◌, is_empty, ends_with, strip_prefix,
  split_once, is_ascii_alphanumeric, strip_prefix, split_once, text_eq,
}

-- The fields are private in the source: values are built by `new` and `from_str`.
pub record VoidUri : Type 0 where
  pub authority : Text
  pub path : Text
  pub query : Option Text

pub data ParseVoidUriError : Type 0 where
  invalid_scheme missing_authority : ParseVoidUriError
  invalid_authority : Text → ParseVoidUriError

-- the characters that an authority may hold
unfoldable pub is_authority_char : ℕ → Bool
unfolding is_ascii_alphanumeric
is_authority_char ch =
    is_ascii_alphanumeric ch || ch == b'.' || ch == b'-' || ch == b'_' || ch == b':'

-- `if path.is_empty() { path = "/" }`, then `if !path.starts_with('/') { path.insert(0, '/') }`
unfoldable pub rooted : Text → Text
rooted [] = b'/' ∷ []
rooted (p ∷ path) = if p == b'/' then p ∷ path else b'/' ∷ p ∷ path

unfoldable pub new : Text → Text → Option Text → Result ParseVoidUriError VoidUri
unfolding rooted
new authority path query =
    if is_empty authority
    then err missing_authority
    else if not (all is_authority_char authority)
    then err (invalid_authority authority)
    else ok (record { authority = authority; path = rooted path; query = query })

unfoldable pub is_void_domain : VoidUri → Bool
is_void_domain uri = ends_with uri.authority (codes ".void")

abbrev pub scheme_prefix : Text
scheme_prefix = codes "void://"

abbrev pub display_query : Option Text → Text
display_query none = []
display_query (some query) = b'?' ∷ query

-- `Display`
unfoldable pub display : VoidUri → Text
display uri = scheme_prefix ++ ((uri.authority ++ uri.path) ++ display_query uri.query)

abbrev pub split_query : Text → Option (Text × Text) → Text × Option Text
split_query whole none = (whole, none)
split_query whole (some (head, tail)) = (head, some tail)

abbrev pub split_path : Text → Option (Text × Text) → Text × Text
split_path whole none = (whole, codes "/")
split_path whole (some (authority, path)) = (authority, b'/' ∷ path)

-- `FromStr`
unfoldable pub from_str : Text → Result ParseVoidUriError VoidUri
unfolding new
from_str raw = do
  without_scheme ← ok_or (strip_prefix scheme_prefix raw) invalid_scheme
  let (without_query, query) = split_query without_scheme (split_once without_scheme b'?')
  let (authority, path) = split_path without_query (split_once without_query b'/')
  new authority path query
