-- ===== src/Protocol/Ui/Lexer.antt =====
-- `tokenize` and `read_string` of core/protocol/src/ui.rs. An iterator is the list of what it has
-- still to give.
pub mod Total
pub mod RoundTrip
use voidnet.Base.{
  ℕ, zero, suc, ◌+◌, Bool, true, false, ◌||◌, Option, none, some, List, [], ◌∷◌, ◌++◌, Text, ok,
  ◌>>=◌, ◌>>◌, if◌then◌else◌, ◌==◌, length, is_whitespace, is_ascii_alphabetic,
  is_ascii_alphanumeric, len_utf8, err, refl, ◌≡◌, codes,
}
use voidnet.Protocol.Ui.Syntax.{
  Token, ident, string, lbrace, rbrace, unexpected_char, unterminated_string, invalid_escape,
  out_of_fuel, Parsed, fail,
}

-- pairs of a byte offset and a `char`
abbrev pub CharIndices : Type 0
CharIndices = List (ℕ × ℕ)

-- `char_indices`
unfoldable pub char_indices : ℕ → Text → CharIndices
char_indices offset [] = []
char_indices offset (ch ∷ s) = (offset, ch) ∷ char_indices (offset + len_utf8 ch) s

unfoldable pub is_ident_start : ℕ → Bool
unfolding is_ascii_alphabetic
is_ident_start ch = is_ascii_alphabetic ch || ch == b'_'

unfoldable pub is_ident_continue : ℕ → Bool
unfolding is_ascii_alphanumeric
is_ident_continue ch = is_ascii_alphanumeric ch || ch == b'_' || ch == b'-'

-- the character that `\` and `escaped` stand for
unfoldable pub unescape : ℕ → Option ℕ
unescape escaped =
    if escaped == b'"'
    then some b'"'
    else if escaped == b'\\'
    then some b'\\'
    else if escaped == b'n'
    then some 10
    else if escaped == b't'
    then some 9
    else none

-- `value` is what was read of the string, up to the character at hand.
unfoldable pub read_string : ℕ → Text → CharIndices → Parsed (Text × CharIndices)
read_string start value [] = fail (unterminated_string start)
read_string start value ((_, ch) ∷ []) =
    if ch == b'"' then ok (value, []) else fail (unterminated_string start)
read_string start value ((_, ch) ∷ (o, escaped) ∷ chars) =
    let after_escape : Parsed (Text × CharIndices) = elim (unescape escaped) [
      | some c ↦ read_string start (value ++ c ∷ []) chars
      | none ↦ fail (invalid_escape escaped start)
    ] in
    let longer = read_string start (value ++ ch ∷ []) ((o, escaped) ∷ chars) in
    if ch == b'"'
    then ok (value, (o, escaped) ∷ chars)
    else if ch == b'\\'
    then after_escape
    else longer

-- the inner loop of `tokenize`
unfoldable pub read_ident : Text → CharIndices → Text × CharIndices
unfolding is_ident_continue
read_ident name [] = (name, [])
read_ident name ((o, ch) ∷ chars) =
    let longer = read_ident (name ++ ch ∷ []) chars in
    if is_ident_continue ch then longer else (name, (o, ch) ∷ chars)

-- one round of the outer loop: the token that it pushes, if it does
unfoldable pub next_token : ℕ → ℕ → CharIndices → Parsed (Option Token × CharIndices)
unfolding read_string read_ident is_ident_start is_whitespace unescape
next_token offset ch chars =
    if ch == b'{'
    then ok (some lbrace, chars)
    else if ch == b'}'
    then ok (some rbrace, chars)
    else if ch == b'"'
    then (do (value, rest) ← read_string offset [] chars; ok (some (string value), rest))
    else if is_whitespace ch
    then ok (none, chars)
    else if is_ident_start ch
    then (let (name, rest) = read_ident (ch ∷ []) chars in ok (some (ident name), rest))
    else fail (unexpected_char ch offset)

abbrev pub push_token : Option Token → List Token → List Token
push_token none tokens = tokens
push_token (some t) tokens = t ∷ tokens

unfoldable pub tokenize_from : ℕ → CharIndices → Parsed (List Token)
unfolding next_token
tokenize_from zero chars = err out_of_fuel
tokenize_from (suc f) [] = ok []
tokenize_from (suc f) ((offset, ch) ∷ chars) = do
  (token, rest) ← next_token offset ch chars
  tokens ← tokenize_from f rest
  ok (push_token token tokens)

unfoldable pub tokenize : Text → Parsed (List Token)
unfolding tokenize_from char_indices len_utf8
tokenize source = tokenize_from (suc (length source)) (char_indices 0 source)
