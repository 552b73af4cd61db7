-- ===== src/Base/Chars.antt =====
-- The functions of `char` and `str` that the program calls, over scalar values.
use voidnet.Base.Tests.{ltb, leb, ◌==◌, if◌then◌else◌}
use voidnet.Base.Lists.{any}
use voidnet.Base.Texts.{Text, text_eq}
use Prim.Native.Nat.{ℕ, ◌+◌, ◌/◌, ◌%◌}
use mathlib.Core.Path.{◌≡◌, refl}
use mathlib.Core.Bool.{Bool, true, false, ◌&&◌, ◌||◌}
use mathlib.Core.Option.{Option, none, some}
use mathlib.Core.List.{List, [], ◌∷◌, ◌++◌}
use native.Mathlib.Omega.{arith}

unfoldable pub is_ascii_lowercase : ℕ → Bool
is_ascii_lowercase c = leb b'a' c && leb c b'z'

unfoldable pub is_ascii_uppercase : ℕ → Bool
is_ascii_uppercase c = leb b'A' c && leb c b'Z'

unfoldable pub is_ascii_digit : ℕ → Bool
is_ascii_digit c = leb b'0' c && leb c b'9'

unfoldable pub is_ascii_alphabetic : ℕ → Bool
unfolding is_ascii_lowercase is_ascii_uppercase
is_ascii_alphabetic c = is_ascii_lowercase c || is_ascii_uppercase c

unfoldable pub is_ascii_alphanumeric : ℕ → Bool
unfolding is_ascii_alphabetic is_ascii_digit
is_ascii_alphanumeric c = is_ascii_alphabetic c || is_ascii_digit c

unfoldable pub to_ascii_lowercase : ℕ → ℕ
unfolding is_ascii_uppercase
to_ascii_lowercase c = if is_ascii_uppercase c then c + 32 else c

-- the Unicode property White_Space
unfoldable pub is_whitespace : ℕ → Bool
is_whitespace c =
    (leb 9 c && leb c 13)
    || c == 0x20
    || c == 0x85
    || c == 0xa0
    || c == 0x1680
    || (leb 0x2000 c && leb c 0x200a)
    || c == 0x2028
    || c == 0x2029
    || c == 0x202f
    || c == 0x205f
    || c == 0x3000

-- the bytes that a scalar value takes in UTF-8
unfoldable pub len_utf8 : ℕ → ℕ
len_utf8 c = if ltb c 0x80 then 1 else if ltb c 0x800 then 2 else if ltb c 0x10000 then 3 else 4

unfoldable pub utf8_char : ℕ → List ℕ
utf8_char c =
    if ltb c 0x80
    then c ∷ []
    else if ltb c 0x800
    then (0xc0 + c / 64) ∷ (0x80 + c % 64) ∷ []
    else if ltb c 0x10000
    then (0xe0 + c / 4096) ∷ (0x80 + (c / 64) % 64) ∷ (0x80 + c % 64) ∷ []
    else (0xf0 + c / 262144)
      ∷ (0x80 + (c / 4096) % 64)
      ∷ (0x80 + (c / 64) % 64)
      ∷ (0x80 + c % 64)
      ∷ []

-- `as_bytes`
unfoldable pub utf8 : Text → List ℕ
unfolding utf8_char
utf8 [] = []
utf8 (c ∷ s) = utf8_char c ++ utf8 s

abbrev pub contains : Text → ℕ → Bool
contains s c = any (λ x. x == c) s

abbrev pub is_empty : Text → Bool
is_empty [] = true
is_empty (x ∷ xs) = false

unfoldable pub strip_prefix : Text → Text → Option Text
strip_prefix [] s = some s
strip_prefix (p ∷ ps) [] = none
strip_prefix (p ∷ ps) (x ∷ xs) = if p == x then strip_prefix ps xs else none

-- `s.ends_with(p)`: a tail of `s` is `p`
unfoldable pub ends_with : Text → Text → Bool
ends_with [] p = text_eq [] p
ends_with (x ∷ s) p = text_eq (x ∷ s) p || ends_with s p

abbrev add_head : ℕ → Option (Text × Text) → Option (Text × Text)
add_head x none = none
add_head x (some (a, b)) = some (x ∷ a, b)

-- `split_once` at a character
unfoldable pub split_once : Text → ℕ → Option (Text × Text)
split_once [] c = none
split_once (x ∷ xs) c = if x == c then some ([], xs) else add_head x (split_once xs c)

pub strip_prefix-append : (p s : Text) → strip_prefix p (p ++ s) ≡ some s
unfolding strip_prefix
strip_prefix-append [] s = refl
strip_prefix-append (x ∷ p) s = ground (arith, strip_prefix-append p s)

pub strip_prefix-eq_some : (p s r : Text) → strip_prefix p s ≡ some r → s ≡ p ++ r
unfolding strip_prefix
strip_prefix-eq_some [] s r h = ground arith
strip_prefix-eq_some (x ∷ p) [] r h = cc
strip_prefix-eq_some (x ∷ p) (y ∷ s) r h = ground (arith, strip_prefix-eq_some p s r)

pub contains-append : (s t : Text) (c : ℕ) → contains (s ++ t) c ≡ (contains s c || contains t c)
contains-append [] t c = refl
contains-append (x ∷ s) t c = ground (arith, contains-append s t c)

pub split_once-append :
    (s t : Text) (c : ℕ) → contains s c ≡ false → split_once (s ++ c ∷ t) c ≡ some (s, t)
unfolding split_once
split_once-append [] t c h = ground arith
split_once-append (x ∷ s) t c h = ground (arith, split_once-append s t c)

pub split_once-eq_none : (s : Text) (c : ℕ) → contains s c ≡ false → split_once s c ≡ none
unfolding split_once
split_once-eq_none [] c h = refl
split_once-eq_none (x ∷ s) c h = ground (arith, split_once-eq_none s c)

-- What a split says of the text.
pub contains-split_once-none : (s : Text) (c : ℕ) → split_once s c ≡ none → contains s c ≡ false
unfolding split_once
contains-split_once-none [] c h = refl
contains-split_once-none (x ∷ s) c h = ground (arith, contains-split_once-none s c)

pub contains-split_once_head :
    (s : Text) (c : ℕ) (a b : Text) → split_once s c ≡ some (a, b) → contains a c ≡ false
unfolding split_once
contains-split_once_head [] c a b h = cc
contains-split_once_head (x ∷ s) c [] b h = refl
contains-split_once_head (x ∷ s) c (y ∷ a) b h = ground (arith, contains-split_once_head s c a b)

pub split_once-eq_some :
    (s : Text) (c : ℕ) (a b : Text) → split_once s c ≡ some (a, b) → s ≡ a ++ c ∷ b
unfolding split_once
split_once-eq_some [] c a b h = cc
split_once-eq_some (x ∷ s) c [] b h = ground arith
split_once-eq_some (x ∷ s) c (y ∷ a) b h = ground (arith, split_once-eq_some s c a b)
