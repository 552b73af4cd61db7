-- ===== src/Protocol/Ui/Lexer/RoundTrip.antt =====
-- The lexer reads back the text of every list of tokens that can be written.
use voidnet.Base.{
  ℕ, zero, suc, ◌+◌, ◌≤◌, ◌<◌, ◌≡◌, refl, ◌⊎◌, inl, inr, true, false, some, List, [], ◌∷◌, ◌++◌,
  Text, ok, ◌>>=◌, append_assoc, append-nil, length, length-append, arith, ◌==◌, all, All,
  Bool-cases, &&-eq_true, ◌∙◌, is_whitespace, len_utf8,
}
use voidnet.Protocol.Ui.Syntax.{Token, ident, string, lbrace, rbrace, Parsed}
use voidnet.Protocol.Ui.Printer.{escape, escape_all, render_token, render}
use voidnet.Protocol.Ui.Lexer.{
  CharIndices, char_indices, is_ident_start, is_ident_continue, unescape, read_string, read_ident,
  next_token, tokenize_from, tokenize,
}

-- The names that `tokenize` can read.
abbrev pub IsToken : Token → Type 0
IsToken (ident []) = ⊥
IsToken (ident (c ∷ name)) = (is_ident_start c ≡ true) × (all is_ident_continue name ≡ true)
IsToken (string s) = Unit
IsToken lbrace = Unit
IsToken rbrace = Unit

escape_cases :
    (c : ℕ)
    → ((e : ℕ) × (escape c ≡ b'\\' ∷ e ∷ []) × (unescape e ≡ some c))
      ⊎ ((escape c ≡ c ∷ []) × ((c == b'"') ≡ false) × ((c == b'\\') ≡ false))
unfolding escape unescape
escape_cases c = elim (Bool-cases (c == b'"')) [
  | inl h ↦ inl (b'"', ground arith, ground arith)
  | inr h ↦ elim (Bool-cases (c == b'\\')) [
    | inl h' ↦ inl (b'\\', ground arith, ground arith)
    | inr h' ↦ elim (Bool-cases (c == 10)) [
      | inl h₃ ↦ inl (b'n', ground arith, ground arith)
      | inr h₃ ↦ elim (Bool-cases (c == 9)) [
        | inl h₄ ↦ inl (b't', ground arith, ground arith)
        | inr h₄ ↦ inr (ground arith, h, h')
      ]
    ]
  ]
]

read_string-plain :
    (start o c : ℕ) (value : Text) (chars : CharIndices)
    → (c == b'"') ≡ false
    → (c == b'\\') ≡ false
    → read_string start value ((o, c) ∷ chars) ≡ read_string start (value ++ c ∷ []) chars
unfolding read_string
read_string-plain start o c value [] h k = rw h
read_string-plain start o c value ((o', e) ∷ chars) h k = rw (h, k)

read_string-escaped :
    (start o o' e c : ℕ) (value : Text) (chars : CharIndices)
    → unescape e ≡ some c
    → read_string start value ((o, b'\\') ∷ (o', e) ∷ chars)
      ≡ read_string start (value ++ c ∷ []) chars
unfolding read_string
read_string-escaped start o o' e c value chars h = rw h

-- A run that ends before the text `s`, wherever that stands.
abbrev EndsBefore {ℓ} : {A : Type ℓ} → A → Text → Parsed (A × CharIndices) → Type ℓ
EndsBefore a s r = (o : ℕ) × (r ≡ ok (a, char_indices o s))

read_string-Reads :
    (start o : ℕ) (value v s : Text)
    → EndsBefore
        (value ++ v)
        (b' ' ∷ s)
        (read_string start value (char_indices o (escape_all v ++ b'"' ∷ b' ' ∷ s)))
unfolding char_indices escape_all
read_string-Reads start o value [] s = (o + len_utf8 b'"', unfold read_string in rw append-nil)
read_string-Reads start o value (c ∷ v) s = elim (escape_cases c) [
  | inl (e, p, q) ↦
      let (o', ih) =
        read_string-Reads start (o + len_utf8 b'\\' + len_utf8 e) (value ++ c ∷ []) v s in
      (o', rw p (read_string-escaped start o _ e c value _ q ∙ rw append_assoc at ih))
  | inr (p, h, k) ↦
      let (o', ih) = read_string-Reads start (o + len_utf8 c) (value ++ c ∷ []) v s in
      (o', rw p (read_string-plain start o c value _ h k ∙ rw append_assoc at ih))
]

read_ident-Reads :
    (o : ℕ) (acc name s : Text)
    → all is_ident_continue name ≡ true
    → (o' : ℕ) × (read_ident acc (char_indices o (name ++ b' ' ∷ s))
        ≡ (acc ++ name, char_indices o' (b' ' ∷ s)))
unfolding read_ident char_indices
read_ident-Reads o acc [] s h = (o, rw append-nil)
read_ident-Reads o acc (c ∷ name) s h =
    let (first, others) = &&-eq_true (is_ident_continue c) (all is_ident_continue name) h in
    let (o', ih) = read_ident-Reads (o + len_utf8 c) (acc ++ c ∷ []) name s others in
    (o', rw first (rw append_assoc at ih))

-- A character that starts a name is read as such.
ident_start_bounds : (c : ℕ) → is_ident_start c ≡ true → (65 ≤ c) × (c ≤ 122)
unfolding is_ident_start
ident_start_bounds c h = ground arith

not_whitespace : (c : ℕ) → 65 ≤ c → c ≤ 122 → is_whitespace c ≡ false
unfolding is_whitespace
not_whitespace c h k = ground arith

next_token-ident :
    (o c : ℕ) (chars : CharIndices)
    → is_ident_start c ≡ true
    → next_token o c chars
      ≡ (let (name, rest) = read_ident (c ∷ []) chars in ok (some (ident name), rest))
unfolding next_token
next_token-ident o c chars h =
    let (low, high) = ident_start_bounds c h in
    let e₁ : (c == b'{') ≡ false = ground arith in
    let e₂ : (c == b'}') ≡ false = ground arith in
    let e₃ : (c == b'"') ≡ false = ground arith in rw (e₁, e₂, e₃, not_whitespace c low high, h)

-- The token is read, and the space after it is left.
token-Reads :
    (t : Token) (o f : ℕ) (s : Text)
    → IsToken t
    → (o' : ℕ) × (tokenize_from (suc f) (char_indices o (render_token t ++ s))
        ≡ (tokenize_from f (char_indices o' (b' ' ∷ s)) >>= λ ts. ok (t ∷ ts)))
unfolding tokenize_from render_token char_indices
token-Reads (ident []) o f s h = absurd h
token-Reads (ident (c ∷ name)) o f s h =
    let (o', e) = read_ident-Reads (o + len_utf8 c) (c ∷ []) name s h.1 in
    (o', rw (append_assoc, next_token-ident o c _ h.0, e))
token-Reads (string v) o f s h =
    let (o', e) = read_string-Reads o (o + len_utf8 b'"') [] v s in (o', rw (append_assoc, e))
token-Reads lbrace o f s h = (o + len_utf8 b'{', unfold next_token in refl)
token-Reads rbrace o f s h = (o + len_utf8 b'}', unfold next_token in refl)

space-Reads :
    (o f : ℕ) (s : Text)
    → tokenize_from (suc f) (char_indices o (b' ' ∷ s))
      ≡ (tokenize_from f (char_indices (o + len_utf8 b' ') s) >>= λ ts. ok ts)
unfolding tokenize_from next_token is_whitespace char_indices
space-Reads o f s = refl

length-render_token : (t : Token) → IsToken t → 2 ≤ length (render_token t)
unfolding render_token
length-render_token (ident []) h = absurd h
length-render_token (ident (c ∷ name)) h = omega (arith, length-append {0} name (b' ' ∷ []))
length-render_token (string v) h =
    omega (arith, length-append {0} (escape_all v) (b'"' ∷ b' ' ∷ []))
length-render_token lbrace h = omega arith
length-render_token rbrace h = omega arith

render-Reads :
    (ts : List Token) (o f : ℕ)
    → All IsToken ts
    → length (render ts) < f
    → tokenize_from f (char_indices o (render ts)) ≡ ok ts
unfolding render
render-Reads [] o (suc f) h k = unfold tokenize_from char_indices in refl
render-Reads (t ∷ ts) o (suc (suc f)) h k =
    let (o', e) = token-Reads t o (suc f) (render ts) h.0 in
    let sizes = length-append {0} (render_token t) (render ts) in
    let size = length-render_token t h.0 in
    rw (e, space-Reads o' f (render ts), render-Reads ts (o' + len_utf8 b' ') f h.1 (omega arith))
render-Reads (t ∷ ts) o (suc zero) h k =
    absurd
      (omega (arith, length-append {0} (render_token t) (render ts), length-render_token t h.0))
render-Reads ts o zero h k = absurd (omega arith)

-- Any tokens with well-formed names, written out as text, are read back.
pub tokenize-render : (ts : List Token) → All IsToken ts → tokenize (render ts) ≡ ok ts
unfolding tokenize
tokenize-render ts h = render-Reads ts 0 (suc (length (render ts))) h (omega arith)
