-- ===== src/Protocol/Ui/Lexer/Total.antt =====
-- The lexer never runs out of the fuel that `tokenize` hands it.
use voidnet.Base.{
  ℕ, zero, suc, ◌+◌, ◌≤◌, ◌<◌, ◌≡◌, refl, [], ◌∷◌, ◌++◌, Text, ◌==◌, length, arith, Option-cases,
  is_whitespace, len_utf8, ap, inl, inr,
}
use voidnet.Protocol.Ui.Outcome.{Ensures, holds, rejected, Ensures-if, Ensures-bind, Ensures-weaken}
use voidnet.Protocol.Ui.Lexer.{
  CharIndices, char_indices, is_ident_start, unescape, read_string, read_ident, next_token,
  tokenize_from, tokenize,
}

read_string-Ensures :
    (start : ℕ) (value : Text) (chars : CharIndices)
    → Ensures (λ (_, rest). length rest ≤ length chars) (read_string start value chars)
unfolding read_string
read_string-Ensures start value [] = rejected
read_string-Ensures start value ((o, ch) ∷ []) =
    Ensures-if (ch == b'"') (holds (omega arith)) rejected
read_string-Ensures start value ((o, ch) ∷ (o', e) ∷ chars) =
    let longer =
      Ensures-weaken (read_string-Ensures start (value ++ ch ∷ []) ((o', e) ∷ chars))
        (λ (_, rest) (h : length rest ≤ suc (length chars)). omega arith) in
    Ensures-if (ch == b'"') (holds (omega arith)) (
      Ensures-if (ch == b'\\')
        (elim (Option-cases (unescape e)) [
          | inl bad ↦ rw bad rejected
          | inr (c, good) ↦ rw good (
              Ensures-weaken (read_string-Ensures start (value ++ c ∷ []) chars)
                (λ (_, rest) h. omega arith))
        ])
        longer)

length-read_ident :
    (name : Text) (chars : CharIndices) → length (read_ident name chars).1 ≤ length chars
unfolding read_ident
length-read_ident name [] = omega arith
length-read_ident name ((o, ch) ∷ chars) = ground (arith, length-read_ident (name ++ ch ∷ []) chars)

next_token-Ensures :
    (offset ch : ℕ) (chars : CharIndices)
    → Ensures (λ (_, rest). length rest ≤ length chars) (next_token offset ch chars)
unfolding next_token
next_token-Ensures offset ch chars = Ensures-if (ch == b'{') (holds (omega arith)) (
    Ensures-if (ch == b'}') (holds (omega arith)) (
      Ensures-if (ch == b'"') (Ensures-bind (read_string-Ensures offset [] chars) (λ _ h. holds h))
        (Ensures-if (is_whitespace ch) (holds (omega arith))
          (Ensures-if (is_ident_start ch) (holds (length-read_ident (ch ∷ []) chars)) rejected))))

tokenize_from-Ensures :
    (f : ℕ) (chars : CharIndices)
    → length chars < f
    → Ensures (λ _. Unit {0}) (tokenize_from f chars)
unfolding tokenize_from
tokenize_from-Ensures zero chars h = absurd (omega arith)
tokenize_from-Ensures (suc f) [] h = holds tt
tokenize_from-Ensures (suc f) ((o, ch) ∷ chars) h =
    Ensures-bind (next_token-Ensures o ch chars)
      λ (_, rest) k. Ensures-bind (tokenize_from-Ensures f rest (omega arith)) λ _ _. holds tt

length-char_indices : (o : ℕ) (s : Text) → length (char_indices o s) ≡ length s
unfolding char_indices
length-char_indices o [] = refl
length-char_indices o (ch ∷ s) = ap suc (length-char_indices (o + len_utf8 ch) s)

-- The fuel of `tokenize` is enough for every source text.
pub tokenize-Ensures : (source : Text) → Ensures (λ _. Unit {0}) (tokenize source)
unfolding tokenize
tokenize-Ensures source =
    tokenize_from-Ensures (suc (length source)) (char_indices 0 source)
      (omega (arith, length-char_indices 0 source))
