-- ===== src/Protocol/Ui/Parser/Total.antt =====
-- The parser never runs out of fuel, and the actions of what it accepts are addresses that print
-- and parse back.
use voidnet.Base.{
  ℕ, zero, suc, ◌≤◌, ◌<◌, ◌≡◌, refl, Bool, true, false, Option, none, some, [], ◌∷◌, Text, codes,
  ok, err, if◌then◌else◌, length, arith, Option-cases, inl, inr, text_eq, ap, subst, Result,
  map_err, ◌>>=◌,
}
use voidnet.Protocol.Uri.{VoidUri, ParseVoidUriError, from_str}
use voidnet.Protocol.Uri.RoundTrip.{from_str-eq_ok_iff}
use voidnet.Protocol.Ui.Syntax.{
  VoidUiNode, Nodes, Parsed, column, row, panel, list, item, button, parse_error, invalid_action,
  ident, string, lbrace, rbrace,
}
use voidnet.Protocol.Ui.Outcome.{
  Ensures, holds, rejected, Ensures-if, Ensures-if_at, Ensures-bind, Ensures-weaken,
}
use voidnet.Protocol.Ui.Printer.{IsPrintable, ArePrintable, IsPrintableUri}
use voidnet.Protocol.Ui.Lexer.Total.{tokenize-Ensures}
use voidnet.Protocol.Ui.Parser.{
  Tokens, Parser, lift, no_input, next_ident, next_string, next_bool, expect_ident, expect_lbrace,
  expect_rbrace, expect_eof, peek_rbrace, button_property, button_properties, build_button,
  parse_button, InputProperties, input_property, input_properties, build_input, parse_input,
  container, parse_leaf, parse_nodes_until_rbrace, parse_node_after_ident, page_body, page_item,
  parse_page, parse_tokens, parse_void_ui,
}

-- `p` takes a token at least, and its result meets `P`.
abbrev Consumes : {A : Type 0} → (A → Type 0) → Tokens → Parsed (A × Tokens) → Type 0
Consumes P ts r = Ensures (λ (a, rest). (length rest < length ts) × P a) r

-- `p` may leave the input as it is.
abbrev Stays : {A : Type 0} → (A → Type 0) → Tokens → Parsed (A × Tokens) → Type 0
Stays P ts r = Ensures (λ (a, rest). (length rest ≤ length ts) × P a) r

abbrev Any {ℓ} : {A : Type ℓ} → A → Type 0
Any a = Unit

next_ident-Consumes : (ts : Tokens) → Consumes Any ts (next_ident ts)
unfolding next_ident
next_ident-Consumes [] = rejected
next_ident-Consumes (ident name ∷ ts) = holds (omega arith)
next_ident-Consumes (_ ∷ ts) = rejected

next_string-Consumes : (ts : Tokens) → Consumes Any ts (next_string ts)
unfolding next_string
next_string-Consumes [] = rejected
next_string-Consumes (string s ∷ ts) = holds (omega arith)
next_string-Consumes (_ ∷ ts) = rejected

expect_lbrace-Consumes : (ts : Tokens) → Consumes Any ts (expect_lbrace ts)
unfolding expect_lbrace
expect_lbrace-Consumes [] = rejected
expect_lbrace-Consumes (lbrace ∷ ts) = holds (omega arith)
expect_lbrace-Consumes (_ ∷ ts) = rejected

expect_rbrace-Consumes : (ts : Tokens) → Consumes Any ts (expect_rbrace ts)
unfolding expect_rbrace
expect_rbrace-Consumes [] = rejected
expect_rbrace-Consumes (rbrace ∷ ts) = holds (omega arith)
expect_rbrace-Consumes (_ ∷ ts) = rejected

next_bool-Consumes : (ts : Tokens) → Consumes Any ts (next_bool ts)
unfolding next_bool
next_bool-Consumes [] = rejected
next_bool-Consumes (ident name ∷ ts) =
    Ensures-if_at (text_eq name (codes "true")) _ _ (holds (omega arith))
      (Ensures-if_at (text_eq name (codes "false")) _ _ (holds (omega arith)) rejected)
next_bool-Consumes (_ ∷ ts) = rejected

button_property-Consumes :
    (name : Text) (label action : Option Text) (ts : Tokens)
    → Consumes Any ts (button_property name label action ts)
unfolding button_property
button_property-Consumes name label action ts =
    Ensures-if_at (text_eq name (codes "label")) _ _
      (Ensures-bind (next_string-Consumes ts) λ _ h. holds h)
      (Ensures-if_at (text_eq name (codes "action")) _ _
        (Ensures-bind (next_string-Consumes ts) λ _ h. holds h) rejected)

button_properties-Stays :
    (f : ℕ) (label action : Option Text) (ts : Tokens)
    → length ts < f
    → Stays Any ts (button_properties f label action ts)
unfolding button_properties
button_properties-Stays zero label action ts h = absurd (omega arith)
button_properties-Stays (suc f) label action ts h =
    Ensures-if (peek_rbrace ts) (holds (omega arith)) (
      Ensures-bind (next_ident-Consumes ts) λ (name, ts₁) h₁.
        Ensures-bind (button_property-Consumes name label action ts₁) λ ((l, a), ts₂) h₂.
          Ensures-weaken (button_properties-Stays f l a ts₂ (omega arith)) λ _ h₃. omega arith)

input_property-Consumes :
    (name : Text) (p : InputProperties) (ts : Tokens) → Consumes Any ts (input_property name p ts)
unfolding input_property
input_property-Consumes name p ts =
    Ensures-if_at (text_eq name (codes "id")) _ _
      (Ensures-bind (next_string-Consumes ts) λ _ h. holds h)
      (Ensures-if_at (text_eq name (codes "placeholder")) _ _
        (Ensures-bind (next_string-Consumes ts) λ _ h. holds h)
        (Ensures-if_at (text_eq name (codes "secure")) _ _
          (Ensures-bind (next_bool-Consumes ts) λ _ h. holds h) rejected))

input_properties-Stays :
    (f : ℕ) (p : InputProperties) (ts : Tokens)
    → length ts < f
    → Stays Any ts (input_properties f p ts)
unfolding input_properties
input_properties-Stays zero p ts h = absurd (omega arith)
input_properties-Stays (suc f) p ts h = Ensures-if (peek_rbrace ts) (holds (omega arith)) (
    Ensures-bind (next_ident-Consumes ts) λ (name, ts₁) h₁.
      Ensures-bind (input_property-Consumes name p ts₁) λ (p', ts₂) h₂.
        Ensures-weaken (input_properties-Stays f p' ts₂ (omega arith)) λ _ h₃. omega arith)

built_action :
    (l : Text) (r : Result ParseVoidUriError VoidUri)
    → ((uri : VoidUri) → r ≡ ok uri → IsPrintableUri uri)
    → Ensures IsPrintable
        (map_err (λ e. parse_error (invalid_action e)) r >>= λ uri. ok (button l uri))
unfolding IsPrintable
built_action l (ok uri) h = holds (h uri refl)
built_action l (err e) h = rejected

build_button-Ensures :
    (label action : Option Text) → Ensures IsPrintable (build_button label action)
unfolding build_button IsPrintable
build_button-Ensures none action = rejected
build_button-Ensures (some l) none = rejected
build_button-Ensures (some l) (some a) =
    built_action l (from_str a)
      λ uri e. let (w, lacks, _) = (from_str-eq_ok_iff a uri).0 e in (w, lacks)

build_input-Ensures : (p : InputProperties) → Ensures IsPrintable (build_input p)
unfolding build_input IsPrintable
build_input-Ensures p = elim (Option-cases p.id) [
  | inl e ↦ rw e rejected
  | inr (id, e) ↦ rw e (holds tt)
]

lift-Consumes :
    {P : VoidUiNode → Type 0} {r : Parsed VoidUiNode} (ts : Tokens)
    → Ensures P r
    → Ensures (λ (n, rest). (rest ≡ ts) × P n) (lift r ts)
lift-Consumes ts (holds h) = holds (refl, h)
lift-Consumes ts rejected = rejected

parse_button-Consumes :
    (f : ℕ) (ts : Tokens) → length ts ≤ f → Consumes IsPrintable ts (parse_button f ts)
unfolding parse_button
parse_button-Consumes f ts h = Ensures-bind (expect_lbrace-Consumes ts) λ (_, ts₁) h₁.
    Ensures-bind (button_properties-Stays f none none ts₁ (omega arith)) λ ((l, a), ts₂) h₂.
      Ensures-bind (expect_rbrace-Consumes ts₂) λ (_, ts₃) h₃.
        Ensures-weaken (lift-Consumes ts₃ (build_button-Ensures l a))
          λ (n, ts₄) (e, p). (omega (arith, ap length e), p)

parse_input-Consumes :
    (f : ℕ) (ts : Tokens) → length ts ≤ f → Consumes IsPrintable ts (parse_input f ts)
unfolding parse_input
parse_input-Consumes f ts h = Ensures-bind (expect_lbrace-Consumes ts) λ (_, ts₁) h₁.
    Ensures-bind (input_properties-Stays f no_input ts₁ (omega arith)) λ (p, ts₂) h₂.
      Ensures-bind (expect_rbrace-Consumes ts₂) λ (_, ts₃) h₃.
        Ensures-weaken (lift-Consumes ts₃ (build_input-Ensures p))
          λ (n, ts₄) (e, p). (omega (arith, ap length e), p)

parse_leaf-Consumes :
    (f : ℕ) (name : Text) (ts : Tokens)
    → length ts ≤ f
    → Consumes IsPrintable ts (parse_leaf f name ts)
unfolding parse_leaf IsPrintable
parse_leaf-Consumes f name ts h =
    Ensures-if_at (text_eq name (codes "text")) _ _
      (Ensures-bind (next_string-Consumes ts) λ _ k. holds k)
      (Ensures-if_at (text_eq name (codes "button")) _ _ (parse_button-Consumes f ts h)
        (Ensures-if_at (text_eq name (codes "input")) _ _ (parse_input-Consumes f ts h) rejected))

pick :
    {A : Type 0} (P : A → Type 0) (b : Bool) (f g : A) (o : Option A)
    → P f
    → (o ≡ some g → P g)
    → (if b then some f else o) ≡ some g
    → P g
pick P true f g o pf k e = let q : f ≡ g = cc in subst P q pf
pick P false f g o pf k e = k e

container-IsPrintable :
    (name : Text) (block : Nodes → VoidUiNode) (ns : Nodes)
    → container name ≡ some block
    → ArePrintable ns
    → IsPrintable (block ns)
unfolding container IsPrintable
container-IsPrintable name block ns e p =
    let Q : (Nodes → VoidUiNode) → Type 0 = λ b. IsPrintable (b ns) in
    pick Q _ column block _ p
      (pick Q _ row block _ p
        (pick Q _ panel block _ p (pick Q _ list block _ p (pick Q _ item block none p (λ z. cc)))))
      e

mutual
  unfolding parse_nodes_until_rbrace IsPrintable

  nodes-Consumes :
      (f : ℕ) (ts : Tokens)
      → length ts < f
      → Consumes ArePrintable ts (parse_nodes_until_rbrace f ts)
  nodes-Consumes zero ts h = absurd (omega arith)
  nodes-Consumes (suc f) ts h =
      Ensures-if (peek_rbrace ts) (Ensures-bind (expect_rbrace-Consumes ts) λ _ k. holds k) (
        Ensures-bind (next_ident-Consumes ts) λ (name, ts₁) h₁.
          Ensures-bind (node-Consumes f name ts₁ (omega arith)) λ (n, ts₂) (h₂, p).
            Ensures-bind (nodes-Consumes f ts₂ (omega arith))
              λ (ns, ts₃) (h₃, ps). holds (omega arith, (p, ps)))

  node-Consumes :
      (f : ℕ) (name : Text) (ts : Tokens)
      → length ts < f
      → Consumes IsPrintable ts (parse_node_after_ident f name ts)
  node-Consumes zero name ts h = absurd (omega arith)
  node-Consumes (suc f) name ts h = elim (Option-cases (container name)) [
    | inl leaf ↦ rw (leaf, parse_node_after_ident) (parse_leaf-Consumes f name ts (omega arith))
    | inr (block, e) ↦
        rw (e, parse_node_after_ident)
          (Ensures-bind (expect_lbrace-Consumes ts) λ (_, ts₁) h₁.
            Ensures-bind (nodes-Consumes f ts₁ (omega arith))
              λ (ns, ts₂) (h₂, ps). holds (omega arith, container-IsPrintable name block ns e ps))
  ]

page_item-Stays :
    (f : ℕ) (loop : Option Text → Parser (Option Text × Nodes)) (title : Option Text) (name : Text)
    (ts : Tokens)
    → length ts < f
    → ((t : Option Text) (rest : Tokens)
        → length rest < length ts
        → Stays (λ (_, ns). ArePrintable ns) rest (loop t rest))
    → Stays (λ (_, ns). ArePrintable ns) ts (page_item f loop title name ts)
unfolding page_item ArePrintable
page_item-Stays f loop title name ts h go =
    Ensures-if_at (text_eq name (codes "title")) _ _
      (Ensures-bind (next_string-Consumes ts) λ (s, ts₁) h₁.
        Ensures-weaken (go (some s) ts₁ (omega arith)) λ _ (h₂, ps). (omega arith, ps))
      (Ensures-bind (node-Consumes f name ts h) λ (n, ts₁) (h₁, p).
        Ensures-bind (go title ts₁ (omega arith))
          λ ((t, ns), ts₂) (h₂, ps). holds (omega arith, (p, ps)))

page_body-Stays :
    (f : ℕ) (title : Option Text) (ts : Tokens)
    → length ts < f
    → Stays (λ (_, ns). ArePrintable ns) ts (page_body f title ts)
unfolding page_body ArePrintable
page_body-Stays zero title ts h = absurd (omega arith)
page_body-Stays (suc f) title ts h = Ensures-if (peek_rbrace ts) (holds (omega arith, tt)) (
    Ensures-bind (next_ident-Consumes ts) λ (name, ts₁) h₁.
      Ensures-weaken
        (page_item-Stays f (page_body f) title name ts₁ (omega arith)
          λ t rest k. page_body-Stays f t rest (omega arith))
        λ _ (h₂, ps). (omega arith, ps))

expect_ident-Consumes : (expected : Text) (ts : Tokens) → Consumes Any ts (expect_ident expected ts)
unfolding expect_ident
expect_ident-Consumes expected ts =
    Ensures-bind (next_ident-Consumes ts)
      λ (name, rest) h. Ensures-if_at (text_eq name expected) _ _ (holds h) rejected

expect_eof-Ensures : (ts : Tokens) → Ensures (λ _. Unit {0}) (expect_eof ts)
unfolding expect_eof
expect_eof-Ensures [] = holds tt
expect_eof-Ensures (t ∷ ts) = rejected

parse_page-Ensures :
    (f : ℕ) (ts : Tokens)
    → length ts < f
    → Ensures (λ (page, _). ArePrintable page.children) (parse_page f ts)
unfolding parse_page
parse_page-Ensures f ts h = Ensures-bind (expect_ident-Consumes (codes "page") ts) λ (_, ts₁) h₁.
    Ensures-bind (expect_lbrace-Consumes ts₁) λ (_, ts₂) h₂.
      Ensures-bind (page_body-Stays f none ts₂ (omega arith)) λ ((_, ns), ts₃) (_, ps).
        Ensures-bind (expect_rbrace-Consumes ts₃)
          λ (_, ts₄) _. Ensures-bind (expect_eof-Ensures ts₄) λ _ _. holds ps

-- On every source text `parse_void_ui` returns a page or a parse error, never for want of fuel, and
-- each action of a page that it returns is a well-formed address with no '?' in its path.
pub parse_void_ui-Ensures :
    (source : Text) → Ensures (λ page. ArePrintable page.children) (parse_void_ui source)
unfolding parse_void_ui parse_tokens
parse_void_ui-Ensures source =
    Ensures-bind (tokenize-Ensures source)
      λ ts _. Ensures-bind (parse_page-Ensures (suc (length ts)) ts (omega arith)) λ _ ps. holds ps
