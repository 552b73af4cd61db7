-- ===== src/Protocol/Ui/Parser/RoundTrip.antt =====
-- The parser reads back the tokens of every printable page.
use voidnet.Base.{
  ℕ, zero, suc, ◌<◌, ◌≡◌, refl, Bool, true, false, Option, none, some, [], ◌∷◌, ◌++◌, Text, codes,
  ok, append_assoc, length, length-append, arith, text_eq,
}
use voidnet.Protocol.Uri.{VoidUri, display}
use voidnet.Protocol.Uri.RoundTrip.{from_str-display}
use voidnet.Protocol.Ui.Syntax.{
  VoidUiNode, Nodes, VoidUiPage, column, row, panel, list, item, text, button, input, nil, cons,
  rbrace,
}
use voidnet.Protocol.Ui.Printer.{
  IsPrintable, ArePrintable, IsPrintableUri, emit_body, emit_nodes, emit_button, emit_input,
  node_name, emit_title, emit_page,
}
use voidnet.Protocol.Ui.Parser.{
  Tokens, Parser, page_item, build_button, parse_button, parse_input, container, parse_leaf,
  parse_nodes_until_rbrace, parse_node_after_ident, page_body, parse_tokens,
}

build_button-display :
    (label : Text) (action : VoidUri)
    → IsPrintableUri action
    → build_button (some label) (some (display action)) ≡ ok (button label action)
unfolding build_button
build_button-display label action p = rw (from_str-display action p.0 p.1)

-- With room for `n` more units, the fuel is a successor.
module _ (label : Text) (action : VoidUri) (p : IsPrintableUri action) (rest : Tokens) where
  button-Reads :
      (f : ℕ)
      → 5 < f
      → parse_button f (emit_button label action ++ rest) ≡ ok (button label action, rest)
  unfolding parse_button text_eq
  button-Reads (suc (suc (suc f))) h = rw (build_button-display label action p)
  button-Reads _ h = absurd (omega arith)

module _ (id : Text) (rest : Tokens) where
  input-Reads :
      (placeholder : Option Text) (secure : Bool) (f : ℕ)
      → 5 < f
      → parse_input f (emit_input id placeholder secure ++ rest)
        ≡ ok (input id placeholder secure, rest)
  unfolding parse_input text_eq
  input-Reads none true (suc (suc (suc (suc f)))) h = refl
  input-Reads none false (suc (suc (suc (suc f)))) h = refl
  input-Reads (some s) true (suc (suc (suc (suc f)))) h = refl
  input-Reads (some s) false (suc (suc (suc (suc f)))) h = refl
  input-Reads _ _ _ h = absurd (omega arith)

-- With fuel above the length of the body, the parser reads `n` off any input that it starts.
abbrev Reads : VoidUiNode → Type 0
Reads n =
    (rest : Tokens) (f : ℕ)
    → length (emit_body n) < f
    → parse_node_after_ident f (node_name n) (emit_body n ++ rest) ≡ ok (n, rest)

abbrev ReadsBlock : Nodes → Type 0
ReadsBlock ns =
    (rest : Tokens) (f : ℕ)
    → length (emit_nodes ns) < f
    → parse_nodes_until_rbrace f (emit_nodes ns ++ rest) ≡ ok (ns, rest)

mutual
  unfolding parse_nodes_until_rbrace emit_nodes IsPrintable container parse_leaf text_eq

  node-Reads : (n : VoidUiNode) → IsPrintable n → Reads n
  node-Reads (column ns) p rest (suc f) h = rw (block-Reads ns p rest f (omega arith))
  node-Reads (row ns) p rest (suc f) h = rw (block-Reads ns p rest f (omega arith))
  node-Reads (panel ns) p rest (suc f) h = rw (block-Reads ns p rest f (omega arith))
  node-Reads (list ns) p rest (suc f) h = rw (block-Reads ns p rest f (omega arith))
  node-Reads (item ns) p rest (suc f) h = rw (block-Reads ns p rest f (omega arith))
  node-Reads (text s) p rest (suc f) h = refl
  node-Reads (button label action) p rest (suc f) h =
      button-Reads label action p rest f (omega arith)
  node-Reads (input id none secure) p rest (suc f) h =
      input-Reads id rest none secure f (omega arith)
  node-Reads (input id (some s) secure) p rest (suc f) h =
      input-Reads id rest (some s) secure f (omega arith)
  node-Reads _ p rest zero h = absurd (omega arith)

  block-Reads : (ns : Nodes) → ArePrintable ns → ReadsBlock ns
  block-Reads nil p rest (suc f) h = refl
  block-Reads (cons n ns) p rest (suc f) h = rw (
    append_assoc,
    node-Reads n p.0 (emit_nodes ns ++ rest) f
        (omega (arith, length-append {0} (emit_body n) (emit_nodes ns))),
    block-Reads ns p.1 rest f (omega (arith, length-append {0} (emit_body n) (emit_nodes ns))),
  )
  block-Reads _ p rest zero h = absurd (omega arith)

node_name-ne_title : (n : VoidUiNode) → text_eq (node_name n) (codes "title") ≡ false
unfolding node_name text_eq
node_name-ne_title (column ns) = refl
node_name-ne_title _ = refl

page_item-Reads :
    (f : ℕ) (loop : Option Text → Parser (Option Text × Nodes)) (title : Option Text)
    (n : VoidUiNode) (ns : Nodes) (ts rest : Tokens)
    → parse_node_after_ident f (node_name n) ts ≡ ok (n, rest)
    → loop title rest ≡ ok ((title, ns), rbrace ∷ [])
    → page_item f loop title (node_name n) ts ≡ ok ((title, cons n ns), rbrace ∷ [])
unfolding page_item
page_item-Reads f loop title n ns ts rest e k = rw (node_name-ne_title n, e, k)

page_body-Reads :
    (title : Option Text) (ns : Nodes)
    → ArePrintable ns
    → (f : ℕ) → length (emit_nodes ns) < f
    → page_body f title (emit_nodes ns) ≡ ok ((title, ns), rbrace ∷ [])
unfolding page_body emit_nodes IsPrintable
page_body-Reads title nil p (suc f) h = refl
page_body-Reads title (cons n ns) p (suc f) h =
    let sizes = length-append {0} (emit_body n) (emit_nodes ns) in
    page_item-Reads f (page_body f) title n ns _ _
      (node-Reads n p.0 (emit_nodes ns) f (omega arith))
      (page_body-Reads title ns p.1 f (omega arith))
page_body-Reads title _ p zero h = absurd (omega arith)

titled_body-Reads :
    (title : Option Text) (ns : Nodes) (f : ℕ)
    → ArePrintable ns
    → length (emit_title title ++ emit_nodes ns) < f
    → page_body f none (emit_title title ++ emit_nodes ns) ≡ ok ((title, ns), rbrace ∷ [])
unfolding page_body page_item text_eq
titled_body-Reads none ns f p h = page_body-Reads none ns p f h
titled_body-Reads (some s) ns (suc f) p h = page_body-Reads (some s) ns p f (omega arith)
titled_body-Reads (some s) ns zero p h = absurd (omega arith)

-- Parsing the tokens of a printable page gives that page.
pub parse_tokens-emit_page :
    (page : VoidUiPage) → ArePrintable page.children → parse_tokens (emit_page page) ≡ ok page
unfolding parse_tokens emit_page text_eq
parse_tokens-emit_page page p =
    rw (titled_body-Reads page.title page.children (suc (length (emit_page page))) p (omega arith))
