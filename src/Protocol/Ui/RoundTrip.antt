-- ===== src/Protocol/Ui/RoundTrip.antt =====
-- Whole documents: printing a page as text and parsing it back.
use voidnet.Base.{◌≡◌, refl, Option, none, some, true, false, [], ◌∷◌, ◌++◌, List, Text, ok, All}
use voidnet.Protocol.Ui.Syntax.{
  VoidUiNode, Nodes, VoidUiPage, Token, column, row, panel, list, item, text, button, input, nil,
  cons,
}
use voidnet.Protocol.Ui.Outcome.{Ensures-ok}
use voidnet.Protocol.Ui.Printer.{
  ArePrintable, emit_body, emit_nodes, emit_page, emit_title, node_name, render,
}
use voidnet.Protocol.Ui.Lexer.{is_ident_start, is_ident_continue}
use voidnet.Protocol.Ui.Lexer.RoundTrip.{IsToken, tokenize-render}
use voidnet.Protocol.Ui.Parser.{parse_void_ui}
use voidnet.Protocol.Ui.Parser.Total.{parse_void_ui-Ensures}
use voidnet.Protocol.Ui.Parser.RoundTrip.{parse_tokens-emit_page}

abbrev Writable : List Token → Type 0
Writable = All IsToken

Writable-append : (xs ys : List Token) → Writable xs → Writable ys → Writable (xs ++ ys)
Writable-append [] ys h k = k
Writable-append (x ∷ xs) ys h k = (h.0, Writable-append xs ys h.1 k)

node_name-IsToken : (n : VoidUiNode) → IsToken (Token.ident (node_name n))
unfolding node_name is_ident_start is_ident_continue
node_name-IsToken (column ns) = (refl, refl)
node_name-IsToken _ = (refl, refl)

mutual
  unfolding emit_nodes is_ident_start is_ident_continue

  body-Writable : (n : VoidUiNode) → Writable (emit_body n)
  body-Writable (column ns) = (tt, block-Writable ns)
  body-Writable (row ns) = (tt, block-Writable ns)
  body-Writable (panel ns) = (tt, block-Writable ns)
  body-Writable (list ns) = (tt, block-Writable ns)
  body-Writable (item ns) = (tt, block-Writable ns)
  body-Writable (text s) = (tt, tt)
  body-Writable (button label action) = (search)
  body-Writable (input id none true) = (search)
  body-Writable (input id none false) = (search)
  body-Writable (input id (some s) true) = (search)
  body-Writable (input id (some s) false) = (search)

  block-Writable : (ns : Nodes) → Writable (emit_nodes ns)
  block-Writable nil = (tt, tt)
  block-Writable (cons n ns) = (
    node_name-IsToken n,
    Writable-append (emit_body n) (emit_nodes ns) (body-Writable n) (block-Writable ns),
  )

titled-Writable : (title : Option Text) (ns : Nodes) → Writable (emit_title title ++ emit_nodes ns)
unfolding is_ident_start is_ident_continue
titled-Writable none ns = block-Writable ns
titled-Writable (some s) ns = ((refl, refl), (tt, block-Writable ns))

page-Writable : (page : VoidUiPage) → Writable (emit_page page)
unfolding emit_page is_ident_start is_ident_continue
page-Writable page = ((refl, refl), (tt, titled-Writable page.title page.children))

-- A page whose actions are well-formed addresses with no '?' in the path, printed as text, parses
-- back to itself.
pub parse_void_ui-render :
    (page : VoidUiPage)
    → ArePrintable page.children
    → parse_void_ui (render (emit_page page)) ≡ ok page
unfolding parse_void_ui
parse_void_ui-render page p =
    rw (tokenize-render (emit_page page) (page-Writable page)) (parse_tokens-emit_page page p)

-- Every page that `parse_void_ui` returns for some source is what it returns for its print.
pub parse_void_ui_stable :
    (source : Text) (page : VoidUiPage)
    → parse_void_ui source ≡ ok page
    → parse_void_ui (render (emit_page page)) ≡ ok page
parse_void_ui_stable source page e =
    parse_void_ui-render page (Ensures-ok (parse_void_ui-Ensures source) e)
