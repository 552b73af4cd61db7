-- ===== src/Protocol/Ui/Printer.antt =====
-- A printer of pages, which core/protocol/src/ui.rs does not have: it says by an independent
-- description which documents the parser reads back.
use voidnet.Base.{
  ℕ, ◌≡◌, Bool, true, false, Option, none, some, [], ◌∷◌, ◌++◌, Text, codes, if◌then◌else◌, ◌==◌,
  contains,
}
use voidnet.Protocol.Uri.{VoidUri, display}
use voidnet.Protocol.Uri.RoundTrip.{IsWellFormed}
use voidnet.Protocol.Ui.Syntax.{
  VoidUiNode, Nodes, VoidUiPage, Token, column, row, panel, list, item, text, button, input, nil,
  cons, ident, string, lbrace, rbrace,
}
use voidnet.Protocol.Ui.Parser.{Tokens}

abbrev pub keyword : Bool → Text
keyword true = codes "true"
keyword false = codes "false"

abbrev pub emit_placeholder : Option Text → Tokens
emit_placeholder none = []
emit_placeholder (some s) = ident (codes "placeholder") ∷ string s ∷ []

unfoldable pub node_name : VoidUiNode → Text
node_name (column ns) = codes "column"
node_name (row ns) = codes "row"
node_name (panel ns) = codes "panel"
node_name (list ns) = codes "list"
node_name (item ns) = codes "item"
node_name (text s) = codes "text"
node_name (button label action) = codes "button"
node_name (input id placeholder secure) = codes "input"

abbrev pub emit_button : Text → VoidUri → Tokens
emit_button label action =
    lbrace
    ∷ ident (codes "label")
    ∷ string label
    ∷ ident (codes "action")
    ∷ string (display action)
    ∷ rbrace
    ∷ []

abbrev pub emit_input : Text → Option Text → Bool → Tokens
emit_input id placeholder secure =
    lbrace
    ∷ ident (codes "id")
    ∷ string id
    ∷ (emit_placeholder placeholder
        ++ ident (codes "secure") ∷ ident (keyword secure) ∷ rbrace ∷ [])

unfoldable mutual
  unfolding node_name

  -- what follows the name of a node
  pub emit_body : VoidUiNode → Tokens
  emit_body (column ns) = lbrace ∷ emit_nodes ns
  emit_body (row ns) = lbrace ∷ emit_nodes ns
  emit_body (panel ns) = lbrace ∷ emit_nodes ns
  emit_body (list ns) = lbrace ∷ emit_nodes ns
  emit_body (item ns) = lbrace ∷ emit_nodes ns
  emit_body (text s) = string s ∷ []
  emit_body (button label action) = emit_button label action
  emit_body (input id placeholder secure) = emit_input id placeholder secure

  -- the nodes of a block and its closing brace
  pub emit_nodes : Nodes → Tokens
  emit_nodes nil = rbrace ∷ []
  emit_nodes (cons n ns) = ident (node_name n) ∷ (emit_body n ++ emit_nodes ns)

abbrev pub emit_title : Option Text → Tokens
emit_title none = []
emit_title (some s) = ident (codes "title") ∷ string s ∷ []

unfoldable pub emit_page : VoidUiPage → Tokens
unfolding emit_nodes
emit_page page = ident (codes "page") ∷ lbrace ∷ (emit_title page.title ++ emit_nodes page.children)

-- Each action is an address that its print parses to.
abbrev pub IsPrintableUri : VoidUri → Type 0
IsPrintableUri uri = IsWellFormed uri × (contains uri.path b'?' ≡ false)

unfoldable mutual
  pub IsPrintable : VoidUiNode → Type 0
  IsPrintable (column ns) = ArePrintable ns
  IsPrintable (row ns) = ArePrintable ns
  IsPrintable (panel ns) = ArePrintable ns
  IsPrintable (list ns) = ArePrintable ns
  IsPrintable (item ns) = ArePrintable ns
  IsPrintable (text s) = Unit
  IsPrintable (button label action) = IsPrintableUri action
  IsPrintable (input id placeholder secure) = Unit

  pub ArePrintable : Nodes → Type 0
  ArePrintable nil = Unit
  ArePrintable (cons n ns) = IsPrintable n × ArePrintable ns

-- the characters that a string literal spells with a backslash
unfoldable pub escape : ℕ → Text
escape c =
    if c == b'"'
    then b'\\' ∷ b'"' ∷ []
    else if c == b'\\'
    then b'\\' ∷ b'\\' ∷ []
    else if c == 10
    then b'\\' ∷ b'n' ∷ []
    else if c == 9
    then b'\\' ∷ b't' ∷ []
    else c ∷ []

unfoldable pub escape_all : Text → Text
escape_all [] = []
escape_all (c ∷ s) = escape c ++ escape_all s

unfoldable pub render_token : Token → Text
unfolding escape_all
render_token (ident name) = name ++ b' ' ∷ []
render_token (string s) = b'"' ∷ (escape_all s ++ b'"' ∷ b' ' ∷ [])
render_token lbrace = b'{' ∷ b' ' ∷ []
render_token rbrace = b'}' ∷ b' ' ∷ []

unfoldable pub render : Tokens → Text
unfolding render_token escape
render [] = []
render (t ∷ ts) = render_token t ++ render ts
