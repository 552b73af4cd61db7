-- ===== src/Protocol/Ui/Parser.antt =====
-- `Parser` and `parse_void_ui` of core/protocol/src/ui.rs. The position in the tokens is the list
-- of the tokens from there on.
pub mod Total
pub mod RoundTrip
use voidnet.Base.{
  ℕ, zero, suc, ◌+◌, Bool, true, false, Option, none, some, List, [], ◌∷◌, Text, codes, Result, ok,
  err, ok_or, map_err, if◌then◌else◌, length, text_eq,
}
use voidnet.Base
use voidnet.Protocol.Uri.{from_str}
use voidnet.Protocol.Ui.Syntax.{
  VoidUiNode, Nodes, VoidUiPage, Token, Failure, Parsed, fail, column, row, panel, list, item, text,
  button, input, nil, cons, ident, string, lbrace, rbrace, unexpected_eof, unexpected_token,
  expected_ident, unknown_node, unknown_property, missing_property, invalid_bool, invalid_action,
  parse_error, out_of_fuel,
}
use voidnet.Protocol.Ui.Lexer.{tokenize}

abbrev pub Tokens : Type 0
Tokens = List Token

abbrev pub Parser {ℓ} : Type ℓ → Type ℓ
Parser A = Tokens → Parsed (A × Tokens)

abbrev pub pure {ℓ} : {A : Type ℓ} → A → Parser A
pure a ts = ok (a, ts)

abbrev pub lift {ℓ} : {A : Type ℓ} → Parsed A → Parser A
lift r ts = Base.◌>>=◌ r (λ a. ok (a, ts))

module _ {ℓ κ} {A : Type ℓ} {B : Type κ} where
  infixl 5 ◌>>=◌ ◌>>◌
  abbrev pub ◌>>=◌ : Parser A → (A → Parser B) → Parser B
  p >>= f = λ ts. Base.◌>>=◌ (p ts) λ (a, rest). f a rest

  abbrev pub ◌>>◌ : Parser A → Parser B → Parser B
  p >> q = p >>= λ _. q

abbrev pub run {ℓ} : {A : Type ℓ} → Tokens → Parser A → Parsed (A × Tokens)
run ts p = p ts

unfoldable pub next : Parser Token
next [] = fail unexpected_eof
next (t ∷ ts) = ok (t, ts)

unfoldable pub as_ident : Token → Parsed Text
as_ident (ident name) = ok name
as_ident t = fail (unexpected_token t)

unfoldable pub as_string : Token → Parsed Text
as_string (string value) = ok value
as_string t = fail (unexpected_token t)

unfoldable pub next_ident : Parser Text
unfolding next as_ident
next_ident = do t ← next; lift (as_ident t)

unfoldable pub next_string : Parser Text
unfolding next as_string
next_string = do t ← next; lift (as_string t)

unfoldable pub next_bool : Parser Bool
unfolding next_ident
next_bool = do
  name ← next_ident
  if text_eq name (codes "true")
      then pure true
      else if text_eq name (codes "false")
      then pure false
      else lift (fail (invalid_bool name))

unfoldable pub expect_ident : Text → Parser (Unit {0})
unfolding next_ident
expect_ident expected = do
  name ← next_ident
  if text_eq name expected then pure tt else lift (fail (expected_ident expected name))

unfoldable pub expect_lbrace : Parser (Unit {0})
expect_lbrace [] = fail unexpected_eof
expect_lbrace (lbrace ∷ ts) = ok (tt, ts)
expect_lbrace (t ∷ ts) = fail (unexpected_token t)

unfoldable pub expect_rbrace : Parser (Unit {0})
expect_rbrace [] = fail unexpected_eof
expect_rbrace (rbrace ∷ ts) = ok (tt, ts)
expect_rbrace (t ∷ ts) = fail (unexpected_token t)

unfoldable pub expect_eof : Parser (Unit {0})
expect_eof [] = ok (tt, [])
expect_eof (t ∷ ts) = fail (unexpected_token t)

unfoldable pub peek_rbrace : Tokens → Bool
peek_rbrace (rbrace ∷ _) = true
peek_rbrace _ = false

-- one property of a button: the label and the action read so far
unfoldable pub button_property :
    Text → Option Text → Option Text → Parser (Option Text × Option Text)
unfolding next_string text_eq
button_property name label action =
    if text_eq name (codes "label")
    then (do s ← next_string; pure (some s, action))
    else if text_eq name (codes "action")
    then (do s ← next_string; pure (label, some s))
    else lift (fail (unknown_property name))

unfoldable pub button_properties :
    ℕ → Option Text → Option Text → Parser (Option Text × Option Text)
unfolding button_property next_ident peek_rbrace
button_properties zero label action ts = err out_of_fuel
button_properties (suc f) label action ts =
    let more = run ts do
      name ← next_ident
      (label', action') ← button_property name label action
      button_properties f label' action'
    in if peek_rbrace ts then ok ((label, action), ts) else more

abbrev pub require {ℓ} : {A : Type ℓ} → Option A → Text → Parsed A
require o name = ok_or o (parse_error (missing_property name))

unfoldable pub build_button : Option Text → Option Text → Parsed VoidUiNode
unfolding from_str
build_button label action = Base.◌>>=◌ (require label (codes "label")) λ l.
    Base.◌>>=◌ (require action (codes "action")) λ a.
      Base.◌>>=◌ (map_err (λ e. parse_error (invalid_action e)) (from_str a))
        λ uri. ok (button l uri)

unfoldable pub parse_button : ℕ → Parser VoidUiNode
unfolding expect_lbrace expect_rbrace button_properties build_button
parse_button f = do
  expect_lbrace
  (label, action) ← button_properties f none none
  expect_rbrace
  lift (build_button label action)

pub record InputProperties : Type 0 where
  pub id : Option Text
  pub placeholder : Option Text
  pub secure : Bool

unfoldable pub input_property : Text → InputProperties → Parser InputProperties
unfolding next_string next_bool text_eq
input_property name p =
    if text_eq name (codes "id")
    then (do s ← next_string; pure (record p { id = some s }))
    else if text_eq name (codes "placeholder")
    then (do s ← next_string; pure (record p { placeholder = some s }))
    else if text_eq name (codes "secure")
    then (do b ← next_bool; pure (record p { secure = b }))
    else lift (fail (unknown_property name))

unfoldable pub input_properties : ℕ → InputProperties → Parser InputProperties
unfolding input_property next_ident peek_rbrace
input_properties zero p ts = err out_of_fuel
input_properties (suc f) p ts =
    let more = run ts do name ← next_ident; p' ← input_property name p; input_properties f p'
    in if peek_rbrace ts then ok (p, ts) else more

abbrev pub no_input : InputProperties
no_input = record { id = none; placeholder = none; secure = false }

unfoldable pub build_input : InputProperties → Parsed VoidUiNode
build_input p = Base.◌>>=◌ (require p.id (codes "id")) λ id. ok (input id p.placeholder p.secure)

unfoldable pub parse_input : ℕ → Parser VoidUiNode
unfolding expect_lbrace expect_rbrace input_properties build_input
parse_input f = do
  expect_lbrace
  p ← input_properties f no_input
  expect_rbrace
  lift (build_input p)

-- the nodes whose body is a block of nodes
unfoldable pub container : Text → Option (Nodes → VoidUiNode)
unfolding text_eq
container name =
    if text_eq name (codes "column")
    then some column
    else if text_eq name (codes "row")
    then some row
    else if text_eq name (codes "panel")
    then some panel
    else if text_eq name (codes "list")
    then some list
    else if text_eq name (codes "item")
    then some item
    else none

unfoldable pub parse_leaf : ℕ → Text → Parser VoidUiNode
unfolding next_string parse_button parse_input text_eq
parse_leaf f name =
    if text_eq name (codes "text")
    then (do s ← next_string; pure (text s))
    else if text_eq name (codes "button")
    then parse_button f
    else if text_eq name (codes "input")
    then parse_input f
    else lift (fail (unknown_node name))

-- A call is handed a unit of fuel for each token that is left, and one more.
unfoldable mutual
  unfolding peek_rbrace expect_rbrace expect_lbrace next_ident

  pub parse_nodes_until_rbrace : ℕ → Parser Nodes
  parse_nodes_until_rbrace zero ts = err out_of_fuel
  parse_nodes_until_rbrace (suc f) ts =
      let closed = run ts (do expect_rbrace; pure nil) in
      let more = run ts do
        name ← next_ident
        node ← parse_node_after_ident f name
        nodes ← parse_nodes_until_rbrace f
        pure (cons node nodes)
      in if peek_rbrace ts then closed else more

  pub parse_node_after_ident : ℕ → Text → Parser VoidUiNode
  parse_node_after_ident zero name ts = err out_of_fuel
  parse_node_after_ident (suc f) name ts = elim (container name) [
    | some block ↦ run ts do expect_lbrace; nodes ← parse_nodes_until_rbrace f; pure (block nodes)
    | none ↦ parse_leaf f name ts
  ]

-- the body of the loop of `parse_page`, where `loop` is the rest of the loop
unfoldable pub page_item :
    ℕ
    → (Option Text → Parser (Option Text × Nodes))
    → Option Text
    → Text
    → Parser (Option Text × Nodes)
unfolding next_string parse_node_after_ident container parse_leaf text_eq
page_item f loop title name =
    if text_eq name (codes "title") then (do s ← next_string; loop (some s)) else do
      node ← parse_node_after_ident f name
      (title', nodes) ← loop title
      pure (title', cons node nodes)

-- the last title, and the nodes from here on
unfoldable pub page_body : ℕ → Option Text → Parser (Option Text × Nodes)
unfolding peek_rbrace next_ident
page_body zero title ts = err out_of_fuel
page_body (suc f) title ts =
    let more = run ts do name ← next_ident; page_item f (page_body f) title name
    in if peek_rbrace ts then ok ((title, nil), ts) else more

unfoldable pub parse_page : ℕ → Parser VoidUiPage
unfolding expect_ident expect_lbrace expect_rbrace expect_eof
parse_page f = do
  expect_ident (codes "page")
  expect_lbrace
  (title, children) ← page_body f none
  expect_rbrace
  expect_eof
  pure (record { title = title; children = children })

unfoldable pub parse_tokens : Tokens → Parsed VoidUiPage
unfolding parse_page
parse_tokens ts = Base.◌>>=◌ (parse_page (suc (length ts)) ts) λ (page, rest). ok page

unfoldable pub parse_void_ui : Text → Parsed VoidUiPage
parse_void_ui source = Base.◌>>=◌ (tokenize source) parse_tokens
