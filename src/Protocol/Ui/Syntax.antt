-- ===== src/Protocol/Ui/Syntax.antt =====
-- The pages, tokens and errors of core/protocol/src/ui.rs.
use voidnet.Base.{ℕ, Bool, Option, Text, Result, err}
use voidnet.Protocol.Uri.{VoidUri, ParseVoidUriError}

-- `Nodes` is `Vec<VoidUiNode>`.
mutual
  pub data VoidUiNode : Type 0 where
    column row panel list item : Nodes → VoidUiNode
    text : Text → VoidUiNode
    button : Text → VoidUri → VoidUiNode
    input : Text → Option Text → Bool → VoidUiNode

  pub data Nodes : Type 0 where
    nil : Nodes
    cons : VoidUiNode → Nodes → Nodes

pub record VoidUiPage : Type 0 where
  pub title : Option Text
  pub children : Nodes

pub data Token : Type 0 where
  ident string : Text → Token
  lbrace rbrace : Token

-- `unexpected_token` keeps the token that the source formats with `{:?}`.
pub data VoidUiParseError : Type 0 where
  unexpected_char : ℕ → ℕ → VoidUiParseError
  unterminated_string : ℕ → VoidUiParseError
  invalid_escape : ℕ → ℕ → VoidUiParseError
  unexpected_eof : VoidUiParseError
  unexpected_token : Token → VoidUiParseError
  expected_ident : Text → Text → VoidUiParseError
  unknown_node unknown_property missing_property invalid_bool : Text → VoidUiParseError
  invalid_action : ParseVoidUriError → VoidUiParseError

-- `out_of_fuel` has no counterpart in the program.
pub data Failure : Type 0 where
  parse_error : VoidUiParseError → Failure
  out_of_fuel : Failure

abbrev pub Parsed {ℓ} : Type ℓ → Type ℓ
Parsed A = Result Failure A

abbrev pub fail {ℓ} : {A : Type ℓ} → VoidUiParseError → Parsed A
fail e = err (parse_error e)
