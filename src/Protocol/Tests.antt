-- ===== src/Protocol/Tests.antt =====
-- Runs of the models of core/protocol at fixed inputs, and instances of their theorems.
use voidnet.Protocol.Uri.{VoidUri, is_authority_char, new, from_str, display}
use voidnet.Protocol.Uri.RoundTrip.{IsWellFormed, Spells, from_str-eq_ok_iff, from_str-display_iff}
use voidnet.Protocol.Frame.{
  Bytes, Envelope, ProtocolVersion, StreamClose, Frame, hello, peer_message, route, content_request,
  content_chunk, stream_open, stream_data, stream_close, app_call, ui_document, error,
  max_frame_bytes, v1,
}
use voidnet.Protocol.Frame.Codec.{
  Bincode, IsFaithful, encode_envelope, decode_envelope, decode-encode,
}
use voidnet.Base.{
  ℕ, zero, suc, strip_prefix, split_once, ◌≡◌, ◌↔◌, ◌≤◌, ◌<◌, refl, [], ◌∷◌, List, Text, codes,
  Result, ok, err, Option, some, none, false, contains, length, arith,
}
use voidnet.Protocol.Ui.Syntax.{
  Token, VoidUiPage, ident, string, lbrace, rbrace, unterminated_string, fail, text, button, column,
  nil, cons,
}
use voidnet.Protocol.Ui.Outcome.{Ensures}
use voidnet.Protocol.Ui.Printer.{render, emit_page, ArePrintable}
use voidnet.Protocol.Ui.Lexer.{tokenize, is_ident_start, is_ident_continue}
use voidnet.Protocol.Ui.Lexer.RoundTrip.{tokenize-render}
use voidnet.Protocol.Ui.Parser.Total.{parse_void_ui-Ensures}
use voidnet.Protocol.Ui.RoundTrip.{parse_void_ui-render, parse_void_ui_stable}
use voidnet.Protocol.Ui.Parser.{parse_void_ui, parse_tokens, page_body, page_item}

a_token_of_each_kind :
    tokenize (codes "a-b {\"x\\n\"}")
    ≡ ok (ident (codes "a-b") ∷ lbrace ∷ string (b'x' ∷ 10 ∷ []) ∷ rbrace ∷ [])
unfolding tokenize
a_token_of_each_kind = refl

offset_counts_bytes : tokenize (codes "\"é\" \"") ≡ fail (unterminated_string 5)
unfolding tokenize
offset_counts_bytes = refl

-- the document of the test `parses_minimal_page`
abbrev minimal_source : Text
minimal_source =
    codes
      "page { title \"VOIDNET\" column { text \"A\" button { label \"Connect\" action \"void://core/connect\" } } }"

abbrev connect : VoidUri
connect = record { authority = codes "core"; path = codes "/connect"; query = none }

abbrev the_page : VoidUiPage
the_page = record {
  title = some (codes "VOIDNET");
  children =
      cons (column (cons (text (codes "A")) (cons (button (codes "Connect") connect) nil))) nil;
}

minimal_page : parse_void_ui minimal_source ≡ ok the_page
unfolding parse_void_ui tokenize parse_tokens page_body page_item strip_prefix split_once
    is_authority_char
minimal_page = refl

connect-IsWellFormed : IsWellFormed connect
unfolding is_authority_char
connect-IsWellFormed = record {
  authority_present = refl;
  authority_chars = refl;
  path_rooted = (codes "connect", refl);
}

connect_printable : IsWellFormed connect × (contains connect.path b'?' ≡ false)
connect_printable = (connect-IsWellFormed, refl)

the_page-ArePrintable : ArePrintable the_page.children
unfolding ArePrintable
the_page-ArePrintable = ((tt, (connect_printable, tt)), tt)

parse_void_ui-render_example : parse_void_ui (render (emit_page the_page)) ≡ ok the_page
parse_void_ui-render_example = parse_void_ui-render the_page the_page-ArePrintable

parse_void_ui_stable_example : parse_void_ui (render (emit_page the_page)) ≡ ok the_page
parse_void_ui_stable_example = parse_void_ui_stable minimal_source the_page minimal_page

parse_void_ui-Ensures_example :
    Ensures (λ page. ArePrintable page.children) (parse_void_ui minimal_source)
parse_void_ui-Ensures_example = parse_void_ui-Ensures minimal_source

abbrev two_tokens : List Token
two_tokens = ident (codes "text") ∷ string (codes "a \"b\"") ∷ []

tokenize-render_example : tokenize (render two_tokens) ≡ ok two_tokens
unfolding is_ident_start is_ident_continue
tokenize-render_example = tokenize-render two_tokens ((refl, refl), (tt, tt))

abbrev connect_text : Text
connect_text = codes "void://core/connect"

from_str-eq_ok_iff_example :
    (from_str connect_text ≡ ok connect)
    ↔ (IsWellFormed connect × (contains connect.path b'?' ≡ false) × Spells connect connect_text)
from_str-eq_ok_iff_example = from_str-eq_ok_iff connect_text connect

-- An address that `new` builds with a '?' in its path.
abbrev asking : VoidUri
asking = record { authority = codes "core"; path = codes "/a?b"; query = none }

new-asking : new (codes "core") (codes "a?b") none ≡ ok asking
unfolding new is_authority_char
new-asking = refl

from_str-display_iff_example :
    (from_str (display asking) ≡ ok asking) ↔ (contains asking.path b'?' ≡ false)
from_str-display_iff_example =
    from_str-display_iff (codes "core") (codes "a?b") none asking new-asking

-- A serialiser that writes only the close of a stream without a reason.
abbrev write_close : ProtocolVersion → ℕ → ℕ → Option Text → Result Text Bytes
write_close v id ttl none = ok (v.major ∷ v.minor ∷ id ∷ ttl ∷ [])
write_close v id ttl (some _) = err []

abbrev write_frame : ProtocolVersion → ℕ → ℕ → Frame → Result Text Bytes
write_frame v id ttl (stream_close close) = write_close v id ttl close.reason
write_frame v id ttl _ = err []

abbrev closed : StreamClose
closed = record { reason = none }

abbrev read_frame : Bytes → Result Text Envelope
read_frame (major ∷ minor ∷ id ∷ ttl ∷ []) = ok (record {
  version = record { major = major; minor = minor };
  stream_id = id;
  ttl = ttl;
  frame = stream_close closed;
})
read_frame _ = err []

abbrev small_bincode : Bincode
small_bincode = record {
  serialize = λ e. write_frame e.version e.stream_id e.ttl e.frame;
  deserialize = read_frame;
}

read_frame-write_close :
    (v : ProtocolVersion) (id ttl : ℕ) (o : Option Text) (bytes : Bytes)
    → write_close v id ttl o ≡ ok bytes
    → read_frame bytes
      ≡ ok (record {
        version = v;
        stream_id = id;
        ttl = ttl;
        frame = stream_close (record { reason = o });
      })
read_frame-write_close v id ttl none bytes h = ground arith
read_frame-write_close v id ttl (some _) bytes h = cc

read_frame-write_frame :
    (v : ProtocolVersion) (id ttl : ℕ) (frame : Frame) (bytes : Bytes)
    → write_frame v id ttl frame ≡ ok bytes
    → read_frame bytes ≡ ok (record { version = v; stream_id = id; ttl = ttl; frame = frame })
read_frame-write_frame v id ttl (stream_close close) bytes h =
    read_frame-write_close v id ttl close.reason bytes h
read_frame-write_frame v id ttl (hello _) bytes h = cc
read_frame-write_frame v id ttl (peer_message _) bytes h = cc
read_frame-write_frame v id ttl (route _) bytes h = cc
read_frame-write_frame v id ttl (content_request _) bytes h = cc
read_frame-write_frame v id ttl (content_chunk _) bytes h = cc
read_frame-write_frame v id ttl (stream_open _) bytes h = cc
read_frame-write_frame v id ttl (stream_data _) bytes h = cc
read_frame-write_frame v id ttl (app_call _) bytes h = cc
read_frame-write_frame v id ttl (ui_document _) bytes h = cc
read_frame-write_frame v id ttl (error _) bytes h = cc

small_bincode-IsFaithful : IsFaithful small_bincode
small_bincode-IsFaithful = record {
  reads_back = λ e bytes h. read_frame-write_frame e.version e.stream_id e.ttl e.frame bytes h;
}

abbrev closing : Envelope
closing = record { version = v1; stream_id = 7; ttl = 32; frame = stream_close closed }

abbrev closing_bytes : Bytes
closing_bytes = 1 ∷ 0 ∷ 7 ∷ 32 ∷ []

encode-closing : encode_envelope small_bincode closing ≡ ok closing_bytes
unfolding encode_envelope
encode-closing = refl

decode-encode_example :
    (length closing_bytes ≤ max_frame_bytes)
    × (decode_envelope small_bincode closing_bytes ≡ ok closing)
decode-encode_example =
    decode-encode small_bincode closing closing_bytes small_bincode-IsFaithful encode-closing

-- A serialiser that always writes too much.
unfoldable zeros : ℕ → Bytes
zeros zero = []
zeros (suc n) = 0 ∷ zeros n

length-zeros : (n : ℕ) → length (zeros n) ≡ n
unfolding zeros
length-zeros zero = refl
length-zeros (suc n) = omega (arith, length-zeros n)

abbrev flood : Bytes
flood = zeros 1048577

abbrev flooding : Bincode
flooding = record { serialize = λ e. ok flood; deserialize = λ bytes. err [] }

flood_is_big : max_frame_bytes < length flood
flood_is_big = omega (arith, length-zeros 1048577)
