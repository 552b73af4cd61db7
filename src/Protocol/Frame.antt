-- ===== src/Protocol/Frame.antt =====
-- The envelope and the frames of core/protocol/src/lib.rs, and their size limit. Machine integers
-- are natural numbers here: nothing in this part computes with them.
pub mod Codec
use voidnet.Base.{ℕ, ◌*◌, Bool, Option, List, Text, ◌&&◌, ◌==◌}
use voidnet.Protocol.Uri.{VoidUri}

abbrev pub Bytes : Type 0
Bytes = List ℕ

abbrev pub max_frame_bytes : ℕ
max_frame_bytes = 1024 * 1024

pub record ProtocolVersion : Type 0 where
  pub major : ℕ
  pub minor : ℕ

abbrev pub v1 : ProtocolVersion
v1 = record { major = 1; minor = 0 }

pub data MessageKind : Type 0 where
  direct system : MessageKind
  room : Text → MessageKind

pub data ContentType : Type 0 where
  binary text json void_ui : ContentType

pub data StreamMode : Type 0 where
  request subscribe duplex : StreamMode

pub record HelloFrame : Type 0 where
  pub peer_id : Text
  pub agent : Text
  pub supported_versions : List ProtocolVersion

pub record PeerMessage : Type 0 where
  pub from : Text
  pub to : Text
  pub kind : MessageKind
  pub content_type : ContentType
  pub payload : Bytes

pub record RouteFrame : Type 0 where
  pub destination : Text
  pub next_hop : Option Text
  pub path : List Text

pub record ContentRequest : Type 0 where
  pub uri : VoidUri
  pub accept : List ContentType

pub record ContentChunk : Type 0 where
  pub uri : VoidUri
  pub sequence : ℕ
  pub final_chunk : Bool
  pub bytes : Bytes

pub record StreamOpen : Type 0 where
  pub uri : VoidUri
  pub mode : StreamMode

pub record StreamData : Type 0 where
  pub sequence : ℕ
  pub bytes : Bytes
  pub final_chunk : Bool

pub record StreamClose : Type 0 where
  pub reason : Option Text

pub record AppCall : Type 0 where
  pub uri : VoidUri
  pub method : Text
  pub payload : Bytes

pub record UiDocument : Type 0 where
  pub uri : VoidUri
  pub source : Text

pub record ProtocolErrorFrame : Type 0 where
  pub code : ℕ
  pub message : Text

pub data Frame : Type 0 where
  hello : HelloFrame → Frame
  peer_message : PeerMessage → Frame
  route : RouteFrame → Frame
  content_request : ContentRequest → Frame
  content_chunk : ContentChunk → Frame
  stream_open : StreamOpen → Frame
  stream_data : StreamData → Frame
  stream_close : StreamClose → Frame
  app_call : AppCall → Frame
  ui_document : UiDocument → Frame
  error : ProtocolErrorFrame → Frame

pub record Envelope : Type 0 where
  pub version : ProtocolVersion
  pub stream_id : ℕ
  pub ttl : ℕ
  pub frame : Frame

-- `Envelope::new`
unfoldable pub envelope : ℕ → Frame → Envelope
envelope stream_id frame = record { version = v1; stream_id = stream_id; ttl = 32; frame = frame }
