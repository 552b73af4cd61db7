-- ===== src/Protocol/Frame/Codec.antt =====
-- `encode_envelope` and `decode_envelope` of core/protocol/src/lib.rs, over the serialiser that
-- the crate bincode provides.
use voidnet.Base.{
  ℕ, ◌≡◌, ◌≤◌, ◌<◌, Text, Result, ok, err, map_err, ◌>>=◌, ltb, if◌then◌else◌, length, arith,
}
use voidnet.Protocol.Frame.{Bytes, Envelope, max_frame_bytes}

-- `bincode::serialize` and `bincode::deserialize`; an error is opaque.
pub record Bincode : Type 0 where
  pub serialize : Envelope → Result Text Bytes
  pub deserialize : Bytes → Result Text Envelope

-- What the crate documents: a value that was serialised is read back.
pub record IsFaithful (b : Bincode) : Type 0 where
  pub reads_back :
      (e : Envelope) (bytes : Bytes) → b.serialize e ≡ ok bytes → b.deserialize bytes ≡ ok e

pub data ProtocolCodecError : Type 0 where
  frame_too_large : ℕ → ℕ → ProtocolCodecError
  codec : Text → ProtocolCodecError

module _ (b : Bincode) where
  unfoldable pub encode_envelope : Envelope → Result ProtocolCodecError Bytes
  encode_envelope e = do
    bytes ← map_err codec (b.serialize e)
    if ltb max_frame_bytes (length bytes)
        then err (frame_too_large (length bytes) max_frame_bytes)
        else ok bytes

  unfoldable pub decode_envelope : Bytes → Result ProtocolCodecError Envelope
  decode_envelope bytes =
      if ltb max_frame_bytes (length bytes)
      then err (frame_too_large (length bytes) max_frame_bytes)
      else map_err codec (b.deserialize bytes)

  -- An envelope that was encoded fits the limit and decodes to itself, if the serialiser reads
  -- back what it writes.
  pub decode-encode :
      (e : Envelope) (bytes : Bytes)
      → IsFaithful b
      → encode_envelope e ≡ ok bytes
      → (length bytes ≤ max_frame_bytes) × (decode_envelope bytes ≡ ok e)
  unfolding encode_envelope decode_envelope
  decode-encode e bytes f h = ground (arith, f.reads_back e bytes)

  -- Both directions refuse a frame above the limit with its size, whatever the serialiser does
  -- with it.
  pub oversized_refused :
      (e : Envelope) (bytes : Bytes)
      → max_frame_bytes < length bytes
      → b.serialize e ≡ ok bytes
      → (encode_envelope e ≡ err (frame_too_large (length bytes) max_frame_bytes))
        × (decode_envelope bytes ≡ err (frame_too_large (length bytes) max_frame_bytes))
  unfolding encode_envelope decode_envelope
  oversized_refused e bytes big h = ground arith
