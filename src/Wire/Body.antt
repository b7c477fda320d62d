-- ===== src/Wire/Body.antt =====
-- mongowire/src/messages/mod.rs: a body tagged by its opcode; and `unwrap_body` of
-- messages/op_compressed.rs, which parses the wrapped body.
pub mod Laws
pub mod Ends
use mongowire.Base.{
  ℕ, Bool, not, true, false, [], Bytes, ℤ, pos, ltb_ℤ, as_usize, if◌then◌else◌, Result, ok, err,
  map_ok, ◌>>=◌, ◌>>◌, guard,
}
use mongowire.Wire.{
  ProtocolError, Opcode, to_i32, unsupported_opcode, invalid_op_msg, message_too_large,
}
use mongowire.Wire.Msg.{OpMsg}
use mongowire.Wire.Msg
use mongowire.Wire.Query.{OpQuery}
use mongowire.Wire.Query
use mongowire.Wire.Reply.{OpReply}
use mongowire.Wire.Reply
use mongowire.Wire.Compressed.{OpCompressed, Compressors, decompress}
use mongowire.Wire.Compressed

pub data MessageBody : Type 0 where
  msg : OpMsg → MessageBody
  query : OpQuery → MessageBody
  reply : OpReply → MessageBody
  compressed : OpCompressed → MessageBody

unfoldable pub opcode : MessageBody → Opcode
opcode (MessageBody.msg m) = Opcode.msg
opcode (MessageBody.query q) = Opcode.query
opcode (MessageBody.reply p) = Opcode.reply
opcode (MessageBody.compressed c) = Opcode.compressed

unfoldable pub body_len : MessageBody → ℕ
unfolding Msg.body_len Query.body_len Reply.body_len Compressed.body_len
body_len (MessageBody.msg m) = Msg.body_len m
body_len (MessageBody.query q) = Query.body_len q
body_len (MessageBody.reply p) = Reply.body_len p
body_len (MessageBody.compressed c) = Compressed.body_len c

unfoldable pub encode_body : MessageBody → Bytes → Bytes
unfolding Msg.encode_body Query.encode_body Reply.encode_body Compressed.encode_body
encode_body (MessageBody.msg m) out = Msg.encode_body m out
encode_body (MessageBody.query q) out = Query.encode_body q out
encode_body (MessageBody.reply p) out = Reply.encode_body p out
encode_body (MessageBody.compressed c) out = Compressed.encode_body c out

unfoldable pub parse_body : Opcode → Bytes → Result ProtocolError MessageBody
unfolding Msg.parse_body Query.parse_body Reply.parse_body Compressed.parse_body
parse_body Opcode.msg body = map_ok MessageBody.msg (Msg.parse_body body)
parse_body Opcode.query body = map_ok MessageBody.query (Query.parse_body body)
parse_body Opcode.reply body = map_ok MessageBody.reply (Reply.parse_body body)
parse_body Opcode.compressed body = map_ok MessageBody.compressed (Compressed.parse_body body)
parse_body o body = err (unsupported_opcode (to_i32 o))

unfoldable pub is_compressed : Opcode → Bool
is_compressed Opcode.compressed = true
is_compressed _ = false

unfoldable pub unwrap_body : Compressors → OpCompressed → ℤ → Result ProtocolError MessageBody
unfolding parse_body decompress is_compressed
unwrap_body c m max_msg_len = do
  guard (not (ltb_ℤ m.uncompressed_size (pos 0))) (invalid_op_msg "negative uncompressedSize")
  guard (not (is_compressed m.original_opcode)) (invalid_op_msg "nested OP_COMPRESSED")
  guard (not (ltb_ℤ max_msg_len m.uncompressed_size))
      (message_too_large m.uncompressed_size max_msg_len)
  decompressed ← decompress c m.compressor_id m.compressed_message (as_usize m.uncompressed_size)
  parse_body m.original_opcode decompressed
