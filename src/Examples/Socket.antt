-- ===== src/Examples/Socket.antt =====
-- Tests and examples for Server/Socket.
use mongowire.Base.{
  some, ℤ, ℕ, err, ◌⊎◌, ◌≡◌, ◌%◌, ◌^◌, refl, true, none, [], ◌∷◌, ◌++◌, Bytes, length, ok, pos,
  arith, position_nul, contains_nul, is_utf8, codes, to_le, from_le,
}
use mongowire.Examples.{null_document, all_bytes-AreBytes}
use mongowire.Bson.{RawDocument, as_scalar, tag}
use mongowire.Bson.Encode.{
  encode, encode_document, encode_composite, encode_fields, field_head, encode_plain, encode_value,
  patch_len,
}
use mongowire.Scalar.Encode.{encode_scalar, encode_string}
use mongowire.Wire.Sections.{take_document, sections_new}
use mongowire.Bson.Raw.{from_bytes, command as command_of}
use mongowire.Io.{put_cstring, placeholder_i32, put_i32_le_at, read_i32_le, read_bytes, i32_from_le}
use mongowire.Wire.{Opcode, from_i32}
use mongowire.Wire.Header.{Header, parse}
use mongowire.Wire.Msg.{OpMsg}
use mongowire.Wire.Msg
use mongowire.Wire.Body.{MessageBody, opcode, parse_body}
use mongowire.Wire.Framing.{encode_message, parse_message}
use mongowire.Server.{
  Error, command, ConnectionInfo, Command, CommandHandler, Reply, no_reply, next_request_id,
}
use mongowire.Server
use mongowire.Server.Socket.{
  error_reply, Surroundings, handle_frame, send_reply, next, process, waiting, closed, codec_decode,
  new_header,
}
use mongowire.Server.Socket.Replies.{IsAnswer, handle_frame-IsAnswer}
use mongowire.Server.Socket.Silent.{request_of, more_to_come_silent}
use mongowire.Bson
use mongowire.Server.Socket.Pieces.{process-pieces}
use mongowire.Bson.Encode.Written.{framed, fields_bytes}
use mongowire.Server.Socket.Errors.{error_fields, reply_shape, error_reply_shape}
use mongowire.Server.Socket.Ends.{HasEnded, process-HasEnded}
use mongowire.Server.Socket.Total.{IsTotal}

abbrev null_message : ℕ → OpMsg
null_message bits = record {
  flags = record { bits = bits };
  sections = record { body = null_document; sequences = [] };
  checksum = none;
}

-- A handler that sends a document back.
abbrev echo : CommandHandler
echo ctx request = (ok (Reply.msg (null_message 0)), ctx)

abbrev here : Surroundings
here = record {
  crc = λ bs. length bs % 2 ^ 32;
  backends = record { for_snappy = none; for_zlib = none; for_zstd = none };
  config = record { max_msg_len = pos 48000000; checksum = true; compressors = [] };
  handler = echo;
  now = pos 0;
}

abbrev header : Header
header = record {
  message_length = pos 29;
  request_id = pos 9;
  response_to = pos 0;
  op_code = Opcode.msg;
}

abbrev answered : Bytes
answered =
    (encode_message here.crc (new_header (pos 0) (pos 9) Opcode.msg)
      (MessageBody.msg (null_message 0)) true []).2

answered_step :
    handle_frame here Server.new header (MessageBody.msg (null_message 0))
    ≡ next (next_request_id Server.new).1 answered
unfolding handle_frame send_reply command_of position_nul is_utf8 encode_message new_header
    Server.new opcode
answered_step = refl

handle_frame-IsAnswer_example : IsAnswer here (pos 9) answered
handle_frame-IsAnswer_example =
    handle_frame-IsAnswer here Server.new (next_request_id Server.new).1 header answered
      (MessageBody.msg (null_message 0)) answered_step

-- A handler that refuses every command.
abbrev refuse : CommandHandler
refuse ctx request = (err (command (pos 59) (codes "CommandNotFound") []), ctx)

abbrev refusing : Surroundings
refusing = record here { handler = refuse }

-- A request with `moreToCome`, and the first byte of another.
abbrev silent_bytes : Bytes
silent_bytes =
    29 ∷ 0 ∷ 0 ∷ 0 ∷ 9 ∷ 0 ∷ 0 ∷ 0 ∷ 0 ∷ 0 ∷ 0 ∷ 0 ∷ 221 ∷ 7 ∷ 0 ∷ 0 ∷ 2 ∷ 0 ∷ 0 ∷ 0 ∷ 0 ∷ 8 ∷ 0 ∷ 0
    ∷ 0 ∷ 10 ∷ 97 ∷ 0 ∷ 0 ∷ 29 ∷ []

silent_read :
    codec_decode refusing.crc refusing.config silent_bytes
    ≡ (ok (some (header, MessageBody.msg (null_message 2))), 29 ∷ [])
unfolding codec_decode parse_message parse read_i32_le read_bytes i32_from_le from_le from_i32
    parse_body take_document from_bytes
silent_read = refl

more_to_come_silent_example :
    ((name : Bytes) × (command_of null_document ≡ ok name)
      × (process refusing 5 Server.new silent_bytes (7 ∷ [])
          ≡ process refusing 4
              (refusing.handler Server.new (request_of (null_message 2) name)).1
              (29 ∷ [])
              (7 ∷ [])))
    ⊎ ((e : Bson.Error) × (command_of null_document ≡ err e)
        × (process refusing 5 Server.new silent_bytes (7 ∷ []) ≡ closed (7 ∷ [])))
more_to_come_silent_example =
    more_to_come_silent refusing 4 Server.new silent_bytes (29 ∷ []) (7 ∷ []) header
      (null_message 2) silent_read refl

-- A whole request with the id 9, and the first bytes of another.
abbrev first_bytes : Bytes
first_bytes =
    29 ∷ 0 ∷ 0 ∷ 0 ∷ 9 ∷ 0 ∷ 0 ∷ 0 ∷ 0 ∷ 0 ∷ 0 ∷ 0 ∷ 221 ∷ 7 ∷ 0 ∷ 0 ∷ 0 ∷ 0 ∷ 0 ∷ 0 ∷ 0 ∷ 8 ∷ 0 ∷ 0
    ∷ 0 ∷ 10 ∷ 97 ∷ 0 ∷ 0 ∷ 29 ∷ 0 ∷ []

abbrev second_bytes : Bytes
second_bytes = 0 ∷ 0 ∷ 9 ∷ 0 ∷ 0 ∷ []

still_waiting :
    process here 32 Server.new first_bytes []
    ≡ waiting (next_request_id Server.new).1 (29 ∷ 0 ∷ []) answered
unfolding process parse_message parse read_i32_le read_bytes i32_from_le from_le from_i32 parse_body
    take_document from_bytes command_of position_nul is_utf8 send_reply Server.new encode_message
    opcode
still_waiting = refl

here-IsTotal : IsTotal here
here-IsTotal = record {
  handler_returns = λ ctx r p. cc;
  back_ends_return = record { snappy_ends = tt; zlib_ends = tt; zstd_ends = tt };
}

process-HasEnded_example : HasEnded here (process here 40 Server.new first_bytes [])
process-HasEnded_example =
    process-HasEnded here 40 Server.new first_bytes [] here-IsTotal
      (all_bytes-AreBytes first_bytes refl) (omega arith)

process-pieces_example :
    process here 37 Server.new (first_bytes ++ second_bytes) []
    ≡ process here 8 (next_request_id Server.new).1 ((29 ∷ 0 ∷ []) ++ second_bytes) answered
process-pieces_example =
    process-pieces here 32 37 8 Server.new (next_request_id Server.new).1 first_bytes second_bytes
      [] (29 ∷ 0 ∷ []) answered still_waiting (omega arith) (omega arith)

abbrev no_such : Error
no_such = command (pos 59) (codes "CommandNotFound") (codes "no such command")

abbrev error_document : RawDocument
error_document = record {
  bytes =
      framed
        (fields_bytes (error_fields (pos 59) (codes "CommandNotFound") (codes "no such command")));
}

abbrev request_body : MessageBody
request_body = MessageBody.msg (null_message 0)

error_replied : error_reply no_such request_body ≡ some (reply_shape request_body error_document)
unfolding error_reply fields_bytes encode encode_document encode_composite encode_fields field_head
    put_cstring contains_nul encode_plain as_scalar encode_scalar encode_string placeholder_i32
    to_le from_bytes put_i32_le_at from_le Msg.new tag encode_value patch_len sections_new
error_replied = refl

error_reply_shape_example :
    (code : ℤ) × (code_name : Bytes) × (message : Bytes) × (raw : RawDocument) × (no_such
      ≡ command code code_name message)
    × (raw.bytes ≡ framed (fields_bytes (error_fields code code_name message)))
    × (reply_shape request_body error_document ≡ reply_shape request_body raw)
error_reply_shape_example =
    error_reply_shape no_such request_body (reply_shape request_body error_document) error_replied
