-- ===== src/Examples/Frames.antt =====
-- Runs of the framing: whole frames, without and with a checksum, and an incomplete one.
use mongowire.Base.{
  ◌%◌, ◌^◌, true, ℕ, ◌%◌, ◌<◌, ◌≤◌, ◌≡◌, refl, false, none, some, [], ◌∷◌, ◌++◌, Bytes, pos, negsuc,
  as_usize, length, take, drop, ok, to_le, from_le, arith, ◌⊎◌,
}
use mongowire.Io.{read_i32_le, read_bytes, i32_from_le, put_u8, put_bytes, put_u32_le}
use mongowire.Bson.Raw.{from_bytes}
use mongowire.Wire.{from_i32, Opcode, to_i32}
use mongowire.Wire.Header.{Header, parse, encode, parse-encode}
use mongowire.Wire.Sections.{take_document, sections_new, documents_len, sequences_size, size}
use mongowire.Wire.Msg.{OpMsg, put_documents, put_sequences}
use mongowire.Wire.Msg as Msg
use mongowire.Wire.Msg.Reencode.{IsOpMsg}
use mongowire.Wire.Body.{MessageBody, body_len, encode_body, parse_body, opcode}
use mongowire.Wire.Framing.{claims_checksum, parse_message, encode_message, check_frame}
use mongowire.Wire.Framing.Laws.{parse_message-crc, parse_message-some, parse_message-none}
use mongowire.Wire.Framing.Summed.{parse_message-encode_message_summed, with_checksum, summed_bytes}
use mongowire.Wire.Framing.RoundTrip.{parse_message-encode_message}
use mongowire.Examples.{empty_document}
use mongowire.Examples.Wire.{a_message, a_message-IsOpMsg, a_message-IsSmall, a_body, empty-IsRaw}

-- A checksum function for the runs: the length of its input.
abbrev a_crc : Bytes → ℕ
a_crc b = length b

abbrev a_header : Header
a_header = record {
  message_length = pos 41;
  request_id = pos 7;
  response_to = negsuc 0;
  op_code = Opcode.msg;
}

parse-encode_example : parse (encode a_header [] ++ 1 ∷ 2 ∷ []) (pos 48000000) ≡ ok a_header
parse-encode_example =
    parse-encode a_header (1 ∷ 2 ∷ []) (pos 48000000)
      (refl, refl, refl, omega arith, omega arith, omega arith)

abbrev a_frame : Bytes
a_frame = 41 ∷ 0 ∷ 0 ∷ 0 ∷ 7 ∷ 0 ∷ 0 ∷ 0 ∷ 255 ∷ 255 ∷ 255 ∷ 255 ∷ 221 ∷ 7 ∷ 0 ∷ 0 ∷ a_body

a_frame_written :
    encode_message a_crc
      (record a_header { message_length = pos 0 })
      (MessageBody.msg a_message)
      false
      []
    ≡ (ok tt, a_header, a_frame)
unfolding encode_message body_len encode_body encode Msg.body_len Msg.encode_body sequences_size
    size documents_len put_bytes put_u8 put_u32_le to_le to_i32
a_frame_written = refl

a_frame_read :
    parse_message a_crc (a_frame ++ 1 ∷ 2 ∷ []) (pos 48000000)
    ≡ (ok (some (a_header, MessageBody.msg a_message)), 1 ∷ 2 ∷ [])
unfolding opcode
a_frame_read =
    parse_message-encode_message a_crc (record a_header { message_length = pos 0 }) a_header
      (MessageBody.msg a_message) a_frame (1 ∷ 2 ∷ []) (pos 48000000) a_frame_written
      (a_message-IsOpMsg, a_message-IsSmall, refl) refl (omega arith) (omega arith) refl

parse_message-encode_message_example :
    parse_message a_crc (a_frame ++ 1 ∷ 2 ∷ []) (pos 48000000)
    ≡ (ok (some (a_header, MessageBody.msg a_message)), 1 ∷ 2 ∷ [])
unfolding opcode
parse_message-encode_message_example =
    parse_message-encode_message a_crc (record a_header { message_length = pos 0 }) a_header
      (MessageBody.msg a_message) a_frame (1 ∷ 2 ∷ []) (pos 48000000) a_frame_written
      (a_message-IsOpMsg, a_message-IsSmall, refl) refl (omega arith) (omega arith) refl

parse_message-some_example :
    (parse (take 16 (a_frame ++ 1 ∷ 2 ∷ [])) (pos 48000000) ≡ ok a_header)
    × (16 ≤ 41)
    × (41 ≤ length (a_frame ++ 1 ∷ 2 ∷ []))
    × (check_frame a_crc Opcode.msg (take 41 (a_frame ++ 1 ∷ 2 ∷ [])) 41 ≡ ok tt)
    × (parse_body Opcode.msg (drop 16 (take 41 (a_frame ++ 1 ∷ 2 ∷ [])))
        ≡ ok (MessageBody.msg a_message))
    × (1 ∷ 2 ∷ [] ≡ drop 41 (a_frame ++ 1 ∷ 2 ∷ []))
parse_message-some_example =
    parse_message-some a_crc (a_frame ++ 1 ∷ 2 ∷ []) (1 ∷ 2 ∷ []) (pos 48000000) a_header
      (MessageBody.msg a_message) a_frame_read

-- Three bytes of a header.
abbrev a_start : Bytes
a_start = 41 ∷ 0 ∷ 0 ∷ []

short_frame : parse_message a_crc a_start (pos 48000000) ≡ (ok none, a_start)
unfolding parse_message
short_frame = refl

parse_message-none_example :
    (a_start ≡ a_start)
    × ((3 < 16)
        ⊎ ((h : Header) × (parse (take 16 a_start) (pos 48000000) ≡ ok h)
            × (3 < as_usize h.message_length)))
parse_message-none_example = parse_message-none a_crc a_start a_start (pos 48000000) short_frame

-- An empty document under the checksum flag: the trailer is the length of the 26 bytes before it.
abbrev summed_frame : Bytes
summed_frame =
    30 ∷ 0 ∷ 0 ∷ 0 ∷ 7 ∷ 0 ∷ 0 ∷ 0 ∷ 0 ∷ 0 ∷ 0 ∷ 0 ∷ 221 ∷ 7 ∷ 0 ∷ 0 ∷ 1 ∷ 0 ∷ 0 ∷ 0 ∷ 0 ∷ 5 ∷ 0 ∷ 0
    ∷ 0 ∷ 0 ∷ 26 ∷ 0 ∷ 0 ∷ 0 ∷ []

abbrev summed_header : Header
summed_header = record {
  message_length = pos 30;
  request_id = pos 7;
  response_to = pos 0;
  op_code = Opcode.msg;
}

abbrev summed_message : OpMsg
summed_message = record {
  flags = record { bits = 1 };
  sections = record { body = empty_document; sequences = [] };
  checksum = some 26;
}

summed_frame_read :
    parse_message a_crc summed_frame (pos 48000000)
    ≡ (ok (some (summed_header, MessageBody.msg summed_message)), [])
unfolding parse_message parse from_i32 read_i32_le read_bytes i32_from_le from_le parse_body
    Msg.parse_body sections_new take_document from_bytes
summed_frame_read = refl

summed_claims : claims_checksum (take 30 summed_frame) ≡ true
unfolding from_le
summed_claims = refl

parse_message-crc_example :
    (26 ≤ 30) × (a_crc (take 26 (take 30 summed_frame)) ≡ from_le (drop 26 (take 30 summed_frame)))
parse_message-crc_example =
    parse_message-crc a_crc summed_frame [] (pos 48000000) summed_header
      (MessageBody.msg summed_message) 30 summed_frame_read refl refl (omega arith) summed_claims

abbrev bare_message : OpMsg
bare_message = record {
  flags = record { bits = 0 };
  sections = record { body = empty_document; sequences = [] };
  checksum = none;
}

bare_message-IsOpMsg : IsOpMsg bare_message
unfolding sections_new
bare_message-IsOpMsg = (omega arith, refl, empty-IsRaw, tt, refl)

-- A checksum function that gives 32-bit words.
abbrev small_crc : Bytes → ℕ
small_crc b = length b % 4294967296

small_crc-lt : (b : Bytes) → small_crc b < 2 ^ 32
small_crc-lt b = omega arith

summed_written :
    encode_message small_crc
      (record summed_header { message_length = pos 0 })
      (MessageBody.msg bare_message)
      true
      []
    ≡ (ok tt, summed_header, summed_frame)
unfolding encode_message body_len encode_body encode Msg.body_len Msg.encode_body sequences_size
    size documents_len put_bytes put_u8 put_u32_le to_le to_i32 from_le
summed_written = refl

parse_message-encode_message_summed_example :
    (c : ℕ) × (parse_message small_crc (summed_frame ++ 1 ∷ 2 ∷ []) (pos 48000000)
      ≡ (ok (some (summed_header, MessageBody.msg (with_checksum bare_message c))), 1 ∷ 2 ∷ []))
    × (summed_frame ≡ summed_bytes summed_header bare_message ++ to_le 4 c)
    × (c ≡ small_crc (summed_bytes summed_header bare_message))
parse_message-encode_message_summed_example =
    parse_message-encode_message_summed small_crc (record summed_header { message_length = pos 0 })
      summed_header bare_message summed_frame (1 ∷ 2 ∷ []) (pos 48000000) small_crc-lt
      summed_written bare_message-IsOpMsg (omega arith, tt) refl refl (omega arith) (omega arith)
      refl
