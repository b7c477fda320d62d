-- ===== src/Examples/Wire.antt =====
-- Runs of the wire protocol: each body and the wrapper.
use mongowire.Base.{
  ℕ, ==_refl, ◌==◌, if◌then◌else◌, Result, err, ◌+◌, ◌≡◌, ◌≢◌, refl, false, none, some, [], ◌∷◌,
  ◌++◌, Bytes, pos, negsuc, ltb_ℤ, length, take, drop, ok, stuck, is_utf8, contains_nul, mem,
  bytes_eq, to_le, from_le, arith, ap, ◌∙◌, map_ok,
}
use mongowire.Io.{put_u8, put_bytes, put_u32_le}
use mongowire.Bson.Raw.{IsRaw}
use mongowire.Bson.Names.{field_names}
use mongowire.Bson.Scan.{scanner_new, next}
use mongowire.Wire.{Opcode, noop, zlib, ProtocolError, compression}
use mongowire.Wire.Sections.{
  DocumentSequence, sections_new, check_identifiers, known_bits, documents_len,
}
use mongowire.Wire.Msg.{OpMsg, put_documents, put_sequences}
use mongowire.Wire.Msg as Msg
use mongowire.Wire.Msg.Reencode.{IsOpMsg, encode_body-parse_body, parse_body-IsOpMsg}
use mongowire.Wire.Msg.RoundTrip.{IsSmall, parse_body-encode_body_msg}
use mongowire.Wire.Msg.Ends.{parse_body-ne-stuck}
use mongowire.Wire.Query.{OpQuery}
use mongowire.Wire.Query as Query
use mongowire.Wire.Query.Laws.{IsQuery, parse_body-encode_body_query}
use mongowire.Wire.Reply.{OpReply}
use mongowire.Wire.Reply as Reply
use mongowire.Wire.Compressed.{
  OpCompressed, Compressors, Backend, compress, decompress, decompress_arm, wrap, noop_compress,
}
use mongowire.Wire.Compressed as Compressed
use mongowire.Wire.Compressed.Laws.{parse_body-encode_body_compressed, AreInverse, Unpacks}
use mongowire.Wire.Body.{MessageBody, body_len, encode_body, parse_body, unwrap_body}
use mongowire.Wire.Body.Laws.{encode_body-append, unwrap_body-ok, unwrap_body-wrap}
use mongowire.Examples.{empty_document, all_bytes-AreBytes}

-- A message with the sequence "docs" of one document, and `moreToCome`.
abbrev docs : DocumentSequence
docs = record { identifier = 100 ∷ 111 ∷ 99 ∷ 115 ∷ []; documents = empty_document ∷ [] }

abbrev pub a_message : OpMsg
a_message = record {
  flags = record { bits = 2 };
  sections = record { body = empty_document; sequences = docs ∷ [] };
  checksum = none;
}

pub empty-IsRaw : IsRaw empty_document.bytes
unfolding from_le
empty-IsRaw = (omega arith, refl, refl)

pub a_message-IsOpMsg : IsOpMsg a_message
unfolding is_utf8 contains_nul sections_new check_identifiers mem bytes_eq documents_len field_names
    scanner_new next
a_message-IsOpMsg = (
  omega arith,
  refl,
  empty-IsRaw,
  ((refl, refl, (empty-IsRaw, tt), omega arith, omega arith), tt),
  refl,
)

pub a_message-IsSmall : IsSmall a_message
unfolding documents_len
a_message-IsSmall = (omega arith, (omega arith, tt))

parse_body-encode_body_msg_example : Msg.parse_body (Msg.encode_body a_message []) ≡ ok a_message
parse_body-encode_body_msg_example =
    parse_body-encode_body_msg a_message a_message-IsOpMsg a_message-IsSmall

abbrev pub a_body : Bytes
a_body =
    2 ∷ 0 ∷ 0 ∷ 0 ∷ 0 ∷ 5 ∷ 0 ∷ 0 ∷ 0 ∷ 0 ∷ 1 ∷ 14 ∷ 0 ∷ 0 ∷ 0 ∷ 100 ∷ 111 ∷ 99 ∷ 115 ∷ 0 ∷ 5 ∷ 0
    ∷ 0 ∷ 0 ∷ 0 ∷ []

a_body_written : Msg.encode_body a_message [] ≡ a_body
unfolding Msg.encode_body put_u32_le put_u8 put_bytes to_le
a_body_written = refl

a_body_read : Msg.parse_body a_body ≡ ok a_message
a_body_read =
    rw a_body_written at (parse_body-encode_body_msg a_message a_message-IsOpMsg a_message-IsSmall)

encode_body-parse_body_example :
    (Msg.encode_body a_message [] ≡ to_le 4 (known_bits (from_le (take 4 a_body))) ++ drop 4 a_body)
    × (Msg.body_len a_message ≡ length a_body)
encode_body-parse_body_example =
    encode_body-parse_body a_body a_message (all_bytes-AreBytes a_body refl) a_body_read

parse_body-IsOpMsg_example : IsOpMsg a_message
parse_body-IsOpMsg_example =
    parse_body-IsOpMsg a_body a_message (all_bytes-AreBytes a_body refl) a_body_read

parse_body-ne-stuck_example : Msg.parse_body a_body ≢ stuck
parse_body-ne-stuck_example = parse_body-ne-stuck a_body (all_bytes-AreBytes a_body refl)

abbrev a_query : OpQuery
a_query = record {
  flags = record { bits = 4 };
  full_collection_name = 97 ∷ 46 ∷ 36 ∷ 99 ∷ [];
  number_to_skip = pos 0;
  number_to_return = negsuc 0;
  query = empty_document;
  return_fields_selector = some empty_document;
}

a_query-IsQuery : IsQuery a_query
unfolding is_utf8 contains_nul
a_query-IsQuery = (
  omega arith,
  (λ p. cc),
  refl,
  refl,
  omega arith,
  omega arith,
  empty-IsRaw,
  omega arith,
  (empty-IsRaw, omega arith),
)

parse_body-encode_body_query_example : Query.parse_body (Query.encode_body a_query []) ≡ ok a_query
parse_body-encode_body_query_example = parse_body-encode_body_query a_query a_query-IsQuery

abbrev a_reply : OpReply
a_reply = record {
  response_flags = record { bits = 8 };
  cursor_id = negsuc 4;
  starting_from = pos 0;
  number_returned = pos 1;
  documents = empty_document ∷ [];
}

abbrev a_wrapper : OpCompressed
a_wrapper = record {
  original_opcode = Opcode.msg;
  uncompressed_size = pos 25;
  compressor_id = noop;
  compressed_message = a_body;
}

parse_body-encode_body_compressed_example :
    Compressed.parse_body (Compressed.encode_body a_wrapper []) ≡ ok a_wrapper
parse_body-encode_body_compressed_example =
    parse_body-encode_body_compressed a_wrapper (omega arith, refl)

encode_body-append_example :
    (encode_body (MessageBody.msg a_message) (1 ∷ [])
      ≡ (1 ∷ []) ++ encode_body (MessageBody.msg a_message) [])
    × (length (encode_body (MessageBody.msg a_message) (1 ∷ []))
        ≡ 1 + body_len (MessageBody.msg a_message))
encode_body-append_example = encode_body-append (MessageBody.msg a_message) (1 ∷ [])

-- The bytes behind the mark.
abbrev unmark : ℕ → Bytes → Result ProtocolError Bytes
unmark mark [] = err (compression "no mark")
unmark mark (b ∷ bytes) = if b == mark then ok bytes else err (compression "another mark")

-- A build without snappy, whose other back ends put different marks in front.
abbrev marking : ℕ → Backend
marking mark = record { pack = λ input. ok (mark ∷ input); unpack = λ input n. unmark mark input }

abbrev a_build : Compressors
a_build = record { for_snappy = none; for_zlib = some (marking 120); for_zstd = some (marking 40) }

unmarked :
    (mark : ℕ) (plain packed : Bytes)
    → ◌≡◌ {A = Result ProtocolError Bytes} (ok (mark ∷ plain)) (ok packed)
    → unmark mark packed ≡ ok plain
unmarked mark plain packed h = let e : packed ≡ mark ∷ plain = cc h in rw (e, ==_refl mark) refl

a_build-AreInverse : AreInverse a_build
a_build-AreInverse = record {
  snappy_back = tt;
  zlib_back = λ plain packed h. unmarked 120 plain packed h;
  zstd_back = λ plain packed h. unmarked 40 plain packed h;
}

abbrev a_packed : OpCompressed
a_packed = record {
  original_opcode = Opcode.msg;
  uncompressed_size = pos 25;
  compressor_id = zlib;
  compressed_message = 120 ∷ a_body;
}

a_packed_wrapped : wrap a_build Opcode.msg a_body zlib ≡ ok a_packed
unfolding wrap compress
a_packed_wrapped = refl

unwrap_body-wrap_example :
    unwrap_body a_build a_packed (pos 48000000) ≡ parse_body Opcode.msg a_body
unwrap_body-wrap_example =
    unwrap_body-wrap a_build Opcode.msg a_body zlib a_packed (pos 48000000) a_build-AreInverse
      a_packed_wrapped (λ p. cc) refl

a_packed_opened : unwrap_body a_build a_packed (pos 48000000) ≡ ok (MessageBody.msg a_message)
unfolding parse_body
a_packed_opened =
    unwrap_body-wrap a_build Opcode.msg a_body zlib a_packed (pos 48000000) a_build-AreInverse
      a_packed_wrapped (λ p. cc) refl
    ∙ ap (map_ok MessageBody.msg) a_body_read

unwrap_body-ok_example :
    (ltb_ℤ (pos 25) (pos 0) ≡ false)
    × (ltb_ℤ (pos 48000000) (pos 25) ≡ false)
    × (Opcode.msg ≢ Opcode.compressed)
    × ((plain : Bytes) × Unpacks a_build zlib (120 ∷ a_body) 25 plain
        × (length plain ≡ 25)
        × (parse_body Opcode.msg plain ≡ ok (MessageBody.msg a_message)))
unwrap_body-ok_example =
    unwrap_body-ok a_build a_packed (pos 48000000) (MessageBody.msg a_message) a_packed_opened
