-- ===== src/Wire/Body/Laws.antt =====
-- mongowire/src/messages/mod.rs: each body appends as many bytes as it declares, and `unwrap_body`.
use mongowire.Base.{
  ◌+◌, ◌≡◌, ◌≢◌, refl, Bool, not, true, false, [], ◌++◌, Bytes, ℤ, pos, ltb_ℤ, as_usize, fits_i32,
  length, length-append, ok, guard, bind_ok, guard-eq-ok, arith, ge→ltb,
}
use mongowire.Wire.{Opcode, CompressorId, invalid_op_msg, message_too_large, compression}
use mongowire.Wire.Msg.Written.{op_msg_bytes, length-op_msg_bytes}
use mongowire.Wire.Msg.Written as MsgWritten
use mongowire.Wire.Query.Laws.{query_bytes, length-query_bytes}
use mongowire.Wire.Query.Laws as QueryLaws
use mongowire.Wire.Reply.Laws.{reply_bytes, length-reply_bytes}
use mongowire.Wire.Reply.Laws as ReplyLaws
use mongowire.Wire.Compressed.Laws.{
  compressed_bytes, length-compressed_bytes, length-decompress, Unpacks, decompress-Unpacks,
  AreInverse, decompress-compress,
}
use mongowire.Wire.Compressed.Laws as CompressedLaws
use mongowire.Wire.Compressed.{OpCompressed, Compressors, decompress, compress, wrap}
use mongowire.Wire.Body.{MessageBody, body_len, encode_body, parse_body, unwrap_body, is_compressed}

abbrev pub body_bytes : MessageBody → Bytes
body_bytes (MessageBody.msg m) = op_msg_bytes m
body_bytes (MessageBody.query q) = query_bytes q
body_bytes (MessageBody.reply p) = reply_bytes p
body_bytes (MessageBody.compressed c) = compressed_bytes c

pub encode_body-bytes : (b : MessageBody) (out : Bytes) → encode_body b out ≡ out ++ body_bytes b
unfolding encode_body
encode_body-bytes (MessageBody.msg m) out = MsgWritten.encode_body-bytes m out
encode_body-bytes (MessageBody.query q) out = QueryLaws.encode_body-bytes q out
encode_body-bytes (MessageBody.reply p) out = ReplyLaws.encode_body-bytes p out
encode_body-bytes (MessageBody.compressed c) out = CompressedLaws.encode_body-bytes c out

pub length-body_bytes : (b : MessageBody) → length (body_bytes b) ≡ body_len b
unfolding body_len
length-body_bytes (MessageBody.msg m) = length-op_msg_bytes m
length-body_bytes (MessageBody.query q) = length-query_bytes q
length-body_bytes (MessageBody.reply p) = length-reply_bytes p
length-body_bytes (MessageBody.compressed c) = length-compressed_bytes c

-- Every body appends exactly `body_len` bytes to the buffer, and what the buffer held stays.
pub encode_body-append :
    (b : MessageBody) (out : Bytes)
    → (encode_body b out ≡ out ++ encode_body b [])
      × (length (encode_body b out) ≡ length out + body_len b)
encode_body-append b out =
    rw (encode_body-bytes b out, encode_body-bytes b [])
      (refl, omega (arith, length-append out (body_bytes b), length-body_bytes b))

-- A wrapper is opened only where its declared size is neither negative nor above the limit, where
-- what it wraps is not a wrapper itself, and where the payload is unpacked, by the back end of the
-- wrapper's compressor or as it is for noop, to bytes of the declared size; the result is what the
-- wrapped opcode's parser makes of them.
pub unwrap_body-ok :
    (c : Compressors) (m : OpCompressed) (max_msg_len : ℤ) (b : MessageBody)
    → unwrap_body c m max_msg_len ≡ ok b
    → (ltb_ℤ m.uncompressed_size (pos 0) ≡ false)
      × (ltb_ℤ max_msg_len m.uncompressed_size ≡ false)
      × (m.original_opcode ≢ Opcode.compressed)
      × ((plain : Bytes) × Unpacks c m.compressor_id m.compressed_message
            (as_usize m.uncompressed_size)
            plain
          × (length plain ≡ as_usize m.uncompressed_size)
          × (parse_body m.original_opcode plain ≡ ok b))
unfolding unwrap_body is_compressed
unwrap_body-ok c m max_msg_len b h =
    bind_ok
      (guard (not (ltb_ℤ m.uncompressed_size (pos 0))) (invalid_op_msg "negative uncompressedSize"))
      _ h
      λ u1 e1 f1.
        bind_ok
          (guard (not (is_compressed m.original_opcode)) (invalid_op_msg "nested OP_COMPRESSED")) _
          f1
          λ u2 e2 f2.
            bind_ok
              (guard (not (ltb_ℤ max_msg_len m.uncompressed_size))
                (message_too_large m.uncompressed_size max_msg_len))
              _ f2
              λ u3 e3 f3.
                bind_ok
                  (decompress c m.compressor_id m.compressed_message (as_usize m.uncompressed_size))
                  _ f3
                  λ plain e4 f4. (
                    not_true _ (guard-eq-ok _ _ e1),
                    not_true _ (guard-eq-ok _ _ e3),
                    λ o. nested m.original_opcode o (guard-eq-ok _ _ e2),
                    (
                      plain,
                      decompress-Unpacks c m.compressor_id m.compressed_message plain _ e4,
                      length-decompress c m.compressor_id m.compressed_message plain _ e4,
                      f4,
                    ),
                  )
  where
    not_true : (b : Bool) → not b ≡ true → b ≡ false
    not_true true p = cc
    not_true false p = refl

    nested : (o : Opcode) → o ≡ Opcode.compressed → not (is_compressed o) ≡ true → ⊥
    nested o p q = unfold is_compressed in cc (p, q)

-- With back ends that undo their compression, whatever body of an opcode but OP_COMPRESSED is wrapped
-- unwraps to what its parser makes of it, under a limit not below its length.
pub unwrap_body-wrap :
    (c : Compressors) (o : Opcode) (body : Bytes) (id : CompressorId) (m : OpCompressed)
    (max_msg_len : ℤ)
    → AreInverse c
    → wrap c o body id ≡ ok m
    → o ≢ Opcode.compressed
    → ltb_ℤ max_msg_len (pos (length body)) ≡ false
    → unwrap_body c m max_msg_len ≡ parse_body o body
unfolding wrap unwrap_body is_compressed
unwrap_body-wrap c o body id m max_msg_len back h single room =
    bind_ok (guard (fits_i32 (length body)) (compression "body larger than i32::MAX")) _ h
      λ u1 e1 f1. bind_ok (compress c id body) _ f1 λ packed e2 f2.
        let same : m ≡ record {
          original_opcode = o;
          uncompressed_size = pos (length body);
          compressor_id = id;
          compressed_message = packed;
        } =
          ground (arith, f2) in
        rw same (
          rw
            (
              ge→ltb (length body) 0 (omega arith),
              single_test o single,
              room,
              decompress-compress c id body packed back e2,
            )
            refl)
  where
    single_test : (o : Opcode) → o ≢ Opcode.compressed → is_compressed o ≡ false
    single_test Opcode.compressed p = absurd (p refl)
    single_test _ p = refl
