-- ===== src/Wire/Body/Ends.antt =====
-- mongowire/src/messages: parsing a body of any opcode ends with a body or an error, and so does the
-- opening of a wrapper over back ends that end.
use mongowire.Base.{
  ℕ, zero, suc, ◌≡◌, ◌≢◌, not, [], ◌∷◌, Bytes, AreBytes, Result, ok, err, stuck, length, drop, take,
  ltb_ℤ, ℤ, pos, as_usize, guard, bind_ok, >>=-ne-stuck, arith, ◌==◌, ◌-◌, is_utf8, refl, map_ok,
  subst, ltb, ◌/◌,
}
use mongowire.Io.{
  read_i32_le, read_i64_le, read_cstring, read_bytes, read_u8, peek_i32_le, remaining,
}
use mongowire.Bson.{min_doc_len}
use mongowire.Bson.Raw.{from_bytes}
use mongowire.Wire.{
  invalid_body, invalid_op_msg, message_too_large, ProtocolError, Opcode, lift_read,
}
use mongowire.Wire.Msg.Ends as MsgEnds
use mongowire.Wire.Msg as Msg
use mongowire.Wire.Query as Query
use mongowire.Wire.Reply as Reply
use mongowire.Wire.Compressed as Compressed
use mongowire.Wire.Compressed.Ends.{AllEnd, decompress-IsPlain, guard-ne-stuck, ok-ne-stuck}
use mongowire.Wire.Compressed.{
  OpCompressed, Compressors, Backend, decompress, decompress_arm, noop_compress, unpack_with,
}
use mongowire.Wire.Body.{MessageBody, parse_body, unwrap_body, is_compressed}

pub take-AreBytes : (n : ℕ) (b : Bytes) → AreBytes b → AreBytes (take n b)
take-AreBytes zero b h = tt
take-AreBytes (suc n) [] h = tt
take-AreBytes (suc n) (x ∷ b) (hx, h) = (hx, take-AreBytes n b h)

pub drop-AreBytes : (n : ℕ) (b : Bytes) → AreBytes b → AreBytes (drop n b)
drop-AreBytes zero b h = h
drop-AreBytes (suc n) [] h = tt
drop-AreBytes (suc n) (x ∷ b) (hx, h) = drop-AreBytes n b h

read_i32_le-ne-stuck : (r : Bytes) → lift_read (read_i32_le r) ≢ stuck
unfolding read_i32_le read_bytes
read_i32_le-ne-stuck r = λ p. ground arith

read_i64_le-ne-stuck : (r : Bytes) → lift_read (read_i64_le r) ≢ stuck
unfolding read_i64_le read_bytes
read_i64_le-ne-stuck r = λ p. ground arith

read_u8-ne-stuck : (r : Bytes) → lift_read (read_u8 r) ≢ stuck
unfolding read_u8 read_bytes
read_u8-ne-stuck r = λ p. ground arith

read_cstring-ne-stuck : (r : Bytes) → lift_read (read_cstring r) ≢ stuck
unfolding read_cstring
read_cstring-ne-stuck r = λ p. ground arith

take_document-ne-stuck : (body r : Bytes) → Query.take_document body r ≢ stuck
unfolding Query.take_document peek_i32_le read_bytes from_bytes
take_document-ne-stuck body r = λ p. ground arith

parse_selector-ne-stuck : (body r : Bytes) → Query.parse_selector body r ≢ stuck
unfolding Query.parse_selector
parse_selector-ne-stuck body [] = λ p. cc
parse_selector-ne-stuck body (b ∷ r) =
    >>=-ne-stuck _ _ (take_document-ne-stuck body (b ∷ r)) λ d e. λ p. cc

query-ne-stuck : (body : Bytes) → Query.parse_body body ≢ stuck
unfolding Query.parse_body
query-ne-stuck body = >>=-ne-stuck _ _ (read_i32_le-ne-stuck body) λ a e.
    >>=-ne-stuck _ _ (read_cstring-ne-stuck a.1) λ b e.
      >>=-ne-stuck _ _
        (guard-ne-stuck (not (length b.0 == 0)) (invalid_body "empty fullCollectionName"))
        λ u e.
          >>=-ne-stuck _ _
            (guard-ne-stuck (is_utf8 b.0) (invalid_body "invalid UTF-8 in fullCollectionName"))
            λ u e. >>=-ne-stuck _ _ (read_i32_le-ne-stuck b.1) λ c e.
              >>=-ne-stuck _ _ (read_i32_le-ne-stuck c.1) λ d e.
                >>=-ne-stuck _ _ (take_document-ne-stuck body d.1) λ q e.
                  >>=-ne-stuck _ _ (parse_selector-ne-stuck body q.1) λ s e.
                    >>=-ne-stuck _ _
                      (guard-ne-stuck (length s.1 == 0)
                        (invalid_body "trailing bytes after returnFieldsSelector"))
                      λ u e. ok-ne-stuck _

reply_documents-ne-stuck : (n : ℕ) (body r : Bytes) → Reply.take_documents n body r ≢ stuck
unfolding Reply.take_documents
reply_documents-ne-stuck zero body r = λ p. cc
reply_documents-ne-stuck (suc n) body r =
    >>=-ne-stuck _ _ (take_document-ne-stuck body r)
      λ d e. >>=-ne-stuck _ _ (reply_documents-ne-stuck n body d.1) λ ds e. λ p. cc

reply-ne-stuck : (body : Bytes) → Reply.parse_body body ≢ stuck
unfolding Reply.parse_body
reply-ne-stuck body = >>=-ne-stuck _ _ (read_i32_le-ne-stuck body) λ a e.
    >>=-ne-stuck _ _ (read_i64_le-ne-stuck a.1) λ b e.
      >>=-ne-stuck _ _ (read_i32_le-ne-stuck b.1) λ c e.
        >>=-ne-stuck _ _ (read_i32_le-ne-stuck c.1) λ d e.
          >>=-ne-stuck _ _
            (guard-ne-stuck (not (ltb_ℤ d.0 (pos 0))) (invalid_body "negative numberReturned"))
            λ u e.
              >>=-ne-stuck _ _
                (guard-ne-stuck (not (ltb (remaining d.1 / min_doc_len) (as_usize d.0)))
                  (invalid_body "numberReturned exceeds the body size"))
                λ u e. >>=-ne-stuck _ _ (reply_documents-ne-stuck (as_usize d.0) body d.1) λ ds e.
                  >>=-ne-stuck _ _
                    (guard-ne-stuck (length ds.1 == 0)
                      (invalid_body "trailing bytes after the documents"))
                    λ u e. ok-ne-stuck _

opcode_of-ne-stuck : (raw : ℤ) → Compressed.opcode_of raw ≢ stuck
opcode_of-ne-stuck raw = λ p. ground arith

compressor_of-ne-stuck : (raw : ℕ) → Compressed.compressor_of raw ≢ stuck
compressor_of-ne-stuck raw = λ p. ground arith

compressed-ne-stuck : (body : Bytes) → Compressed.parse_body body ≢ stuck
unfolding Compressed.parse_body
compressed-ne-stuck body = >>=-ne-stuck _ _ (read_i32_le-ne-stuck body) λ a e.
    >>=-ne-stuck _ _ (opcode_of-ne-stuck a.0) λ o e.
      >>=-ne-stuck _ _ (read_i32_le-ne-stuck a.1) λ b e.
        >>=-ne-stuck _ _
          (guard-ne-stuck (not (ltb_ℤ b.0 (pos 0))) (invalid_op_msg "negative uncompressedSize"))
          λ u e.
            >>=-ne-stuck _ _ (read_u8-ne-stuck b.1)
              λ c e. >>=-ne-stuck _ _ (compressor_of-ne-stuck c.0) λ i e. ok-ne-stuck _

map_ok-ne-stuck :
    {A B : Type 0} (f : A → B) (r : Result ProtocolError A) → r ≢ stuck → map_ok f r ≢ stuck
map_ok-ne-stuck f (ok a) h = λ p. cc
map_ok-ne-stuck f (err e) h = λ p. cc
map_ok-ne-stuck f stuck h = absurd (h refl)

pub parse_body-ne-stuck : (o : Opcode) (body : Bytes) → AreBytes body → parse_body o body ≢ stuck
unfolding parse_body
parse_body-ne-stuck Opcode.msg body h = map_ok-ne-stuck _ _ (MsgEnds.parse_body-ne-stuck body h)
parse_body-ne-stuck Opcode.query body h = map_ok-ne-stuck _ _ (query-ne-stuck body)
parse_body-ne-stuck Opcode.reply body h = map_ok-ne-stuck _ _ (reply-ne-stuck body)
parse_body-ne-stuck Opcode.compressed body h = map_ok-ne-stuck _ _ (compressed-ne-stuck body)
parse_body-ne-stuck _ body h = λ p. cc

map_ok-eq-ok :
    {A B : Type 0} (f : A → B) (r : Result ProtocolError A) {b : B}
    → map_ok f r ≡ ok b
    → (a : A) × (r ≡ ok a) × (f a ≡ b)
map_ok-eq-ok f (ok a) h = (a, refl, cc h)
map_ok-eq-ok f (err e) h = cc
map_ok-eq-ok f stuck h = cc

-- A wrapper holds bytes.
abbrev pub HoldsBytes : MessageBody → Type 0
HoldsBytes (MessageBody.compressed c) = AreBytes c.compressed_message
HoldsBytes _ = Unit {0}

compressed-AreBytes :
    (body : Bytes) (c : OpCompressed)
    → Compressed.parse_body body ≡ ok c
    → AreBytes body
    → AreBytes c.compressed_message
unfolding Compressed.parse_body
compressed-AreBytes body c h hb = bind_ok (lift_read (read_i32_le body)) _ h λ a e h.
    bind_ok (Compressed.opcode_of a.0) _ h λ o e h.
      bind_ok (lift_read (read_i32_le a.1)) _ h λ b e h.
        bind_ok (guard (not (ltb_ℤ b.0 (pos 0))) (invalid_op_msg "negative uncompressedSize")) _ h
          λ u e h. bind_ok (lift_read (read_u8 b.1)) _ h λ i e h.
            bind_ok (Compressed.compressor_of i.0) _ h λ id e h.
              let same : drop (length body - remaining i.1) body ≡ c.compressed_message = cc h in
              subst AreBytes same (drop-AreBytes (length body - remaining i.1) body hb)

pub parse_body-HoldsBytes :
    (o : Opcode) (body : Bytes) (b : MessageBody)
    → parse_body o body ≡ ok b
    → AreBytes body
    → HoldsBytes b
unfolding parse_body
parse_body-HoldsBytes o body (MessageBody.msg m) h hb = tt
parse_body-HoldsBytes o body (MessageBody.query m) h hb = tt
parse_body-HoldsBytes o body (MessageBody.reply m) h hb = tt
parse_body-HoldsBytes Opcode.compressed body (MessageBody.compressed c) h hb =
    let (c', e, same) = map_ok-eq-ok MessageBody.compressed (Compressed.parse_body body) h in
    compressed-AreBytes body c (cc (e, same)) hb
parse_body-HoldsBytes Opcode.msg body (MessageBody.compressed c) h hb =
    let (m, e, same) = map_ok-eq-ok MessageBody.msg (Msg.parse_body body) h in cc same
parse_body-HoldsBytes Opcode.query body (MessageBody.compressed c) h hb =
    let (m, e, same) = map_ok-eq-ok MessageBody.query (Query.parse_body body) h in cc same
parse_body-HoldsBytes Opcode.reply body (MessageBody.compressed c) h hb =
    let (m, e, same) = map_ok-eq-ok MessageBody.reply (Reply.parse_body body) h in cc same
parse_body-HoldsBytes _ body (MessageBody.compressed c) h hb = cc

pub unwrap_body-ne-stuck :
    (c : Compressors) (m : OpCompressed) (max_msg_len : ℤ)
    → AllEnd c
    → AreBytes m.compressed_message
    → unwrap_body c m max_msg_len ≢ stuck
unfolding unwrap_body
unwrap_body-ne-stuck c m max_msg_len h hb =
    let (ends, plain_bytes) =
      decompress-IsPlain c m.compressor_id m.compressed_message (as_usize m.uncompressed_size) h
        hb in
    >>=-ne-stuck _ _
      (guard-ne-stuck (not (ltb_ℤ m.uncompressed_size (pos 0)))
        (invalid_op_msg "negative uncompressedSize"))
      λ u e.
        >>=-ne-stuck _ _
          (guard-ne-stuck (not (is_compressed m.original_opcode))
            (invalid_op_msg "nested OP_COMPRESSED"))
          λ u e.
            >>=-ne-stuck _ _
              (guard-ne-stuck (not (ltb_ℤ max_msg_len m.uncompressed_size))
                (message_too_large m.uncompressed_size max_msg_len))
              λ u e.
                >>=-ne-stuck _ _ ends
                  λ plain e. parse_body-ne-stuck m.original_opcode plain (plain_bytes plain e)
