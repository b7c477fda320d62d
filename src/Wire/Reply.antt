-- ===== src/Wire/Reply.antt =====
-- mongowire/src/messages/op_reply.rs: the legacy reply. Its `take_document` is a copy of the one of
-- op_query.rs, and the model has it once, in Query.
pub mod Laws
use mongowire.Base.{
  ℕ, zero, suc, ◌+◌, ◌*◌, ◌%◌, ◌/◌, ◌^◌, Bool, not, true, false, List, [], ◌∷◌, ◌++◌, Bytes, ℤ, pos,
  negsuc, pattern_of, signed, i32_half, ltb_ℤ, as_usize, length, ltb, ◌==◌, if◌then◌else◌, Result,
  ok, err, map_err, ◌>>=◌, ◌>>◌, guard,
}
use mongowire.Io.{put_bytes, put_i32_le, put_i64_le, read_i32_le, read_i64_le, remaining}
use mongowire.Bson.{RawDocument, min_doc_len}
use mongowire.Wire.{ProtocolError, invalid_body, lift_read}
use mongowire.Wire.Sections.{documents_len}
use mongowire.Wire.Msg.{put_documents}
use mongowire.Wire.Query.{take_document}

pub record ReplyFlags : Type 0 where
  pub bits : ℕ

-- `ReplyFlags::from_bits_truncate`: bits 0 to 3.
unfoldable pub reply_flags : ℤ → ReplyFlags
reply_flags v = record { bits = pattern_of i32_half v % 16 }

pub record OpReply : Type 0 where
  pub response_flags : ReplyFlags
  pub cursor_id : ℤ
  pub starting_from : ℤ
  pub number_returned : ℤ
  pub documents : List RawDocument

unfoldable pub body_len : OpReply → ℕ
unfolding documents_len
body_len p = 20 + documents_len p.documents

-- `self.documents.len() as i32`
abbrev pub count_i32 : List RawDocument → ℤ
count_i32 ds = signed i32_half (length ds % 2 ^ 32)

unfoldable pub encode_body : OpReply → Bytes → Bytes
unfolding put_i32_le put_i64_le put_documents
encode_body p out =
    let flags = put_i32_le out (pos p.response_flags.bits) in
    let cursor = put_i64_le flags p.cursor_id in
    let counts = put_i32_le (put_i32_le cursor p.starting_from) (count_i32 p.documents) in
    put_documents p.documents counts

-- `for _ in 0..number_returned`
unfoldable pub take_documents : ℕ → Bytes → Bytes → Result ProtocolError (List RawDocument × Bytes)
unfolding take_document
take_documents zero body r = ok ([], r)
take_documents (suc n) body r = do
  (d, r) ← take_document body r
  (ds, r) ← take_documents n body r
  ok (d ∷ ds, r)

unfoldable pub parse_body : Bytes → Result ProtocolError OpReply
unfolding reply_flags take_documents remaining
parse_body body = do
  (raw_flags, r) ← lift_read (read_i32_le body)
  (cursor_id, r) ← lift_read (read_i64_le r)
  (starting_from, r) ← lift_read (read_i32_le r)
  (number_returned, r) ← lift_read (read_i32_le r)
  guard (not (ltb_ℤ number_returned (pos 0))) (invalid_body "negative numberReturned")
  guard (not (ltb (remaining r / min_doc_len) (as_usize number_returned)))
      (invalid_body "numberReturned exceeds the body size")
  (documents, r) ← take_documents (as_usize number_returned) body r
  guard (length r == 0) (invalid_body "trailing bytes after the documents")
  ok (record {
    response_flags = reply_flags raw_flags;
    cursor_id = cursor_id;
    starting_from = starting_from;
    number_returned = number_returned;
    documents = documents;
  })
