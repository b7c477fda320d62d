-- ===== src/Wire/Query.antt =====
-- mongowire/src/messages/op_query.rs: the legacy query.
pub mod Laws
use mongowire.Base.{
  ℕ, ◌+◌, ◌-◌, ◌%◌, Bool, not, true, false, ◌||◌, Option, none, some, [], ◌∷◌, ◌++◌, Bytes, ℤ, pos,
  negsuc, pattern_of, i32_half, ltb_ℤ, as_usize, length, take, drop, ltb, ◌==◌, if◌then◌else◌,
  Result, ok, err, map_err, ◌>>=◌, ◌>>◌, guard, is_utf8,
}
use mongowire.Io.{
  put_u8, put_bytes, put_i32_le, read_i32_le, read_cstring, read_bytes, peek_i32_le, remaining,
}
use mongowire.Bson.{RawDocument, min_doc_len}
use mongowire.Bson.Raw.{from_bytes}
use mongowire.Bson.Scan.{slice}
use mongowire.Wire.{ProtocolError, invalid_body, bson, lift_read}

-- A replacement of whatever error: `map_err(|_| e)`.
abbrev replace_err : {E A : Type 0} → ProtocolError → Result E A → Result ProtocolError A
replace_err e = map_err (λ _. e)

-- One document off the cursor `r`, which is the end of `body`; op_reply.rs has the same function.
unfoldable pub take_document : Bytes → Bytes → Result ProtocolError (RawDocument × Bytes)
unfolding remaining
take_document body r = do
  let start = length body - remaining r
  len ← replace_err (invalid_body "truncated document") (peek_i32_le r)
  guard (not (ltb_ℤ len (pos min_doc_len) || ltb (remaining r) (as_usize len)))
      (invalid_body "invalid document length")
  doc ← map_err bson (from_bytes (slice start (start + as_usize len) body))
  (taken, r) ← replace_err (invalid_body "truncated document") (read_bytes (as_usize len) r)
  ok (doc, r)

-- `QueryFlags`: the bits are an i32, kept here as its value, which has no sign bit.
pub record QueryFlags : Type 0 where
  pub bits : ℕ

-- `QueryFlags::from_bits_truncate`: bits 1 to 7.
unfoldable pub query_flags : ℤ → QueryFlags
query_flags v = record { bits = pattern_of i32_half v % 256 - pattern_of i32_half v % 2 }

pub record OpQuery : Type 0 where
  pub flags : QueryFlags
  pub full_collection_name : Bytes
  pub number_to_skip : ℤ
  pub number_to_return : ℤ
  pub query : RawDocument
  pub return_fields_selector : Option RawDocument

abbrev pub selector_len : Option RawDocument → ℕ
selector_len none = 0
selector_len (some d) = length d.bytes

unfoldable pub body_len : OpQuery → ℕ
body_len q =
    12
    + length q.full_collection_name
    + 1
    + length q.query.bytes
    + selector_len q.return_fields_selector

abbrev pub put_selector : Option RawDocument → Bytes → Bytes
put_selector none out = out
put_selector (some d) out = put_bytes out d.bytes

unfoldable pub encode_body : OpQuery → Bytes → Bytes
unfolding put_i32_le put_bytes put_u8
encode_body q out =
    let head = put_u8 (put_bytes (put_i32_le out (pos q.flags.bits)) q.full_collection_name) 0 in
    let numbers = put_i32_le (put_i32_le head q.number_to_skip) q.number_to_return in
    put_selector q.return_fields_selector (put_bytes numbers q.query.bytes)

unfoldable pub parse_selector : Bytes → Bytes → Result ProtocolError (Option RawDocument × Bytes)
unfolding take_document
parse_selector body [] = ok (none, [])
parse_selector body (b ∷ r) = do (d, r) ← take_document body (b ∷ r); ok (some d, r)

unfoldable pub parse_body : Bytes → Result ProtocolError OpQuery
unfolding query_flags parse_selector
parse_body body = do
  (raw_flags, r) ← lift_read (read_i32_le body)
  (name, r) ← lift_read (read_cstring r)
  guard (not (length name == 0)) (invalid_body "empty fullCollectionName")
  guard (is_utf8 name) (invalid_body "invalid UTF-8 in fullCollectionName")
  (number_to_skip, r) ← lift_read (read_i32_le r)
  (number_to_return, r) ← lift_read (read_i32_le r)
  (query_document, r) ← take_document body r
  (selector, r) ← parse_selector body r
  guard (length r == 0) (invalid_body "trailing bytes after returnFieldsSelector")
  ok (record {
    flags = query_flags raw_flags;
    full_collection_name = name;
    number_to_skip = number_to_skip;
    number_to_return = number_to_return;
    query = query_document;
    return_fields_selector = selector;
  })

-- The ASCII codes of "admin.$cmd".
abbrev pub admin_cmd : Bytes
admin_cmd = 97 ∷ 100 ∷ 109 ∷ 105 ∷ 110 ∷ 46 ∷ 36 ∷ 99 ∷ 109 ∷ 100 ∷ []

unfoldable pub handshake : RawDocument → OpQuery
handshake request = record {
  flags = record { bits = 0 };
  full_collection_name = admin_cmd;
  number_to_skip = pos 0;
  number_to_return = negsuc 0;
  query = request;
  return_fields_selector = none;
}
