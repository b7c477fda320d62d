-- ===== src/Bson/Encode.antt =====
-- wirebson/src/encode.rs: the encoder of documents, arrays and values. Each function takes the buffer
-- and returns the longer one; on an error the callers drop the buffer.
pub mod Written
pub mod Ends
use mongowire.Base.{
  ℕ, suc, ◌+◌, ◌-◌, not, ◌&&◌, none, some, [], Bytes, pos, length, ltb, fits_i32, Result, ok, err,
  map_err, ◌>>=◌, ◌>>◌, guard, to_string,
}
use mongowire.Io.{put_u8, put_bytes, put_i32_le, put_cstring, placeholder_i32, put_i32_le_at}
use mongowire.Scalar.Encode.{encode_scalar}
use mongowire.Bson.{
  Bson, Fields, Values, RawDocument, RawArray, Error, document, array, javascript_scope, no_fields,
  field, no_values, value, invalid, scalar, as_scalar, tag, min_doc_len,
}
use mongowire.Bson.Raw.{from_bytes, array_from_bytes}

unfoldable pub patch_len : Bytes → ℕ → Result Error Bytes
patch_len out len_pos = do
  let total = length out - len_pos
  guard (fits_i32 total) (invalid len_pos "document exceeds the maximum BSON length")
  ok (put_i32_le_at out len_pos (pos total))

-- A length placeholder, the elements, a NUL, and the length patched in.
unfoldable pub encode_composite : (Bytes → Result Error Bytes) → Bytes → Result Error Bytes
unfolding patch_len
encode_composite elements out = do
  let (len_pos, out1) = placeholder_i32 out
  out2 ← elements out1
  patch_len (put_u8 out2 0) len_pos

unfoldable pub encode_string : Bytes → Bytes → Result Error Bytes
encode_string out s = do
  let len = length s + 1
  guard (fits_i32 (length s) && fits_i32 len) (invalid (length out) "string too large")
  ok (put_u8 (put_bytes (put_i32_le out (pos len)) s) 0)

unfoldable pub encode_scope : Bytes → RawDocument → Bytes → Result Error Bytes
unfolding patch_len encode_string
encode_scope code scope out = do
  guard (not (ltb (length scope.bytes) min_doc_len))
      (invalid (length out) "empty JavaScript scope document")
  let (len_pos, out1) = placeholder_i32 out
  out2 ← encode_string out1 code
  patch_len (put_bytes out2 scope.bytes) len_pos

-- The arm of every value that is not composite.
unfoldable pub encode_plain : Bson → Bytes → Result Error Bytes
encode_plain v out = elim (as_scalar v) [
  | none ↦ err (invalid (length out) "unexpected composite value without as_scalar()")
  | some s ↦ do (n, out') ← map_err scalar (encode_scalar s out); ok out'
]

-- The tag byte and the name of a field.
unfoldable pub field_head : Bytes → Bytes → Bson → Result Error Bytes
field_head out name v =
    map_err (λ e. invalid (length out) "interior NUL in field name")
      (put_cstring (put_u8 out (tag v)) name)

unfoldable mutual
  pub encode_value : Bson → Bytes → Result Error Bytes
  encode_value (document fs) out = encode_composite (λ o. encode_fields fs o) out
  encode_value (array vs) out = encode_composite (λ o. encode_values 0 vs o) out
  encode_value (javascript_scope code scope) out = encode_scope code scope out
  encode_value v out = encode_plain v out

  pub encode_fields : Fields → Bytes → Result Error Bytes
  encode_fields no_fields out = ok out
  encode_fields (field name v fs) out = do
    out1 ← field_head out name v
    out2 ← encode_value v out1
    encode_fields fs out2

  -- The keys of an array are its positions, from `i` on.
  pub encode_values : ℕ → Values → Bytes → Result Error Bytes
  encode_values i no_values out = ok out
  encode_values i (value v vs) out = do
    out1 ← field_head out (to_string i) v
    out2 ← encode_value v out1
    encode_values (suc i) vs out2

unfoldable pub encode_document : Fields → Bytes → Result Error Bytes
encode_document doc out = encode_composite (encode_fields doc) out

unfoldable pub encode_array : Values → Bytes → Result Error Bytes
encode_array arr out = encode_composite (encode_values 0 arr) out

-- `Document::encode` and `Array::encode`.
unfoldable pub encode : Fields → Result Error RawDocument
encode doc = do out ← encode_document doc []; from_bytes out

unfoldable pub array_encode : Values → Result Error RawArray
array_encode arr = do out ← encode_array arr []; array_from_bytes out
