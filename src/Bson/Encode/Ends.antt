-- ===== src/Bson/Encode/Ends.antt =====
-- wirebson/src/encode.rs: encoding a document ends with bytes or an error.
use mongowire.Base.{
  ℕ, suc, ◌≢◌, Bytes, Result, stuck, Option-cases, inl, inr, >>=-ne-stuck, arith, to_string, true,
  false,
}
use mongowire.Io.{put_u8, put_cstring}
use mongowire.Scalar.{Scalar, Regex, Binary}
use mongowire.Scalar.Encode.{
  encode_scalar, encode_arm, encode_string, encode_binary, put_inner_len, encode_regex,
}
use mongowire.Bson.{Bson, Fields, Values, Error, field, no_fields, value, no_values, as_scalar}
use mongowire.Bson.Raw.{from_bytes}
use mongowire.Bson.Encode.{
  encode, encode_document, encode_composite, encode_fields, encode_values, encode_value,
  encode_plain, encode_scope, field_head, patch_len,
}
use mongowire.Bson.Encode as Enc
use mongowire.Bson.{RawDocument}

encode_string-ne-stuck : (v out : Bytes) → encode_string v out ≢ stuck
unfolding encode_string
encode_string-ne-stuck v out = λ p. ground arith

encode_binary-ne-stuck : (b : Binary) (out : Bytes) → encode_binary b out ≢ stuck
unfolding encode_binary put_inner_len
encode_binary-ne-stuck b out = λ p. ground arith

encode_regex-ne-stuck : (r : Regex) (out : Bytes) → encode_regex r out ≢ stuck
unfolding encode_regex put_cstring
encode_regex-ne-stuck r out = λ p. ground arith

encode_arm-ne-stuck : (s : Scalar) (out : Bytes) → encode_arm s out ≢ stuck
unfolding encode_arm
encode_arm-ne-stuck (Scalar.string v) out = encode_string-ne-stuck v out
encode_arm-ne-stuck (Scalar.binary b) out = encode_binary-ne-stuck b out
encode_arm-ne-stuck (Scalar.bool true) out = λ p. cc
encode_arm-ne-stuck (Scalar.bool false) out = λ p. cc
encode_arm-ne-stuck (Scalar.regex r) out = encode_regex-ne-stuck r out
encode_arm-ne-stuck (Scalar.db_pointer d) out =
    >>=-ne-stuck _ _ (encode_string-ne-stuck d.namespace out) λ o e. λ p. cc
encode_arm-ne-stuck (Scalar.javascript v) out = encode_string-ne-stuck v out
encode_arm-ne-stuck (Scalar.symbol v) out = encode_string-ne-stuck v out
encode_arm-ne-stuck _ out = λ p. cc

encode_scalar-ne-stuck : (s : Scalar) (out : Bytes) → encode_scalar s out ≢ stuck
unfolding encode_scalar
encode_scalar-ne-stuck s out = >>=-ne-stuck _ _ (encode_arm-ne-stuck s out) λ o e. λ p. cc

encode_plain-ne-stuck : (v : Bson) (out : Bytes) → encode_plain v out ≢ stuck
unfolding encode_plain
encode_plain-ne-stuck v out = elim (Option-cases (as_scalar v)) [
  | inl e ↦ λ p. ground (arith, e)
  | inr (s, e) ↦ λ p. ground (arith, e, encode_scalar-ne-stuck s out)
]

patch_len-ne-stuck : (out : Bytes) (at : ℕ) → patch_len out at ≢ stuck
unfolding patch_len
patch_len-ne-stuck out at = λ p. ground arith

encode_scope-ne-stuck :
    (code : Bytes) (scope : RawDocument) (out : Bytes) → encode_scope code scope out ≢ stuck
unfolding encode_scope Enc.encode_string patch_len
encode_scope-ne-stuck code scope out = λ p. ground arith

encode_composite-ne-stuck :
    (elements : Bytes → Result Error Bytes) (out : Bytes)
    → ((o : Bytes) → elements o ≢ stuck)
    → encode_composite elements out ≢ stuck
unfolding encode_composite
encode_composite-ne-stuck elements out h =
    >>=-ne-stuck _ _ (h _) λ o e. patch_len-ne-stuck (put_u8 o 0) _

field_head-ne-stuck : (out name : Bytes) (v : Bson) → field_head out name v ≢ stuck
unfolding field_head put_cstring
field_head-ne-stuck out name v = λ p. ground arith

mutual
  unfolding encode_value encode_fields encode_values

  encode_value-ne-stuck : (v : Bson) (out : Bytes) → encode_value v out ≢ stuck
  encode_value-ne-stuck (Bson.document fs) out =
      encode_composite-ne-stuck (λ o. encode_fields fs o) out (λ o. encode_fields-ne-stuck fs o)
  encode_value-ne-stuck (Bson.array vs) out =
      encode_composite-ne-stuck (λ o. encode_values 0 vs o) out (λ o. encode_values-ne-stuck 0 vs o)
  encode_value-ne-stuck (Bson.javascript_scope code scope) out =
      encode_scope-ne-stuck code scope out
  encode_value-ne-stuck v out = encode_plain-ne-stuck v out

  encode_fields-ne-stuck : (fs : Fields) (out : Bytes) → encode_fields fs out ≢ stuck
  encode_fields-ne-stuck no_fields out = λ p. cc
  encode_fields-ne-stuck (field name v fs) out =
      >>=-ne-stuck _ _ (field_head-ne-stuck out name v)
        λ o1 e1. >>=-ne-stuck _ _ (encode_value-ne-stuck v o1) λ o2 e2. encode_fields-ne-stuck fs o2

  encode_values-ne-stuck : (i : ℕ) (vs : Values) (out : Bytes) → encode_values i vs out ≢ stuck
  encode_values-ne-stuck i no_values out = λ p. cc
  encode_values-ne-stuck i (value v vs) out =
      >>=-ne-stuck _ _ (field_head-ne-stuck out (to_string i) v) λ o1 e1.
        >>=-ne-stuck _ _ (encode_value-ne-stuck v o1) λ o2 e2. encode_values-ne-stuck (suc i) vs o2

pub encode-ne-stuck : (doc : Fields) → encode doc ≢ stuck
unfolding encode encode_document from_bytes
encode-ne-stuck doc =
    >>=-ne-stuck _ _
      (encode_composite-ne-stuck (encode_fields doc) _ (λ o. encode_fields-ne-stuck doc o))
      λ o e. λ p. ground arith
