-- ===== src/Scalar/Encode.antt =====
-- `encode_scalar` of mongo_common/src/bson/scalar.rs. It returns the number of bytes written and the
-- longer buffer; on an error its callers drop the buffer, so what was written before is not kept.
use mongowire.Base.{
  ℕ, ◌+◌, ◌-◌, Bool, true, false, Bytes, pos, length, to_le, fits_i32, if◌then◌else◌, Result, ok,
  ◌>>=◌, ◌>>◌, guard, map_err,
}
use mongowire.Io.{put_bytes, put_u8, put_i32_le, put_u32_le, put_i64_le, put_cstring}
use mongowire.Scalar.{
  Scalar, ScalarError, Binary, Regex, invalid, out_of_range, double, string, binary, object_id,
  bool, date_time, regex, db_pointer, javascript, symbol, int32, timestamp, int64, decimal128,
  subtype_to_u8, is_old,
}

unfoldable pub encode_string : Bytes → Bytes → Result ScalarError Bytes
unfolding put_u8 put_bytes put_i32_le
encode_string v out = do
  let len = length v + 1
  guard (fits_i32 len) out_of_range
  ok (put_u8 (put_bytes (put_i32_le out (pos len)) v) 0)

-- The 4-byte inner length of the obsolete subtype 2.
unfoldable pub put_inner_len : Bool → Binary → Bytes → Result ScalarError Bytes
unfolding put_i32_le
put_inner_len true b out = do
  guard (fits_i32 (length b.bytes)) out_of_range
  ok (put_i32_le out (pos (length b.bytes)))
put_inner_len false b out = ok out

unfoldable pub encode_binary : Binary → Bytes → Result ScalarError Bytes
unfolding put_u8 put_bytes put_i32_le put_inner_len subtype_to_u8
encode_binary b out = do
  let extra = if is_old b.subtype then 4 else 0
  let len = length b.bytes + extra
  guard (fits_i32 len) out_of_range
  out' ←
      put_inner_len (is_old b.subtype) b
        (put_u8 (put_i32_le out (pos len)) (subtype_to_u8 b.subtype))
  ok (put_bytes out' b.bytes)

unfoldable pub encode_regex : Regex → Bytes → Result ScalarError Bytes
unfolding put_cstring
encode_regex r out = do
  out1 ← map_err (λ e. invalid 0x0b "interior NUL in pattern") (put_cstring out r.pattern_text)
  map_err (λ e. invalid 0x0b "interior NUL in options") (put_cstring out1 r.options)

-- The arms of the match on the scalar.
unfoldable pub encode_arm : Scalar → Bytes → Result ScalarError Bytes
unfolding put_bytes put_u8 put_i32_le put_u32_le put_i64_le
encode_arm (double v) out = ok (put_bytes out (to_le 8 v))
encode_arm (string v) out = encode_string v out
encode_arm (binary b) out = encode_binary b out
encode_arm (object_id v) out = ok (put_bytes out v.bytes)
encode_arm (bool true) out = ok (put_u8 out 1)
encode_arm (bool false) out = ok (put_u8 out 0)
encode_arm (date_time v) out = ok (put_i64_le out v)
encode_arm (regex r) out = encode_regex r out
encode_arm (db_pointer p) out = do
  out1 ← encode_string p.namespace out
  ok (put_bytes out1 p.id.bytes)
encode_arm (javascript v) out = encode_string v out
encode_arm (symbol v) out = encode_string v out
encode_arm (int32 v) out = ok (put_i32_le out v)
encode_arm (timestamp v) out = ok (put_u32_le (put_u32_le out v.increment) v.seconds)
encode_arm (int64 v) out = ok (put_i64_le out v)
encode_arm (decimal128 v) out = ok (put_bytes out v.bytes)
encode_arm _ out = ok out

unfoldable pub encode_scalar : Scalar → Bytes → Result ScalarError (ℕ × Bytes)
unfolding encode_arm
encode_scalar s out = do out' ← encode_arm s out; ok (length out' - length out, out')
