-- ===== src/Scalar/Parse.antt =====
-- `parse_scalar` of mongo_common/src/bson/scalar.rs and its readers. The cursor `r` is passed on.
use mongowire.Base.{
  ℕ, ◌+◌, ◌-◌, Bool, true, false, not, Bytes, length, ◌==◌, if◌then◌else◌, Result, ok, err, ◌>>=◌,
  ◌>>◌, guard, is_utf8, from_le,
}
use mongowire.Io.{
  read_bytes, read_u8, read_u32_le, read_i32_le, read_i64_le, read_cstring, remaining,
}
use mongowire.Scalar.{
  Scalar, ScalarError, Tag, Binary, utf8, invalid, lift_read, tag_from_u8, subtype_from_u8, is_old,
}

unfoldable pub read_u32_as_usize : Bytes → ℕ → Result ScalarError (ℕ × Bytes)
read_u32_as_usize r tag = lift_read (read_u32_le r)

unfoldable pub parse_string : Bytes → ℕ → Result ScalarError (Bytes × Bytes)
unfolding read_u32_as_usize
parse_string r tag = do
  (len, r) ← read_u32_as_usize r tag
  guard (not (len == 0)) (invalid tag "zero-length string")
  (bytes, r) ← lift_read (read_bytes (len - 1) r)
  (nul, r) ← lift_read (read_u8 r)
  guard (nul == 0) (invalid tag "string not NUL-terminated")
  guard (is_utf8 bytes) utf8
  ok (bytes, r)

unfoldable pub read_cstring_str : Bytes → ℕ → Result ScalarError (Bytes × Bytes)
read_cstring_str r tag = do
  (bytes, r) ← lift_read (read_cstring r)
  guard (is_utf8 bytes) utf8
  ok (bytes, r)

-- The length of the payload: the outer length, or for the obsolete subtype 2 the inner one.
unfoldable pub payload_len : Bool → ℕ → Bytes → ℕ → Result ScalarError (ℕ × Bytes)
unfolding read_u32_as_usize
payload_len true len r tag = do
  (inner, r) ← read_u32_as_usize r tag
  guard (inner + 4 == len) (invalid tag "old binary inner length mismatch")
  ok (inner, r)
payload_len false len r tag = ok (len, r)

unfoldable pub parse_binary : Bytes → ℕ → Result ScalarError (Binary × Bytes)
unfolding read_u32_as_usize payload_len
parse_binary r tag = do
  (len, r) ← read_u32_as_usize r tag
  (b, r) ← lift_read (read_u8 r)
  subtype ← subtype_from_u8 b
  (payload, r) ← payload_len (is_old subtype) len r tag
  (bytes, r) ← lift_read (read_bytes payload r)
  ok (record { subtype = subtype; bytes = bytes }, r)

unfoldable pub parse_bool : Bytes → ℕ → Result ScalarError (Bool × Bytes)
parse_bool r tag = do
  (b, r) ← lift_read (read_u8 r)
  (if b == 0
      then ok (false, r)
      else if b == 1
      then ok (true, r)
      else err (invalid tag "invalid bool byte"))

-- The arms of the match on the tag.
unfoldable pub parse_arm : Tag → ℕ → Bytes → Result ScalarError (Scalar × Bytes)
parse_arm Tag.double tag r = do
  (b, r) ← lift_read (read_bytes 8 r)
  ok (Scalar.double (from_le b), r)
parse_arm Tag.string tag r = do (s, r) ← parse_string r tag; ok (Scalar.string s, r)
parse_arm Tag.binary tag r = do (b, r) ← parse_binary r tag; ok (Scalar.binary b, r)
parse_arm Tag.undefined tag r = ok (Scalar.undefined, r)
parse_arm Tag.object_id tag r = do
  (b, r) ← lift_read (read_bytes 12 r)
  ok (Scalar.object_id (record { bytes = b }), r)
parse_arm Tag.bool tag r = do (b, r) ← parse_bool r tag; ok (Scalar.bool b, r)
parse_arm Tag.date_time tag r = do (v, r) ← lift_read (read_i64_le r); ok (Scalar.date_time v, r)
parse_arm Tag.null tag r = ok (Scalar.null, r)
parse_arm Tag.regex tag r = do
  (pattern_text, r) ← read_cstring_str r tag
  (options, r) ← read_cstring_str r tag
  ok (Scalar.regex (record { pattern_text = pattern_text; options = options }), r)
parse_arm Tag.db_pointer tag r = do
  (namespace, r) ← parse_string r tag
  (b, r) ← lift_read (read_bytes 12 r)
  ok (Scalar.db_pointer (record { namespace = namespace; id = record { bytes = b } }), r)
parse_arm Tag.javascript tag r = do (s, r) ← parse_string r tag; ok (Scalar.javascript s, r)
parse_arm Tag.symbol tag r = do (s, r) ← parse_string r tag; ok (Scalar.symbol s, r)
parse_arm Tag.int32 tag r = do (v, r) ← lift_read (read_i32_le r); ok (Scalar.int32 v, r)
parse_arm Tag.timestamp tag r = do
  (increment, r) ← lift_read (read_u32_le r)
  (seconds, r) ← lift_read (read_u32_le r)
  ok (Scalar.timestamp (record { seconds = seconds; increment = increment }), r)
parse_arm Tag.int64 tag r = do (v, r) ← lift_read (read_i64_le r); ok (Scalar.int64 v, r)
parse_arm Tag.decimal128 tag r = do
  (b, r) ← lift_read (read_bytes 16 r)
  ok (Scalar.decimal128 (record { bytes = b }), r)
parse_arm Tag.min_key tag r = ok (Scalar.min_key, r)
parse_arm Tag.max_key tag r = ok (Scalar.max_key, r)
parse_arm Tag.unknown tag r = err (invalid tag "unknown element type")
parse_arm _ tag r = err (invalid tag "composite type; handled by wirebson")

-- The scalar and the number of bytes consumed.
unfoldable pub parse_scalar : ℕ → Bytes → Result ScalarError (Scalar × ℕ)
unfolding tag_from_u8 parse_arm remaining
parse_scalar tag input = do
  (scalar, r) ← parse_arm (tag_from_u8 tag) tag input
  ok (scalar, length input - remaining r)
