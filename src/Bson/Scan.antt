-- ===== src/Bson/Scan.antt =====
-- wirebson/src/decode.rs: the cursor over a document's fields and the parser of one raw value. The
-- slice `rest` that a value is read from is passed on as the cursor `r`.
use mongowire.Base.{
  ℕ, ◌+◌, ◌-◌, Bool, true, false, not, Option, none, some, Bytes, length, take, drop, get_elem?,
  ltb, ◌==◌, if◌then◌else◌, Result, ok, err, map_err, ◌>>=◌, ◌>>◌, guard, is_utf8, from_le,
  position_nul,
}
use mongowire.Io.{
  read_bytes, read_u8, read_u32_le, read_i32_le, read_i64_le, read_cstring, remaining,
}
use mongowire.Scalar.{Tag, Binary, tag_from_u8, subtype_from_u8, is_old}
use mongowire.Bson.{
  Error, RawBsonRef, short_input, invalid, length_mismatch, utf8, scalar, lift_read, min_doc_len,
}
use mongowire.Bson.Raw.{from_bytes, array_from_bytes, declared_len}

-- `parent.slice(from..to)`
abbrev pub slice : ℕ → ℕ → Bytes → Bytes
slice from to b = take (to - from) (drop from b)

unfoldable pub doc_len : Bytes → ℕ → Result Error ℕ
doc_len rest abs = do
  guard (not (ltb (length rest) 4)) (short_input 4 (length rest))
  let l = declared_len rest
  guard (not (ltb l min_doc_len)) (invalid abs "composite length below minimum")
  guard (not (ltb (length rest) l)) (short_input l (length rest))
  ok l

unfoldable pub read_str : Bytes → ℕ → Result Error (Bytes × Bytes)
read_str r abs = do
  (len, r) ← lift_read (read_u32_le r)
  guard (not (ltb len 1)) (invalid abs "zero-length string")
  (bytes, r) ← lift_read (read_bytes (len - 1) r)
  (nul, r) ← lift_read (read_u8 r)
  guard (nul == 0) (invalid abs "string not NUL-terminated")
  guard (is_utf8 bytes) utf8
  ok (bytes, r)

unfoldable pub read_cstr : Bytes → Result Error (Bytes × Bytes)
read_cstr r = do (bytes, r) ← lift_read (read_cstring r); guard (is_utf8 bytes) utf8; ok (bytes, r)

unfoldable pub binary_payload : Bool → ℕ → Bytes → ℕ → Result Error (ℕ × Bytes)
binary_payload true len r abs = do
  (inner, r) ← lift_read (read_u32_le r)
  guard (inner + 4 == len) (invalid abs "old binary inner length mismatch")
  ok (inner, r)
binary_payload false len r abs = ok (len, r)

unfoldable pub read_binary : Bytes → ℕ → Result Error (Binary × Bytes)
unfolding binary_payload
read_binary r abs = do
  (len, r) ← lift_read (read_u32_le r)
  (b, r) ← lift_read (read_u8 r)
  subtype ← map_err scalar (subtype_from_u8 b)
  (payload, r) ← binary_payload (is_old subtype) len r abs
  (bytes, r) ← lift_read (read_bytes payload r)
  ok (record { subtype = subtype; bytes = bytes }, r)

unfoldable pub read_bool : Bytes → ℕ → Result Error (Bool × Bytes)
read_bool r abs = do
  (b, r) ← lift_read (read_u8 r)
  (if b == 0
      then ok (false, r)
      else if b == 1
      then ok (true, r)
      else err (invalid abs "invalid bool byte"))

-- The arm of code with scope: the total length, the code, and the scope document.
unfoldable pub parse_scope : Bytes → Bytes → ℕ → Result Error (RawBsonRef × Bytes)
unfolding read_str
parse_scope rest parent abs = do
  guard (not (ltb (length rest) 4)) (short_input 4 (length rest))
  let total = from_le (take 4 rest)
  (code, cur) ← read_str (drop 4 rest) (abs + 4)
  let scope_off = length rest - remaining cur
  guard (not (ltb (length rest) (scope_off + 4))) (short_input (scope_off + 4) (length rest))
  let l = from_le (slice scope_off (scope_off + 4) rest)
  guard (not (ltb l min_doc_len)) (invalid (abs + scope_off) "scope length below minimum")
  guard (not (ltb (length rest) (scope_off + l))) (short_input (scope_off + l) (length rest))
  scope ← from_bytes (slice (abs + scope_off) (abs + scope_off + l) parent)
  let actual = scope_off + l
  guard (total == actual) (length_mismatch total actual)
  (taken, r) ← lift_read (read_bytes actual rest)
  ok (RawBsonRef.javascript_scope code scope, r)

-- The arms of the match on the tag.
unfoldable pub value_arm : Tag → Bytes → Bytes → ℕ → Result Error (RawBsonRef × Bytes)
unfolding parse_scope
value_arm Tag.document rest parent abs = do
  l ← doc_len rest abs
  (taken, r) ← lift_read (read_bytes l rest)
  d ← from_bytes (slice abs (abs + l) parent)
  ok (RawBsonRef.document d, r)
value_arm Tag.array rest parent abs = do
  l ← doc_len rest abs
  (taken, r) ← lift_read (read_bytes l rest)
  a ← array_from_bytes (slice abs (abs + l) parent)
  ok (RawBsonRef.array a, r)
value_arm Tag.javascript_scope rest parent abs = parse_scope rest parent abs
value_arm Tag.double r parent abs = do
  (b, r) ← lift_read (read_bytes 8 r)
  ok (RawBsonRef.double (from_le b), r)
value_arm Tag.string r parent abs = do (s, r) ← read_str r abs; ok (RawBsonRef.string s, r)
value_arm Tag.binary r parent abs = do (b, r) ← read_binary r abs; ok (RawBsonRef.binary b, r)
value_arm Tag.undefined r parent abs = ok (RawBsonRef.undefined, r)
value_arm Tag.object_id r parent abs = do
  (b, r) ← lift_read (read_bytes 12 r)
  ok (RawBsonRef.object_id (record { bytes = b }), r)
value_arm Tag.bool r parent abs = do (b, r) ← read_bool r abs; ok (RawBsonRef.bool b, r)
value_arm Tag.date_time r parent abs = do
  (v, r) ← lift_read (read_i64_le r)
  ok (RawBsonRef.date_time v, r)
value_arm Tag.null r parent abs = ok (RawBsonRef.null, r)
value_arm Tag.regex r parent abs = do
  (pattern_text, r) ← read_cstr r
  (options, r) ← read_cstr r
  ok (RawBsonRef.regex (record { pattern_text = pattern_text; options = options }), r)
value_arm Tag.db_pointer r parent abs = do
  (namespace, r) ← read_str r abs
  (b, r) ← lift_read (read_bytes 12 r)
  ok (RawBsonRef.db_pointer (record { namespace = namespace; id = record { bytes = b } }), r)
value_arm Tag.javascript r parent abs = do (s, r) ← read_str r abs; ok (RawBsonRef.javascript s, r)
value_arm Tag.symbol r parent abs = do (s, r) ← read_str r abs; ok (RawBsonRef.symbol s, r)
value_arm Tag.int32 r parent abs = do (v, r) ← lift_read (read_i32_le r); ok (RawBsonRef.int32 v, r)
value_arm Tag.timestamp r parent abs = do
  (increment, r) ← lift_read (read_u32_le r)
  (seconds, r) ← lift_read (read_u32_le r)
  ok (RawBsonRef.timestamp (record { seconds = seconds; increment = increment }), r)
value_arm Tag.int64 r parent abs = do (v, r) ← lift_read (read_i64_le r); ok (RawBsonRef.int64 v, r)
value_arm Tag.decimal128 r parent abs = do
  (b, r) ← lift_read (read_bytes 16 r)
  ok (RawBsonRef.decimal128 (record { bytes = b }), r)
value_arm Tag.min_key r parent abs = ok (RawBsonRef.min_key, r)
value_arm Tag.max_key r parent abs = ok (RawBsonRef.max_key, r)
value_arm Tag.unknown r parent abs = err (invalid abs "unknown element type")

-- The raw value and the number of bytes that it takes.
unfoldable pub parse_value : ℕ → Bytes → Bytes → ℕ → Result Error (RawBsonRef × ℕ)
unfolding tag_from_u8 value_arm remaining
parse_value tag rest parent abs = do
  (v, r) ← value_arm (tag_from_u8 tag) rest parent abs
  ok (v, length rest - remaining r)

pub record Scanner : Type 0 where
  pub parent : Bytes
  pub body : Bytes
  pub offset : ℕ

-- `doc.get(4..).unwrap_or(&[])`
unfoldable pub scanner_new : Bytes → Scanner
scanner_new doc = record { parent = doc; body = drop 4 doc; offset = 0 }

-- The field whose tag byte is `tag` and whose name, at the offset, is `rel` bytes long.
unfoldable pub field_at : Scanner → ℕ → ℕ → Result Error (Option (Bytes × RawBsonRef) × Scanner)
field_at sc tag rel = do
  let name = take rel (drop sc.offset sc.body)
  guard (is_utf8 name) utf8
  let voff = sc.offset + (rel + 1)
  (v, consumed) ← parse_value tag (drop voff sc.body) sc.parent (4 + voff)
  ok (some (name, v), record sc { offset = voff + consumed })

unfoldable pub next_field : Scanner → ℕ → Result Error (Option (Bytes × RawBsonRef) × Scanner)
next_field sc tag = elim (position_nul (drop sc.offset sc.body)) [
  | none ↦ err (short_input (length sc.body + 1) (length sc.body))
  | some rel ↦ field_at sc tag rel
]

-- The next field, or `none` at the terminating NUL.
unfoldable pub next : Scanner → Result Error (Option (Bytes × RawBsonRef) × Scanner)
next sc = elim (get_elem? sc.body sc.offset) [
  | none ↦ err (short_input (sc.offset + 1) (length sc.body))
  | some tag ↦
      if tag == 0
      then (do
        guard (sc.offset + 1 == length sc.body)
            (invalid sc.offset "data after end-of-document marker")
        ok (none, sc))
      else next_field (record sc { offset = sc.offset + 1 }) tag
]
