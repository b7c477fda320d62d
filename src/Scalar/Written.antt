-- ===== src/Scalar/Written.antt =====
-- mongo_common/src/bson/scalar.rs: what `encode_scalar` writes, in plain terms, and which values it
-- writes.
use mongowire.Base.{
  ℕ, ◌+◌, ◌<◌, ◌≡◌, refl, Bool, true, false, [], ◌∷◌, ◌++◌, append_assoc, append-nil, Bytes,
  i32_half, length, to_le, length-to_le, length-append, ok, arith, contains_nul, bind_ok,
}
use mongowire.Io.{i32_to_le, i64_to_le}
use mongowire.Scalar.{
  Scalar, BinarySubtype, Binary, Regex, double, string, binary, object_id, bool, date_time, regex,
  db_pointer, javascript, symbol, int32, timestamp, int64, decimal128, binary_old, subtype_to_u8,
  is_old,
}
use mongowire.Scalar.Encode.{encode_string, encode_binary, encode_regex, encode_arm, encode_scalar}

-- A length-prefixed string on the wire.
abbrev pub string_bytes : Bytes → Bytes
string_bytes v = to_le 4 (length v + 1) ++ (v ++ 0 ∷ [])

-- The outer length of a binary value counts the inner length of the obsolete subtype.
abbrev pub binary_bytes : Bool → ℕ → Bytes → Bytes
binary_bytes true b v = to_le 4 (length v + 4) ++ (b ∷ (to_le 4 (length v) ++ v))
binary_bytes false b v = to_le 4 (length v) ++ (b ∷ v)

-- The wire form of each scalar.
abbrev pub scalar_bytes : Scalar → Bytes
scalar_bytes (double v) = to_le 8 v
scalar_bytes (string v) = string_bytes v
scalar_bytes (binary b) = binary_bytes (is_old b.subtype) (subtype_to_u8 b.subtype) b.bytes
scalar_bytes (object_id v) = v.bytes
scalar_bytes (bool true) = 1 ∷ []
scalar_bytes (bool false) = 0 ∷ []
scalar_bytes (date_time v) = i64_to_le v
scalar_bytes (regex r) = r.pattern_text ++ 0 ∷ (r.options ++ 0 ∷ [])
scalar_bytes (db_pointer p) = string_bytes p.namespace ++ p.id.bytes
scalar_bytes (javascript v) = string_bytes v
scalar_bytes (symbol v) = string_bytes v
scalar_bytes (int32 v) = i32_to_le v
scalar_bytes (timestamp t) = to_le 4 t.increment ++ to_le 4 t.seconds
scalar_bytes (int64 v) = i64_to_le v
scalar_bytes (decimal128 v) = v.bytes
scalar_bytes _ = []

-- What the encoder checks: lengths fit an i32, and the parts of a regex hold no NUL.
abbrev pub StringFits : Bytes → Type 0
StringFits v = length v + 1 < i32_half

abbrev pub BinaryFits : Bool → Bytes → Type 0
BinaryFits true v = length v + 4 < i32_half
BinaryFits false v = length v < i32_half

abbrev pub IsEncodable : Scalar → Type 0
IsEncodable (string v) = StringFits v
IsEncodable (binary b) = BinaryFits (is_old b.subtype) b.bytes
IsEncodable (regex r) = (contains_nul r.pattern_text ≡ false) × (contains_nul r.options ≡ false)
IsEncodable (db_pointer p) = StringFits p.namespace
IsEncodable (javascript v) = StringFits v
IsEncodable (symbol v) = StringFits v
IsEncodable _ = Unit {0}

-- The parts of a regex are NUL-terminated on the wire.
abbrev pub HasNoNul : Scalar → Type 0
HasNoNul (regex r) = (contains_nul r.pattern_text ≡ false) × (contains_nul r.options ≡ false)
HasNoNul _ = Unit {0}

append_four : (o a b c : Bytes) → ((o ++ a) ++ b) ++ c ≡ o ++ (a ++ (b ++ c))
append_four o a b c = simp append_assoc

encode_string-ok :
    (v out out' : Bytes)
    → encode_string v out ≡ ok out'
    → StringFits v × (out' ≡ out ++ string_bytes v)
unfolding encode_string
encode_string-ok v out out' h = ground (arith, append_four out (to_le 4 (length v + 1)) v (0 ∷ []))

encode_binary-ok :
    (b : Binary) (out out' : Bytes)
    → encode_binary b out ≡ ok out'
    → BinaryFits (is_old b.subtype) b.bytes × (out' ≡ out ++ scalar_bytes (binary b))
unfolding encode_binary
encode_binary-ok b out out' h =
    let b8 = subtype_to_u8 b.subtype in
    let n = length b.bytes in
    ground (
      arith,
      append_four out (to_le 4 n) (b8 ∷ []) b.bytes,
      append_four (out ++ to_le 4 (n + 4)) (b8 ∷ []) (to_le 4 n) b.bytes,
      append_assoc out (to_le 4 (n + 4)) (b8 ∷ (to_le 4 n ++ b.bytes)),
    )

encode_regex-ok :
    (r : Regex) (out out' : Bytes)
    → encode_regex r out ≡ ok out'
    → IsEncodable (regex r) × (out' ≡ out ++ scalar_bytes (regex r))
unfolding encode_regex
encode_regex-ok r out out' h = ground (
  arith,
  append_four (out ++ r.pattern_text) (0 ∷ []) r.options (0 ∷ []),
  append_assoc out r.pattern_text (0 ∷ (r.options ++ 0 ∷ [])),
)

-- A successful encoding keeps the buffer and appends the wire form.
encode_arm-ok :
    (s : Scalar) (out out' : Bytes)
    → encode_arm s out ≡ ok out'
    → IsEncodable s × (out' ≡ out ++ scalar_bytes s)
unfolding encode_arm
encode_arm-ok (string v) out out' h = encode_string-ok v out out' h
encode_arm-ok (javascript v) out out' h = encode_string-ok v out out' h
encode_arm-ok (symbol v) out out' h = encode_string-ok v out out' h
encode_arm-ok (binary b) out out' h = encode_binary-ok b out out' h
encode_arm-ok (regex r) out out' h = encode_regex-ok r out out' h
encode_arm-ok (db_pointer p) out out' h = bind_ok (encode_string p.namespace out) _ h λ out1 e f.
    let (fits, e1) = encode_string-ok p.namespace out out1 e in
    (fits, cc (e1, f, append_assoc out (string_bytes p.namespace) p.id.bytes))
encode_arm-ok (bool true) out out' h = (tt, cc)
encode_arm-ok (bool false) out out' h = (tt, cc)
encode_arm-ok (timestamp t) out out' h =
    ground (arith, append_assoc out (to_le 4 t.increment) (to_le 4 t.seconds))
encode_arm-ok (double v) out out' h = (tt, cc)
encode_arm-ok (object_id v) out out' h = (tt, cc)
encode_arm-ok (date_time v) out out' h = (tt, cc)
encode_arm-ok (int32 v) out out' h = (tt, cc)
encode_arm-ok (int64 v) out out' h = (tt, cc)
encode_arm-ok (decimal128 v) out out' h = (tt, cc)
encode_arm-ok _ out out' h = (tt, cc (append-nil out))

length-string_bytes : (v : Bytes) → length (string_bytes v) ≡ length v + 5
length-string_bytes v = omega (
  arith,
  length-append (to_le 4 (length v + 1)) (v ++ 0 ∷ []),
  length-append v (0 ∷ []),
  length-to_le 4 (length v + 1),
)

binary_fits :
    (old : Bool) (b : ℕ) (v : Bytes) → length (binary_bytes old b v) < i32_half → BinaryFits old v
binary_fits true b v h = omega (
  arith,
  length-append (to_le 4 (length v + 4)) (b ∷ (to_le 4 (length v) ++ v)),
  length-append (to_le 4 (length v)) v,
  length-to_le 4 (length v + 4),
  length-to_le 4 (length v),
)
binary_fits false b v h =
    omega (arith, length-append (to_le 4 (length v)) (b ∷ v), length-to_le 4 (length v))

-- A value whose wire form is short enough passes the encoder's checks.
pub IsEncodable-of-length :
    (s : Scalar) → length (scalar_bytes s) < i32_half → HasNoNul s → IsEncodable s
IsEncodable-of-length (string v) h k = omega (arith, length-string_bytes v)
IsEncodable-of-length (javascript v) h k = omega (arith, length-string_bytes v)
IsEncodable-of-length (symbol v) h k = omega (arith, length-string_bytes v)
IsEncodable-of-length (binary b) h k =
    binary_fits (is_old b.subtype) (subtype_to_u8 b.subtype) b.bytes h
IsEncodable-of-length (regex r) h k = k
IsEncodable-of-length (db_pointer p) h k =
    omega
      (arith, length-string_bytes p.namespace, length-append (string_bytes p.namespace) p.id.bytes)
IsEncodable-of-length (double v) h k = tt
IsEncodable-of-length _ h k = tt

encode_string_complete :
    (v out : Bytes) → StringFits v → encode_string v out ≡ ok (out ++ string_bytes v)
unfolding encode_string
encode_string_complete v out h = ground (arith, append_four out (to_le 4 (length v + 1)) v (0 ∷ []))

encode_binary_complete :
    (t : BinarySubtype) (v out : Bytes)
    → BinaryFits (is_old t) v
    → encode_binary (record { subtype = t; bytes = v }) out
      ≡ ok (out ++ binary_bytes (is_old t) (subtype_to_u8 t) v)
unfolding encode_binary is_old
encode_binary_complete binary_old v out h = ground (
  arith,
  append_four (out ++ to_le 4 (length v + 4)) (2 ∷ []) (to_le 4 (length v)) v,
  append_assoc out (to_le 4 (length v + 4)) (2 ∷ (to_le 4 (length v) ++ v)),
)
encode_binary_complete t v out h =
    ground (arith, append_four out (to_le 4 (length v)) (subtype_to_u8 t ∷ []) v)

-- What the encoder's checks admit is written.
pub encode_arm_complete :
    (s : Scalar) (out : Bytes) → IsEncodable s → encode_arm s out ≡ ok (out ++ scalar_bytes s)
unfolding encode_arm
encode_arm_complete (string v) out h = encode_string_complete v out h
encode_arm_complete (javascript v) out h = encode_string_complete v out h
encode_arm_complete (symbol v) out h = encode_string_complete v out h
encode_arm_complete (binary b) out h = encode_binary_complete b.subtype b.bytes out h
encode_arm_complete (regex r) out h =
    unfold encode_regex in
    ground (
      arith,
      append_four (out ++ r.pattern_text) (0 ∷ []) r.options (0 ∷ []),
      append_assoc out r.pattern_text (0 ∷ (r.options ++ 0 ∷ [])),
    )
encode_arm_complete (db_pointer p) out h =
    rw (encode_string_complete p.namespace out h)
      (rw (append_assoc out (string_bytes p.namespace) p.id.bytes))
encode_arm_complete (bool true) out h = refl
encode_arm_complete (bool false) out h = refl
encode_arm_complete (timestamp t) out h =
    rw (append_assoc out (to_le 4 t.increment) (to_le 4 t.seconds))
encode_arm_complete (double v) out h = refl
encode_arm_complete (object_id v) out h = refl
encode_arm_complete (date_time v) out h = refl
encode_arm_complete (int32 v) out h = refl
encode_arm_complete (int64 v) out h = refl
encode_arm_complete (decimal128 v) out h = refl
encode_arm_complete _ out h = rw append-nil

-- `encode_scalar` appends the wire form to the buffer and returns its length.
pub encode_scalar-ok :
    (s : Scalar) (out out' : Bytes) (n : ℕ)
    → encode_scalar s out ≡ ok (n, out')
    → IsEncodable s × (out' ≡ out ++ scalar_bytes s) × (n ≡ length (scalar_bytes s))
unfolding encode_scalar
encode_scalar-ok s out out' n h = bind_ok (encode_arm s out) _ h λ o e f.
    let (fits, e1) = encode_arm-ok s out o e in
    (fits, cc (e1, f), ground (arith, e1, f, length-append out (scalar_bytes s)))
