-- ===== src/Scalar/Laws.antt =====
-- mongo_common/src/bson/scalar.rs: `parse_scalar` reads back what `encode_scalar` wrote.
use mongowire.Base.{
  ℕ, ◌+◌, ◌-◌, ◌≡◌, refl, true, false, [], ◌∷◌, ◌++◌, append_assoc, Bytes, length, to_le,
  from_le-to_le, length-to_le, length-append, ok, err, stuck, arith, contains_nul, Result, map_ok,
  ◌>>=◌,
}
use mongowire.Io.Laws.{
  read_bytes-at, read_u8-cons, read_u32_le-append, read_i32_le-append, read_i64_le-append,
  read_cstring-append,
}
use mongowire.Scalar.{
  Scalar, double, string, binary, undefined, object_id, bool, date_time, regex, db_pointer,
  javascript, symbol, int32, timestamp, int64, decimal128, IsText, IsScalar, ScalarError, tag_of,
  tag_from_u8, scalar_tag,
}
use mongowire.Scalar.Parse.{parse_string, read_cstring_str, parse_bool, parse_arm, parse_scalar}
use mongowire.Scalar.Encode.{encode_scalar}
use mongowire.Scalar.Written.{string_bytes, scalar_bytes, StringFits, IsEncodable, encode_scalar-ok}
use mongowire.Scalar.Binaries.{subtype_back, HasOwnLayout, parse_binary-binary_bytes, map_ok-binary}

pub string_bytes-append :
    (v rest : Bytes) → string_bytes v ++ rest ≡ to_le 4 (length v + 1) ++ (v ++ 0 ∷ rest)
string_bytes-append v rest = simp append_assoc

parse_string-string_bytes :
    (v rest : Bytes) (tag : ℕ)
    → IsText v
    → StringFits v
    → parse_string (string_bytes v ++ rest) tag ≡ ok (v, rest)
unfolding parse_string
parse_string-string_bytes v rest tag (hb, hu) fits = ground (
  arith,
  string_bytes-append v rest,
  read_u32_le-append (length v + 1) (v ++ 0 ∷ rest) (omega arith),
  read_bytes-at (length v + 1 - 1) v (0 ∷ rest) (omega arith),
  read_u8-cons 0 rest,
)

read_cstring_str-append :
    (v rest : Bytes) (tag : ℕ)
    → IsText v
    → contains_nul v ≡ false
    → read_cstring_str (v ++ 0 ∷ rest) tag ≡ ok (v, rest)
unfolding read_cstring_str
read_cstring_str-append v rest tag (hb, hu) h = rw (read_cstring-append v rest h) (rw hu)

-- What a value is read back as.
abbrev pub scalar_back : Scalar → Result ScalarError Scalar
scalar_back (binary b) = map_ok (λ t. binary (record b { subtype = t })) (subtype_back b.subtype)
scalar_back s = ok s

-- No user-defined binary subtype with the byte 2.
abbrev pub IsReadable : Scalar → Type 0
IsReadable (binary b) = HasOwnLayout b.subtype
IsReadable _ = Unit {0}

pub tag_from_u8-tag_of : (s : Scalar) → tag_from_u8 (tag_of s) ≡ scalar_tag s
unfolding tag_from_u8 tag_of
tag_from_u8-tag_of (double v) = refl
tag_from_u8-tag_of _ = refl

pub parse_arm-scalar_bytes :
    (s : Scalar) (tag : ℕ) (rest : Bytes)
    → IsScalar s
    → IsReadable s
    → IsEncodable s
    → parse_arm (scalar_tag s) tag (scalar_bytes s ++ rest)
      ≡ map_ok (λ s'. (s', rest)) (scalar_back s)
unfolding parse_arm scalar_tag
parse_arm-scalar_bytes (double v) tag rest h own fits =
    rw (read_bytes-at 8 (to_le 8 v) rest (length-to_le 8 v)) (rw (from_le-to_le 8 v h))
parse_arm-scalar_bytes (string v) tag rest h own fits =
    rw (parse_string-string_bytes v rest tag h fits)
parse_arm-scalar_bytes (binary b) tag rest h own fits =
    rw (parse_binary-binary_bytes b.subtype b.bytes rest tag own fits)
      (map_ok-binary b.bytes rest (subtype_back b.subtype))
parse_arm-scalar_bytes (object_id v) tag rest h own fits = rw (read_bytes-at 12 v.bytes rest h.1)
parse_arm-scalar_bytes (bool true) tag rest h own fits =
    unfold parse_bool in rw (read_u8-cons 1 rest)
parse_arm-scalar_bytes (bool false) tag rest h own fits =
    unfold parse_bool in rw (read_u8-cons 0 rest)
parse_arm-scalar_bytes (date_time v) tag rest h own fits = rw (read_i64_le-append v rest h)
parse_arm-scalar_bytes (regex r) tag rest (hp, ho) own (np, no_nul) =
    rw
      (
        append_assoc r.pattern_text (0 ∷ (r.options ++ 0 ∷ [])) rest,
        append_assoc r.options (0 ∷ []) rest,
      )
      (rw (read_cstring_str-append r.pattern_text (r.options ++ 0 ∷ rest) tag hp np)
        (rw (read_cstring_str-append r.options rest tag ho no_nul)))
parse_arm-scalar_bytes (db_pointer p) tag rest (hn, hi) own fits =
    rw (append_assoc (string_bytes p.namespace) p.id.bytes rest) (
      rw (parse_string-string_bytes p.namespace (p.id.bytes ++ rest) tag hn fits)
        (rw (read_bytes-at 12 p.id.bytes rest hi.1)))
parse_arm-scalar_bytes (javascript v) tag rest h own fits =
    rw (parse_string-string_bytes v rest tag h fits)
parse_arm-scalar_bytes (symbol v) tag rest h own fits =
    rw (parse_string-string_bytes v rest tag h fits)
parse_arm-scalar_bytes (int32 v) tag rest h own fits = rw (read_i32_le-append v rest h)
parse_arm-scalar_bytes (timestamp t) tag rest (hs, hi) own fits =
    rw (append_assoc (to_le 4 t.increment) (to_le 4 t.seconds) rest) (
      rw (read_u32_le-append t.increment (to_le 4 t.seconds ++ rest) hi)
        (rw (read_u32_le-append t.seconds rest hs)))
parse_arm-scalar_bytes (int64 v) tag rest h own fits = rw (read_i64_le-append v rest h)
parse_arm-scalar_bytes (decimal128 v) tag rest h own fits = rw (read_bytes-at 16 v.bytes rest h.1)
parse_arm-scalar_bytes undefined tag rest h own fits = refl
parse_arm-scalar_bytes _ tag rest h own fits = refl

consumed :
    (back : Result ScalarError Scalar) (enc rest : Bytes) (n : ℕ)
    → n ≡ length enc
    → ◌>>=◌ {A = Scalar × Bytes} {B = Scalar × ℕ}
        (map_ok (λ s. (s, rest)) back)
        (λ p. ok (p.0, length (enc ++ rest) - length p.1))
      ≡ map_ok (λ s. (s, n)) back
consumed (ok s) enc rest n e = ground (arith, length-append enc rest)
consumed (err x) enc rest n e = refl
consumed stuck enc rest n e = refl

-- Every value that `encode_scalar` can write, but for a user-defined binary subtype with the byte 2,
-- is read back by `parse_scalar` under its tag, whatever bytes follow, and the number consumed is the
-- number written; a user-defined subtype is read back as what its byte stands for, which below 0x80 is
-- a predefined subtype or an error.
pub parse_scalar-encode_scalar :
    (s : Scalar) (out out' rest : Bytes) (n : ℕ)
    → IsScalar s
    → IsReadable s
    → encode_scalar s out ≡ ok (n, out')
    → (enc : Bytes) × (out' ≡ out ++ enc)
      × (parse_scalar (tag_of s) (enc ++ rest) ≡ map_ok (λ s'. (s', n)) (scalar_back s))
unfolding parse_scalar
parse_scalar-encode_scalar s out out' rest n hs own h =
    let (fits, e, en) = encode_scalar-ok s out out' n h in
    (
      scalar_bytes s,
      e,
      rw (tag_from_u8-tag_of s, parse_arm-scalar_bytes s (tag_of s) rest hs own fits)
          (consumed (scalar_back s) (scalar_bytes s) rest n en),
    )
