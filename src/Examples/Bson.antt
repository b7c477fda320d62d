-- ===== src/Examples/Bson.antt =====
-- Runs of the BSON codec: scalars, identifiers, raw values, whole documents.
use mongowire.Base.{
  ◌+◌, ◌-◌, ◌^◌, ◌⊎◌, pos, some, true, contains_nul, ◌<◌, ◌≡◌, ◌≢◌, ◌↔◌, refl, false, [], ◌∷◌, ◌++◌,
  Bytes, i32_half, length, take, ok, stuck, is_utf8, to_le, from_le, arith, map_ok,
}
use mongowire.Io.{
  put_cstring, placeholder_i32, put_i32_le_at, put_u8_at, read_bytes, read_u8, read_u32_le, put_u8,
  put_bytes, put_i32_le,
}
use mongowire.Scalar.{
  tag_to_u8, scalar_tag, Scalar, ObjectId, IsScalar, IsCanonical, tag_of, tag_from_u8,
}
use mongowire.Scalar.Parse.{parse_scalar, parse_arm, parse_string, read_u32_as_usize}
use mongowire.Scalar.Encode.{encode_scalar, encode_arm, encode_string}
use mongowire.Scalar.Laws.{parse_scalar-encode_scalar}
use mongowire.Scalar.Reencode.{encode_scalar-parse_scalar}
use mongowire.Scalar.Convert.{
  in_range, to_i64, integer_of, try_from_numeric, try_from_numeric_exact,
}
use mongowire.Scalar.Hex.{to_hex, from_hex, from_hex-to_hex}
use mongowire.Bson.{Fields, field, no_fields, null, as_scalar, tag}
use mongowire.Bson.Encode.{
  encode, encode_document, encode_composite, encode_fields, encode_value, field_head, patch_len,
  encode_plain,
}
use mongowire.Bson.Encode.Written.{framed, fields_bytes, encode-framed}
use mongowire.Bson.Raw.{from_bytes, IsRaw, from_bytes_iff}
use mongowire.Bson.Scan.{parse_value}
use mongowire.Bson.Agree.{is_composite, value_of, counted, parse_value-parse_scalar}
use mongowire.Bson.Decode.{deep, decode_document, decode_array, shallow_document, deep_document}
use mongowire.Bson.Decode.Shape.{shallow_document-deep_document}
use mongowire.Bson.Decode.Ends.{decode_document-ne-stuck}
use mongowire.Examples.{null_document, all_bytes-AreBytes}

-- The text "hi".
abbrev hi : Scalar
hi = Scalar.string (104 ∷ 105 ∷ [])

abbrev hi_bytes : Bytes
hi_bytes = 3 ∷ 0 ∷ 0 ∷ 0 ∷ 104 ∷ 105 ∷ 0 ∷ []

hi-IsScalar : IsScalar hi
unfolding is_utf8
hi-IsScalar = (all_bytes-AreBytes (104 ∷ 105 ∷ []) refl, refl)

hi_written : encode_scalar hi [] ≡ ok (7, hi_bytes)
unfolding encode_scalar encode_arm encode_string put_u8 put_bytes put_i32_le to_le
hi_written = refl

hi_read : parse_scalar 2 (hi_bytes ++ 9 ∷ []) ≡ ok (hi, 7)
unfolding parse_scalar parse_arm parse_string read_u32_as_usize tag_from_u8 read_u32_le read_bytes
    read_u8 from_le is_utf8
hi_read = refl

parse_scalar-encode_scalar_example :
    (enc : Bytes) × (hi_bytes ≡ [] ++ enc) × (parse_scalar (tag_of hi) (enc ++ 9 ∷ []) ≡ ok (hi, 7))
parse_scalar-encode_scalar_example =
    parse_scalar-encode_scalar hi [] hi_bytes (9 ∷ []) 7 hi-IsScalar tt hi_written

hi_small : length (hi_bytes ++ 9 ∷ []) < i32_half
hi_small = omega arith

encode_scalar-parse_scalar_example :
    IsCanonical hi
    × (tag_of hi ≡ 2)
    × (encode_scalar hi (1 ∷ []) ≡ ok (7, (1 ∷ []) ++ take 7 (hi_bytes ++ 9 ∷ [])))
encode_scalar-parse_scalar_example =
    encode_scalar-parse_scalar 2 (hi_bytes ++ 9 ∷ []) (1 ∷ []) hi 7
      (all_bytes-AreBytes (hi_bytes ++ 9 ∷ []) refl) hi_small hi_read

abbrev an_id : ObjectId
an_id = record { bytes = 1 ∷ 2 ∷ 3 ∷ 4 ∷ 5 ∷ 6 ∷ 7 ∷ 8 ∷ 9 ∷ 10 ∷ 171 ∷ 255 ∷ [] }

from_hex-to_hex_example : from_hex (to_hex an_id) ≡ ok an_id
from_hex-to_hex_example = from_hex-to_hex an_id (all_bytes-AreBytes an_id.bytes refl, refl)

string_not_composite : is_composite (tag_from_u8 2) ≡ false
unfolding is_composite tag_from_u8
string_not_composite = refl

parse_value-parse_scalar_example :
    value_of (parse_value 2 hi_bytes hi_bytes 0)
    ≡ value_of (map_ok counted (parse_scalar 2 hi_bytes))
parse_value-parse_scalar_example =
    parse_value-parse_scalar 2 hi_bytes hi_bytes 0 string_not_composite

from_bytes_iff_example :
    (from_bytes null_document.bytes ≡ ok null_document)
    ↔ ((null_document.bytes ≡ null_document.bytes) × IsRaw null_document.bytes)
from_bytes_iff_example = from_bytes_iff null_document.bytes null_document

shallow_document-deep_document_example :
    shallow_document null_document ≡ deep_document null_document
shallow_document-deep_document_example = shallow_document-deep_document null_document

decode_document-ne-stuck_example :
    (decode_document null_document.bytes deep 1 ≢ stuck)
    × (decode_array null_document.bytes deep 1 ≢ stuck)
decode_document-ne-stuck_example = decode_document-ne-stuck null_document.bytes deep 1

abbrev null_fields : Fields
null_fields = field (97 ∷ []) null no_fields

null_fields_encoded : encode null_fields ≡ ok null_document
unfolding encode encode_document encode_composite encode_fields encode_value field_head patch_len
    encode_plain tag_to_u8 scalar_tag put_u8 put_bytes put_cstring placeholder_i32 put_i32_le_at
    put_u8_at from_bytes from_le to_le contains_nul encode_scalar encode_arm as_scalar tag
null_fields_encoded = refl

encode-framed_example :
    (null_document.bytes ≡ framed (fields_bytes null_fields))
    × IsRaw null_document.bytes
    × (length (fields_bytes null_fields) + 5 < i32_half)
encode-framed_example = encode-framed null_fields null_document null_fields_encoded

-- The double 2^63.
try_from_numeric_exact_example :
    (in_range to_i64 (pos (2 ^ 63 - 1)) ≡ true)
    × ((integer_of (Scalar.double 0x43e0000000000000) ≡ some (pos (2 ^ 63 - 1)))
        ⊎ ((integer_of (Scalar.double 0x43e0000000000000) ≡ some (pos (2 ^ 63)))
            × (pos (2 ^ 63 - 1) ≡ pos (2 ^ 63 - 1))))
unfolding try_from_numeric
try_from_numeric_exact_example =
    try_from_numeric_exact to_i64 (Scalar.double 0x43e0000000000000) (pos (2 ^ 63 - 1)) refl
