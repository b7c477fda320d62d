-- ===== src/Bson.antt =====
-- wirebson/src: the eager and raw BSON values (value.rs, document.rs, array.rs, raw_value.rs), the
-- crate's error type (error.rs), and the limit on nesting (lib.rs). `Bson`, the fields of a
-- `Document` and the values of an `Array` are one mutual block.
pub mod Raw
pub mod Scan
pub mod Agree
pub mod Decode
pub mod Encode
pub mod Names
pub mod Document
use mongowire.Base.{
  ℕ, zero, suc, ◌+◌, max, ◌<◌, ◌≡◌, refl, Bool, Option, none, some, Bytes, AreBytes, ℤ, String,
  length, Result, map_err, ok, err, arith,
}
use mongowire.Io.{ReadError, short_input as read_short, invalid as read_invalid}
use mongowire.Scalar.{
  Scalar, ScalarError, Tag, Binary, ObjectId, Regex, DbPointer, Timestamp, Decimal128, tag_to_u8,
  IsText, scalar_tag,
}

abbrev pub max_nesting_depth : ℕ
max_nesting_depth = 20

abbrev pub min_doc_len : ℕ
min_doc_len = 5

-- A fixed text, or the one that names a declared length.
pub data Reason : Type 0 where
  text : String → Reason
  below_minimum : ℕ → Reason

pub data Error : Type 0 where
  short_input : ℕ → ℕ → Error
  invalid_input : ℕ → Reason → Error
  length_mismatch : ℕ → ℕ → Error
  utf8 : Error
  nested_too_deep : ℕ → Error
  scalar : ScalarError → Error

abbrev pub invalid : ℕ → String → Error
invalid offset reason = invalid_input offset (text reason)

-- `map_read` of decode.rs
unfoldable pub map_read : ReadError → Error
map_read (read_short needed got) = short_input needed got
map_read (read_invalid reason) = invalid 0 reason

abbrev pub lift_read : {A : Type 0} → Result ReadError A → Result Error A
lift_read = map_err map_read

-- The bytes of a document, validated by `from_bytes` of Raw.
pub record RawDocument : Type 0 where
  pub bytes : Bytes

pub record RawArray : Type 0 where
  pub bytes : Bytes

mutual
  pub data Bson : Type 0 where
    double : ℕ → Bson
    string : Bytes → Bson
    document : Fields → Bson
    array : Values → Bson
    binary : Binary → Bson
    undefined : Bson
    object_id : ObjectId → Bson
    bool : Bool → Bson
    date_time : ℤ → Bson
    null : Bson
    regex : Regex → Bson
    db_pointer : DbPointer → Bson
    javascript : Bytes → Bson
    symbol : Bytes → Bson
    javascript_scope : Bytes → RawDocument → Bson
    int32 : ℤ → Bson
    timestamp : Timestamp → Bson
    int64 : ℤ → Bson
    decimal128 : Decimal128 → Bson
    min_key : Bson
    max_key : Bson

  pub data Fields : Type 0 where
    no_fields : Fields
    field : Bytes → Bson → Fields → Fields

  pub data Values : Type 0 where
    no_values : Values
    value : Bson → Values → Values

pub data RawBsonRef : Type 0 where
  double : ℕ → RawBsonRef
  string : Bytes → RawBsonRef
  document : RawDocument → RawBsonRef
  array : RawArray → RawBsonRef
  binary : Binary → RawBsonRef
  undefined : RawBsonRef
  object_id : ObjectId → RawBsonRef
  bool : Bool → RawBsonRef
  date_time : ℤ → RawBsonRef
  null : RawBsonRef
  regex : Regex → RawBsonRef
  db_pointer : DbPointer → RawBsonRef
  javascript : Bytes → RawBsonRef
  symbol : Bytes → RawBsonRef
  javascript_scope : Bytes → RawDocument → RawBsonRef
  int32 : ℤ → RawBsonRef
  timestamp : Timestamp → RawBsonRef
  int64 : ℤ → RawBsonRef
  decimal128 : Decimal128 → RawBsonRef
  min_key : RawBsonRef
  max_key : RawBsonRef

-- `Bson::tag`, as a tag and as its byte.
unfoldable pub bson_tag : Bson → Tag
bson_tag (Bson.double _) = Tag.double
bson_tag (Bson.string _) = Tag.string
bson_tag (Bson.document _) = Tag.document
bson_tag (Bson.array _) = Tag.array
bson_tag (Bson.binary _) = Tag.binary
bson_tag Bson.undefined = Tag.undefined
bson_tag (Bson.object_id _) = Tag.object_id
bson_tag (Bson.bool _) = Tag.bool
bson_tag (Bson.date_time _) = Tag.date_time
bson_tag Bson.null = Tag.null
bson_tag (Bson.regex _) = Tag.regex
bson_tag (Bson.db_pointer _) = Tag.db_pointer
bson_tag (Bson.javascript _) = Tag.javascript
bson_tag (Bson.symbol _) = Tag.symbol
bson_tag (Bson.javascript_scope _ _) = Tag.javascript_scope
bson_tag (Bson.int32 _) = Tag.int32
bson_tag (Bson.timestamp _) = Tag.timestamp
bson_tag (Bson.int64 _) = Tag.int64
bson_tag (Bson.decimal128 _) = Tag.decimal128
bson_tag Bson.min_key = Tag.min_key
bson_tag Bson.max_key = Tag.max_key

unfoldable pub tag : Bson → ℕ
unfolding bson_tag tag_to_u8
tag v = tag_to_u8 (bson_tag v)

unfoldable pub as_scalar : Bson → Option Scalar
as_scalar (Bson.double v) = some (Scalar.double v)
as_scalar (Bson.string v) = some (Scalar.string v)
as_scalar (Bson.binary v) = some (Scalar.binary v)
as_scalar Bson.undefined = some Scalar.undefined
as_scalar (Bson.object_id v) = some (Scalar.object_id v)
as_scalar (Bson.bool v) = some (Scalar.bool v)
as_scalar (Bson.date_time v) = some (Scalar.date_time v)
as_scalar Bson.null = some Scalar.null
as_scalar (Bson.regex v) = some (Scalar.regex v)
as_scalar (Bson.db_pointer v) = some (Scalar.db_pointer v)
as_scalar (Bson.javascript v) = some (Scalar.javascript v)
as_scalar (Bson.symbol v) = some (Scalar.symbol v)
as_scalar (Bson.int32 v) = some (Scalar.int32 v)
as_scalar (Bson.timestamp v) = some (Scalar.timestamp v)
as_scalar (Bson.int64 v) = some (Scalar.int64 v)
as_scalar (Bson.decimal128 v) = some (Scalar.decimal128 v)
as_scalar Bson.min_key = some Scalar.min_key
as_scalar Bson.max_key = some Scalar.max_key
as_scalar _ = none

-- `From<Scalar> for Bson`
unfoldable pub from_scalar : Scalar → Bson
from_scalar (Scalar.double v) = Bson.double v
from_scalar (Scalar.string v) = Bson.string v
from_scalar (Scalar.binary v) = Bson.binary v
from_scalar Scalar.undefined = Bson.undefined
from_scalar (Scalar.object_id v) = Bson.object_id v
from_scalar (Scalar.bool v) = Bson.bool v
from_scalar (Scalar.date_time v) = Bson.date_time v
from_scalar Scalar.null = Bson.null
from_scalar (Scalar.regex v) = Bson.regex v
from_scalar (Scalar.db_pointer v) = Bson.db_pointer v
from_scalar (Scalar.javascript v) = Bson.javascript v
from_scalar (Scalar.symbol v) = Bson.symbol v
from_scalar (Scalar.int32 v) = Bson.int32 v
from_scalar (Scalar.timestamp v) = Bson.timestamp v
from_scalar (Scalar.int64 v) = Bson.int64 v
from_scalar (Scalar.decimal128 v) = Bson.decimal128 v
from_scalar Scalar.min_key = Bson.min_key
from_scalar Scalar.max_key = Bson.max_key

-- Between a scalar value and its scalar nothing is lost, and the tags agree.
pub as_scalar-some :
    (v : Bson) (s : Scalar)
    → as_scalar v ≡ some s
    → (v ≡ from_scalar s) × (bson_tag v ≡ scalar_tag s)
unfolding as_scalar from_scalar bson_tag scalar_tag
as_scalar-some (Bson.double v) s h = ground arith
as_scalar-some _ s h = ground arith

pub as_scalar-from_scalar : (s : Scalar) → as_scalar (from_scalar s) ≡ some s
unfolding as_scalar from_scalar
as_scalar-from_scalar (Scalar.double v) = refl
as_scalar-from_scalar _ = refl
