-- ===== src/Scalar.antt =====
-- mongo_common/src/bson/scalar.rs: the BSON scalar types, their tags, and the parser and encoder of
-- one scalar value. A Rust `String` is the list of its UTF-8 bytes, an f64 its 64 bits; the fixed
-- arrays of ObjectId and Decimal128 are byte lists.
pub mod Parse
pub mod Encode
pub mod Written
pub mod Binaries
pub mod Laws
pub mod Reencode
pub mod Hex
pub mod Convert
use mongowire.Base.{
  ℕ, ◌+◌, ◌<◌, ◌≤◌, ◌^◌, ◌≡◌, Bool, true, false, Bytes, AreBytes, ℤ, Fits, i32_half, i64_half,
  String, length, leb, ltb, ◌==◌, ◌&&◌, if◌then◌else◌, Result, ok, err, map_err, is_utf8,
}
use mongowire.Io.{ReadError, short_input as read_short, invalid as read_invalid}

pub data BinarySubtype : Type 0 where
  generic function binary_old uuid_old uuid md5 encrypted : BinarySubtype
  user_defined : ℕ → BinarySubtype

pub record ObjectId : Type 0 where
  pub bytes : Bytes

pub record Timestamp : Type 0 where
  pub seconds : ℕ
  pub increment : ℕ

pub record Regex : Type 0 where
  pub pattern_text : Bytes
  pub options : Bytes

pub record Binary : Type 0 where
  pub subtype : BinarySubtype
  pub bytes : Bytes

pub record Decimal128 : Type 0 where
  pub bytes : Bytes

pub record DbPointer : Type 0 where
  pub namespace : Bytes
  pub id : ObjectId

pub data Scalar : Type 0 where
  double : ℕ → Scalar
  string : Bytes → Scalar
  binary : Binary → Scalar
  undefined : Scalar
  object_id : ObjectId → Scalar
  bool : Bool → Scalar
  date_time : ℤ → Scalar
  null : Scalar
  regex : Regex → Scalar
  db_pointer : DbPointer → Scalar
  javascript : Bytes → Scalar
  symbol : Bytes → Scalar
  int32 : ℤ → Scalar
  timestamp : Timestamp → Scalar
  int64 : ℤ → Scalar
  decimal128 : Decimal128 → Scalar
  min_key : Scalar
  max_key : Scalar

-- The payload of `Utf8Error` is not kept.
pub data ScalarError : Type 0 where
  short_input : ℕ → ℕ → ScalarError
  invalid : ℕ → String → ScalarError
  utf8 out_of_range not_convertible : ScalarError

-- `From<ReadError> for ScalarError`
unfoldable pub of_read : ReadError → ScalarError
of_read (read_short needed got) = short_input needed got
of_read (read_invalid reason) = invalid 0 reason

-- `?` on a read.
abbrev pub lift_read : {A : Type 0} → Result ReadError A → Result ScalarError A
lift_read = map_err of_read

-- The element tags, as the arms of the code's matches on them.
pub data Tag : Type 0 where
  double string document array binary undefined object_id bool date_time null regex : Tag
  db_pointer javascript symbol javascript_scope int32 timestamp int64 decimal128 : Tag
  min_key max_key unknown : Tag

unfoldable pub tag_from_u8 : ℕ → Tag
tag_from_u8 b =
    if b == 0x01
    then Tag.double
    else if b == 0x02
    then Tag.string
    else if b == 0x03
    then Tag.document
    else if b == 0x04
    then Tag.array
    else if b == 0x05
    then Tag.binary
    else if b == 0x06
    then Tag.undefined
    else if b == 0x07
    then Tag.object_id
    else if b == 0x08
    then Tag.bool
    else if b == 0x09
    then Tag.date_time
    else if b == 0x0a
    then Tag.null
    else if b == 0x0b
    then Tag.regex
    else if b == 0x0c
    then Tag.db_pointer
    else if b == 0x0d
    then Tag.javascript
    else if b == 0x0e
    then Tag.symbol
    else if b == 0x0f
    then Tag.javascript_scope
    else if b == 0x10
    then Tag.int32
    else if b == 0x11
    then Tag.timestamp
    else if b == 0x12
    then Tag.int64
    else if b == 0x13
    then Tag.decimal128
    else if b == 0xff
    then Tag.min_key
    else if b == 0x7f
    then Tag.max_key
    else Tag.unknown

-- The wire byte of a tag; no element has the tag `unknown`.
unfoldable pub tag_to_u8 : Tag → ℕ
tag_to_u8 Tag.double = 0x01
tag_to_u8 Tag.string = 0x02
tag_to_u8 Tag.document = 0x03
tag_to_u8 Tag.array = 0x04
tag_to_u8 Tag.binary = 0x05
tag_to_u8 Tag.undefined = 0x06
tag_to_u8 Tag.object_id = 0x07
tag_to_u8 Tag.bool = 0x08
tag_to_u8 Tag.date_time = 0x09
tag_to_u8 Tag.null = 0x0a
tag_to_u8 Tag.regex = 0x0b
tag_to_u8 Tag.db_pointer = 0x0c
tag_to_u8 Tag.javascript = 0x0d
tag_to_u8 Tag.symbol = 0x0e
tag_to_u8 Tag.javascript_scope = 0x0f
tag_to_u8 Tag.int32 = 0x10
tag_to_u8 Tag.timestamp = 0x11
tag_to_u8 Tag.int64 = 0x12
tag_to_u8 Tag.decimal128 = 0x13
tag_to_u8 Tag.min_key = 0xff
tag_to_u8 Tag.max_key = 0x7f
tag_to_u8 Tag.unknown = 0

-- `tag_of`, as a tag and as its byte.
unfoldable pub scalar_tag : Scalar → Tag
scalar_tag (double _) = Tag.double
scalar_tag (string _) = Tag.string
scalar_tag (binary _) = Tag.binary
scalar_tag undefined = Tag.undefined
scalar_tag (object_id _) = Tag.object_id
scalar_tag (bool _) = Tag.bool
scalar_tag (date_time _) = Tag.date_time
scalar_tag null = Tag.null
scalar_tag (regex _) = Tag.regex
scalar_tag (db_pointer _) = Tag.db_pointer
scalar_tag (javascript _) = Tag.javascript
scalar_tag (symbol _) = Tag.symbol
scalar_tag (int32 _) = Tag.int32
scalar_tag (timestamp _) = Tag.timestamp
scalar_tag (int64 _) = Tag.int64
scalar_tag (decimal128 _) = Tag.decimal128
scalar_tag min_key = Tag.min_key
scalar_tag max_key = Tag.max_key

unfoldable pub tag_of : Scalar → ℕ
unfolding scalar_tag tag_to_u8
tag_of s = tag_to_u8 (scalar_tag s)

unfoldable pub subtype_to_u8 : BinarySubtype → ℕ
subtype_to_u8 generic = 0x00
subtype_to_u8 function = 0x01
subtype_to_u8 binary_old = 0x02
subtype_to_u8 uuid_old = 0x03
subtype_to_u8 uuid = 0x04
subtype_to_u8 md5 = 0x05
subtype_to_u8 encrypted = 0x06
subtype_to_u8 (user_defined b) = b

unfoldable pub subtype_from_u8 : ℕ → Result ScalarError BinarySubtype
subtype_from_u8 b =
    if b == 0x00
    then ok generic
    else if b == 0x01
    then ok function
    else if b == 0x02
    then ok binary_old
    else if b == 0x03
    then ok uuid_old
    else if b == 0x04
    then ok uuid
    else if b == 0x05
    then ok md5
    else if b == 0x06
    then ok encrypted
    else if leb b 0x7f
    then err (invalid b "reserved binary subtype")
    else ok (user_defined b)

-- `subtype == BinarySubtype::BinaryOld`
unfoldable pub is_old : BinarySubtype → Bool
is_old binary_old = true
is_old _ = false

-- What Rust's types say of a value: text is UTF-8, arrays have their size, words their range.
abbrev pub IsText : Bytes → Type 0
IsText s = AreBytes s × (is_utf8 s ≡ true)

abbrev pub IsSubtype : BinarySubtype → Type 0
IsSubtype (user_defined b) = b < 256
IsSubtype _ = Unit {0}

abbrev pub IsSized : ℕ → Bytes → Type 0
IsSized n b = AreBytes b × (length b ≡ n)

abbrev pub IsScalar : Scalar → Type 0
IsScalar (double v) = v < 2 ^ 64
IsScalar (string v) = IsText v
IsScalar (binary b) = IsSubtype b.subtype × AreBytes b.bytes
IsScalar (object_id v) = IsSized 12 v.bytes
IsScalar (date_time v) = Fits i64_half v
IsScalar (regex r) = IsText r.pattern_text × IsText r.options
IsScalar (db_pointer p) = IsText p.namespace × IsSized 12 p.id.bytes
IsScalar (javascript v) = IsText v
IsScalar (symbol v) = IsText v
IsScalar (int32 v) = Fits i32_half v
IsScalar (timestamp t) = (t.seconds < 2 ^ 32) × (t.increment < 2 ^ 32)
IsScalar (int64 v) = Fits i64_half v
IsScalar (decimal128 v) = IsSized 16 v.bytes
IsScalar _ = Unit {0}

-- The values in the form that the reader gives them: a user-defined subtype is one from 0x80 on,
-- which its Rust type, any byte, does not demand.
abbrev pub IsCanonicalSubtype : BinarySubtype → Type 0
IsCanonicalSubtype (user_defined b) = (0x80 ≤ b) × (b < 256)
IsCanonicalSubtype _ = Unit {0}

abbrev pub IsCanonical : Scalar → Type 0
IsCanonical (binary b) = IsCanonicalSubtype b.subtype × AreBytes b.bytes
IsCanonical s = IsScalar s
