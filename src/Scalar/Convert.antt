-- ===== src/Scalar/Convert.antt =====
-- mongo_common/src/bson/convert.rs: scalars from native values and back. An f64 is its 64 bits;
-- the conversions to f64 and f32, which round, those of clocks, and those of the packages uuid and
-- dec are left out.
use mongowire.Base.{
  ℕ, ◌+◌, ◌-◌, ◌*◌, ◌/◌, ◌%◌, ◌^◌, ◌≡◌, ◌⊎◌, inl, inr, Bool, true, false, ◌||◌, Option, none, some,
  Bytes, ℤ, pos, negsuc, ltb, leb, ◌==◌, if◌then◌else◌, Result, ok, err, arith, Bool-cases, if_ok,
  ap, ◌∙◌,
}
use mongowire.Scalar.{Scalar, ScalarError, ObjectId, Binary, out_of_range, not_convertible}
use mongowire.Scalar.Hex.{to_hex}

-- `From<i32>`, and `From` of the smaller integers, which `i32::from` widens.
unfoldable pub from_i32 : ℤ → Scalar
from_i32 v = Scalar.int32 v

unfoldable pub from_i64 : ℤ → Scalar
from_i64 v = Scalar.int64 v

unfoldable pub from_f64 : ℕ → Scalar
from_f64 bits = Scalar.double bits

unfoldable pub from_bool : Bool → Scalar
from_bool v = Scalar.bool v

unfoldable pub from_string : Bytes → Scalar
from_string v = Scalar.string v

unfoldable pub from_object_id : ObjectId → Scalar
from_object_id v = Scalar.object_id v

unfoldable pub from_binary : Binary → Scalar
from_binary v = Scalar.binary v

-- The integer types that a scalar converts to.
pub data Numeric : Type 0 where
  to_i8 to_i16 to_i32 to_i64 to_i128 to_u8 to_u16 to_u32 to_u64 : Numeric

abbrev signed_range : ℕ → ℤ → Bool
signed_range half (pos n) = ltb n half
signed_range half (negsuc n) = ltb n half

abbrev unsigned_range : ℕ → ℤ → Bool
unsigned_range size (pos n) = ltb n size
unsigned_range size (negsuc n) = false

-- `<$t>::try_from(wide).is_ok()`
unfoldable pub in_range : Numeric → ℤ → Bool
in_range to_i8 x = signed_range (2 ^ 7) x
in_range to_i16 x = signed_range (2 ^ 15) x
in_range to_i32 x = signed_range (2 ^ 31) x
in_range to_i64 x = signed_range (2 ^ 63) x
in_range to_i128 x = signed_range (2 ^ 127) x
in_range to_u8 x = unsigned_range (2 ^ 8) x
in_range to_u16 x = unsigned_range (2 ^ 16) x
in_range to_u32 x = unsigned_range (2 ^ 32) x
in_range to_u64 x = unsigned_range (2 ^ 64) x

abbrev with_sign : ℕ → ℕ → ℤ
with_sign sign n = if sign == 0 || n == 0 then pos n else negsuc (n - 1)

-- The integer that a mantissa shifted by an exponent stands for, if it is one.
shifted : ℕ → ℕ → ℕ → Option ℤ
shifted sign exponent mantissa =
    if leb 1075 exponent
    then some (with_sign sign (mantissa * 2 ^ (exponent - 1075)))
    else if mantissa % 2 ^ (1075 - exponent) == 0
    then some (with_sign sign (mantissa / 2 ^ (1075 - exponent)))
    else none

-- The integer that an f64 is, if `fract()` is zero: a sign bit, 11 bits of exponent, 52 bits of
-- mantissa. Infinities and NaN have none.
unfoldable pub whole : ℕ → Option ℤ
unfolding shifted
whole bits =
    let exponent = bits / 2 ^ 52 % 2048 in
    let fraction = bits % 2 ^ 52 in
    if exponent == 2047
    then none
    else if exponent == 0
    then shifted (bits / 2 ^ 63) 1 fraction
    else shifted (bits / 2 ^ 63) exponent (2 ^ 52 + fraction)

-- `f >= i64::MIN as f64 && f <= i64::MAX as f64`: the upper bound rounds to 2^63.
abbrev near_i64 : ℤ → Bool
near_i64 (pos n) = leb n (2 ^ 63)
near_i64 (negsuc n) = ltb n (2 ^ 63)

-- `f as i64`, which saturates.
abbrev saturate : ℤ → ℤ
saturate (pos n) = if ltb n (2 ^ 63) then pos n else pos (2 ^ 63 - 1)
saturate (negsuc n) = negsuc n

narrow : Option ℤ → Option ℤ
narrow none = none
narrow (some x) = if near_i64 x then some (saturate x) else none

abbrev bit_of : Bool → ℤ
bit_of true = pos 1
bit_of false = pos 0

-- The match on the scalar.
unfoldable pub wide : Scalar → Option ℤ
unfolding narrow whole
wide (Scalar.int32 i) = some i
wide (Scalar.int64 i) = some i
wide (Scalar.bool b) = some (bit_of b)
wide (Scalar.double bits) = narrow (whole bits)
wide _ = none

into_range : Numeric → Option ℤ → Result ScalarError ℤ
unfolding in_range
into_range t none = err not_convertible
into_range t (some x) = if in_range t x then ok x else err out_of_range

unfoldable pub try_from_numeric : Numeric → Scalar → Result ScalarError ℤ
unfolding wide into_range
try_from_numeric t v = into_range t (wide v)

unfoldable pub try_from_bool : Scalar → Result ScalarError Bool
try_from_bool (Scalar.bool b) = ok b
try_from_bool _ = err not_convertible

unfoldable pub try_from_string : Scalar → Result ScalarError Bytes
unfolding to_hex
try_from_string (Scalar.string s) = ok s
try_from_string (Scalar.javascript s) = ok s
try_from_string (Scalar.symbol s) = ok s
try_from_string (Scalar.object_id id) = ok (to_hex id)
try_from_string _ = err not_convertible

-- The milliseconds of a `Duration`.
unfoldable pub try_from_duration : Scalar → Result ScalarError ℕ
try_from_duration (Scalar.int64 (pos ms)) = ok ms
try_from_duration _ = err not_convertible

-- The integer that a scalar stands for, without any bound.
unfoldable pub integer_of : Scalar → Option ℤ
unfolding whole
integer_of (Scalar.int32 i) = some i
integer_of (Scalar.int64 i) = some i
integer_of (Scalar.bool b) = some (bit_of b)
integer_of (Scalar.double bits) = whole bits
integer_of _ = none

narrow-some :
    (o : Option ℤ) (x : ℤ)
    → narrow o ≡ some x
    → (o ≡ some x) ⊎ ((o ≡ some (pos (2 ^ 63))) × (x ≡ pos (2 ^ 63 - 1)))
unfolding narrow
narrow-some none x h = cc
narrow-some (some (pos n)) x h = elim (Bool-cases (ltb n (2 ^ 63))) [
  | inl t ↦ inl (ground (arith, t))
  | inr f ↦ inr (ground (arith, f))
]
narrow-some (some (negsuc n)) x h = inl (ground arith)

wide-integer_of :
    (v : Scalar) (x : ℤ)
    → wide v ≡ some x
    → (integer_of v ≡ some x) ⊎ ((integer_of v ≡ some (pos (2 ^ 63))) × (x ≡ pos (2 ^ 63 - 1)))
unfolding wide integer_of
wide-integer_of (Scalar.double bits) x h = narrow-some (whole bits) x h
wide-integer_of (Scalar.int32 i) x h = inl h
wide-integer_of (Scalar.int64 i) x h = inl h
wide-integer_of (Scalar.bool b) x h = inl h
wide-integer_of (Scalar.string s) x h = cc
wide-integer_of (Scalar.binary b) x h = cc
wide-integer_of Scalar.undefined x h = cc
wide-integer_of (Scalar.object_id id) x h = cc
wide-integer_of (Scalar.date_time ms) x h = cc
wide-integer_of Scalar.null x h = cc
wide-integer_of (Scalar.regex r) x h = cc
wide-integer_of (Scalar.db_pointer p) x h = cc
wide-integer_of (Scalar.javascript s) x h = cc
wide-integer_of (Scalar.symbol s) x h = cc
wide-integer_of (Scalar.timestamp t) x h = cc
wide-integer_of (Scalar.decimal128 d) x h = cc
wide-integer_of Scalar.min_key x h = cc
wide-integer_of Scalar.max_key x h = cc

into_range-ok :
    (t : Numeric) (o : Option ℤ) (x : ℤ)
    → into_range t o ≡ ok x
    → (o ≡ some x) × (in_range t x ≡ true)
unfolding into_range
into_range-ok t none x h = cc
into_range-ok t (some y) x h =
    if_ok (in_range t y) h (λ r e. (cc e, ap (λ z. in_range t z) (cc e) ∙ r)) λ r e. cc

-- A conversion to an integer type that succeeds gives an integer of the type, and it is the
-- scalar's value, but for one: the double 2^63 becomes 2^63 - 1.
pub try_from_numeric_exact :
    (t : Numeric) (v : Scalar) (x : ℤ)
    → try_from_numeric t v ≡ ok x
    → (in_range t x ≡ true)
      × ((integer_of v ≡ some x) ⊎ ((integer_of v ≡ some (pos (2 ^ 63))) × (x ≡ pos (2 ^ 63 - 1))))
unfolding try_from_numeric
try_from_numeric_exact t v x h =
    let (found, fits) = into_range-ok t (wide v) x h in (fits, wide-integer_of v x found)
