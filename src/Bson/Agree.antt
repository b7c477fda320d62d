-- ===== src/Bson/Agree.antt =====
-- wirebson/src/decode.rs says that its scalar arms follow the same wire layout as `parse_scalar` of
-- mongo_common, without sharing code. Here the two parsers are compared.
use mongowire.Base.{
  ℕ, ◌-◌, ◌≡◌, refl, Bool, true, false, Option, none, some, Bytes, length, Result, ok, err, stuck,
  map_err, ◌>>=◌, arith, map_ok,
}
use mongowire.Io.{read_bytes, read_u8, read_u32_le, read_i32_le, read_i64_le, remaining}
use mongowire.Scalar.{Scalar, ScalarError, Tag, tag_from_u8, subtype_from_u8, is_old}
use mongowire.Scalar.Parse.{
  parse_string, read_cstring_str, parse_binary, payload_len, parse_bool, parse_arm, parse_scalar,
}
use mongowire.Bson.{RawBsonRef, Error}
use mongowire.Bson.Scan.{
  read_str, read_cstr, read_binary, binary_payload, read_bool, value_arm, parse_value,
}

-- The value of a success, whatever the errors are.
abbrev pub value_of {ℓ κ} : {E : Type ℓ} {A : Type κ} → Result E A → Option A
value_of (ok a) = some a
value_of (err e) = none
value_of stuck = none

-- The borrowed form of a scalar.
unfoldable pub ref_of : Scalar → RawBsonRef
ref_of (Scalar.double v) = RawBsonRef.double v
ref_of (Scalar.string v) = RawBsonRef.string v
ref_of (Scalar.binary v) = RawBsonRef.binary v
ref_of Scalar.undefined = RawBsonRef.undefined
ref_of (Scalar.object_id v) = RawBsonRef.object_id v
ref_of (Scalar.bool v) = RawBsonRef.bool v
ref_of (Scalar.date_time v) = RawBsonRef.date_time v
ref_of Scalar.null = RawBsonRef.null
ref_of (Scalar.regex v) = RawBsonRef.regex v
ref_of (Scalar.db_pointer v) = RawBsonRef.db_pointer v
ref_of (Scalar.javascript v) = RawBsonRef.javascript v
ref_of (Scalar.symbol v) = RawBsonRef.symbol v
ref_of (Scalar.int32 v) = RawBsonRef.int32 v
ref_of (Scalar.timestamp v) = RawBsonRef.timestamp v
ref_of (Scalar.int64 v) = RawBsonRef.int64 v
ref_of (Scalar.decimal128 v) = RawBsonRef.decimal128 v
ref_of Scalar.min_key = RawBsonRef.min_key
ref_of Scalar.max_key = RawBsonRef.max_key

unfoldable pub is_composite : Tag → Bool
is_composite Tag.document = true
is_composite Tag.array = true
is_composite Tag.javascript_scope = true
is_composite _ = false

-- Two chains agree if their first steps do and every continuation does.
module _ {E F A B C : Type 0} (h : C → B) where
  bind_same :
      (m : Result E A) (n : Result F A) (f : A → Result E B) (g : A → Result F C)
      → value_of m ≡ value_of n
      → ((a : A) → value_of (f a) ≡ value_of (map_ok h (g a)))
      → value_of (m >>= f) ≡ value_of (map_ok h (n >>= g))
  bind_same (ok a) (ok b) f g e k = cc (some-eq a b e, k b)
    where
      some-eq : (x y : A) → some x ≡ some y → f x ≡ f y
      some-eq x y q = cc
  bind_same (ok a) (err y) f g e k = cc
  bind_same (ok a) stuck f g e k = cc
  bind_same (err x) (ok b) f g e k = cc
  bind_same stuck (ok b) f g e k = cc
  bind_same (err x) (err y) f g e k = refl
  bind_same (err x) stuck f g e k = refl
  bind_same stuck (err y) f g e k = refl
  bind_same stuck stuck f g e k = refl

map_ok_id : {E A : Type 0} (m : Result E A) → map_ok (λ a. a) m ≡ m
map_ok_id (ok a) = refl
map_ok_id (err e) = refl
map_ok_id stuck = refl

lift_same :
    {E F G A : Type 0} (f : E → F) (g : E → G) (m : Result E A)
    → value_of (map_err f m) ≡ value_of (map_err g m)
lift_same f g (ok a) = refl
lift_same f g (err e) = refl
lift_same f g stuck = refl

wrapped_same : {E F A : Type 0} (f : E → F) (m : Result E A) → value_of (map_err f m) ≡ value_of m
wrapped_same f (ok a) = refl
wrapped_same f (err e) = refl
wrapped_same f stuck = refl

read_str-parse_string :
    (r : Bytes) (abs tag : ℕ) → value_of (read_str r abs) ≡ value_of (parse_string r tag)
unfolding read_str parse_string
read_str-parse_string r abs tag = ground arith

read_cstr-read_cstring_str :
    (r : Bytes) (tag : ℕ) → value_of (read_cstr r) ≡ value_of (read_cstring_str r tag)
unfolding read_cstr read_cstring_str
read_cstr-read_cstring_str r tag = ground arith

binary_payload-payload_len :
    (old : Bool) (len : ℕ) (r : Bytes) (abs tag : ℕ)
    → value_of (binary_payload old len r abs) ≡ value_of (payload_len old len r tag)
unfolding binary_payload payload_len
binary_payload-payload_len true len r abs tag = ground arith
binary_payload-payload_len false len r abs tag = refl

read_binary-parse_binary :
    (r : Bytes) (abs tag : ℕ) → value_of (read_binary r abs) ≡ value_of (parse_binary r tag)
unfolding read_binary parse_binary
read_binary-parse_binary r abs tag = rw (← map_ok_id (parse_binary r tag)) (
    bind_same _ _ _ _ _ (lift_same _ _ (read_u32_le r)) λ p1.
      bind_same _ _ _ _ _ (lift_same _ _ (read_u8 p1.1)) λ p2.
        bind_same _ _ _ _ _ (wrapped_same _ (subtype_from_u8 p2.0)) λ t.
          bind_same _ _ _ _ _ (binary_payload-payload_len (is_old t) p1.0 p2.1 abs tag)
            λ p4. bind_same _ _ _ _ _ (lift_same _ _ (read_bytes p4.0 p4.1)) λ p5. refl)

read_bool-parse_bool :
    (r : Bytes) (abs tag : ℕ) → value_of (read_bool r abs) ≡ value_of (parse_bool r tag)
unfolding read_bool parse_bool
read_bool-parse_bool r abs tag = ground arith

abbrev as_ref : Scalar × Bytes → RawBsonRef × Bytes
as_ref (s, r) = (ref_of s, r)

-- One arm, on a tag that is not composite.
value_arm-parse_arm :
    (t : Tag) (tag : ℕ) (r parent : Bytes) (abs : ℕ)
    → is_composite t ≡ false
    → value_of (value_arm t r parent abs) ≡ value_of (map_ok as_ref (parse_arm t tag r))
unfolding value_arm parse_arm is_composite ref_of
value_arm-parse_arm Tag.double tag r parent abs h =
    bind_same as_ref _ _ _ _ (lift_same _ _ (read_bytes 8 r)) λ p. refl
value_arm-parse_arm Tag.string tag r parent abs h =
    bind_same as_ref _ _ _ _ (read_str-parse_string r abs tag) λ p. refl
value_arm-parse_arm Tag.binary tag r parent abs h =
    bind_same as_ref _ _ _ _ (read_binary-parse_binary r abs tag) λ p. refl
value_arm-parse_arm Tag.object_id tag r parent abs h =
    bind_same as_ref _ _ _ _ (lift_same _ _ (read_bytes 12 r)) λ p. refl
value_arm-parse_arm Tag.bool tag r parent abs h =
    bind_same as_ref _ _ _ _ (read_bool-parse_bool r abs tag) λ p. refl
value_arm-parse_arm Tag.date_time tag r parent abs h =
    bind_same as_ref _ _ _ _ (lift_same _ _ (read_i64_le r)) λ p. refl
value_arm-parse_arm Tag.regex tag r parent abs h =
    bind_same as_ref _ _ _ _ (read_cstr-read_cstring_str r tag)
      λ p. bind_same as_ref _ _ _ _ (read_cstr-read_cstring_str p.1 tag) λ q. refl
value_arm-parse_arm Tag.db_pointer tag r parent abs h =
    bind_same as_ref _ _ _ _ (read_str-parse_string r abs tag)
      λ p. bind_same as_ref _ _ _ _ (lift_same _ _ (read_bytes 12 p.1)) λ q. refl
value_arm-parse_arm Tag.javascript tag r parent abs h =
    bind_same as_ref _ _ _ _ (read_str-parse_string r abs tag) λ p. refl
value_arm-parse_arm Tag.symbol tag r parent abs h =
    bind_same as_ref _ _ _ _ (read_str-parse_string r abs tag) λ p. refl
value_arm-parse_arm Tag.int32 tag r parent abs h =
    bind_same as_ref _ _ _ _ (lift_same _ _ (read_i32_le r)) λ p. refl
value_arm-parse_arm Tag.timestamp tag r parent abs h =
    bind_same as_ref _ _ _ _ (lift_same _ _ (read_u32_le r))
      λ p. bind_same as_ref _ _ _ _ (lift_same _ _ (read_u32_le p.1)) λ q. refl
value_arm-parse_arm Tag.int64 tag r parent abs h =
    bind_same as_ref _ _ _ _ (lift_same _ _ (read_i64_le r)) λ p. refl
value_arm-parse_arm Tag.decimal128 tag r parent abs h =
    bind_same as_ref _ _ _ _ (lift_same _ _ (read_bytes 16 r)) λ p. refl
value_arm-parse_arm Tag.document tag r parent abs h = cc
value_arm-parse_arm Tag.array tag r parent abs h = cc
value_arm-parse_arm Tag.javascript_scope tag r parent abs h = cc
value_arm-parse_arm _ tag r parent abs h = refl

abbrev pub counted : Scalar × ℕ → RawBsonRef × ℕ
counted (s, n) = (ref_of s, n)

-- On every tag that is not composite, and on any input, `parse_value` succeeds exactly when
-- `parse_scalar` does, with the borrowed form of the same value and the same number of bytes.
pub parse_value-parse_scalar :
    (tag : ℕ) (rest parent : Bytes) (abs : ℕ)
    → is_composite (tag_from_u8 tag) ≡ false
    → value_of (parse_value tag rest parent abs) ≡ value_of (map_ok counted (parse_scalar tag rest))
unfolding parse_value parse_scalar
parse_value-parse_scalar tag rest parent abs h =
    counts (value_arm (tag_from_u8 tag) rest parent abs) (parse_arm (tag_from_u8 tag) tag rest)
      (value_arm-parse_arm (tag_from_u8 tag) tag rest parent abs h)
  where
    counts :
        (m : Result Error (RawBsonRef × Bytes)) (n : Result ScalarError (Scalar × Bytes))
        → value_of m ≡ value_of (map_ok as_ref n)
        → value_of (m >>= λ p. ok (p.0, length rest - remaining p.1))
          ≡ value_of (map_ok counted (n >>= λ p. ok (p.0, length rest - remaining p.1)))
    counts (ok (v, r)) (ok (s, t)) e = cc
    counts (ok p) (err y) e = cc
    counts (ok p) stuck e = cc
    counts (err x) (ok q) e = cc
    counts stuck (ok q) e = cc
    counts (err x) (err y) e = refl
    counts (err x) stuck e = refl
    counts stuck (err y) e = refl
    counts stuck stuck e = refl
