-- ===== src/Scalar/Reencode.antt =====
-- mongo_common/src/bson/scalar.rs: what `parse_scalar` accepts is well formed, and is exactly what
-- `encode_scalar` writes for the value that it returned.
use mongowire.Base.{
  ℕ, ◌+◌, ◌-◌, ◌<◌, ◌^◌, ◌≡◌, ◌≢◌, sym, ap, Bool, true, false, not, [], ◌∷◌, ◌++◌, append_assoc,
  Bytes, AreBytes, IsByte, take, take-append, i32_half, length, to_le, to_le-from_le, from_le-lt,
  length-append, ok, arith, contains_nul, guard, map_err-eq-ok, bind_ok, if◌then◌else◌, ◌==◌,
}
use mongowire.Io.{read_bytes, read_u8, read_u32_le, read_i32_le, read_i64_le, read_cstring}
use mongowire.Io.Laws.{
  read_bytes-ok, read_u8-ok, read_u32_le-ok, read_i32_le-ok, read_i64_le-ok, read_cstring-ok,
}
use mongowire.Scalar.{
  Scalar, Tag, BinarySubtype, Binary, double, binary, generic, user_defined, IsText, IsCanonical,
  IsCanonicalSubtype, tag_of, tag_from_u8, scalar_tag, tag_to_u8, subtype_to_u8, subtype_from_u8,
  is_old, lift_read, of_read,
}
use mongowire.Scalar.Parse.{
  parse_string, read_cstring_str, parse_binary, parse_bool, parse_arm, parse_scalar, payload_len,
}
use mongowire.Scalar.Encode.{encode_scalar}
use mongowire.Scalar.Laws.{string_bytes-append}
use mongowire.Scalar.Binaries.{old_bytes-append, new_bytes-append}
use mongowire.Scalar.Written.{
  scalar_bytes, string_bytes, binary_bytes, HasNoNul, IsEncodable-of-length, encode_arm_complete,
}

-- The two parts of a byte string are byte strings.
AreBytes-left : (xs ys : Bytes) → AreBytes (xs ++ ys) → AreBytes xs
AreBytes-left [] ys h = tt
AreBytes-left (x ∷ xs) ys (p, h) = (p, AreBytes-left xs ys h)

AreBytes-right : (xs ys : Bytes) → AreBytes (xs ++ ys) → AreBytes ys
AreBytes-right [] ys h = h
AreBytes-right (x ∷ xs) ys (p, h) = AreBytes-right xs ys h

-- A successful lifted read is the read.
module _ (r : Bytes) (hr : AreBytes r) where
  pub lift_bytes-ok :
      (n : ℕ) (b rest : Bytes)
      → lift_read (read_bytes n r) ≡ ok (b, rest)
      → (r ≡ b ++ rest) × (length b ≡ n) × AreBytes b × AreBytes rest
  lift_bytes-ok n b rest h =
      let (e, len) = read_bytes-ok n r b rest (map_err-eq-ok of_read (read_bytes n r) h) in
      (e, len, AreBytes-left b rest (rw e at hr), AreBytes-right b rest (rw e at hr))

  pub lift_u8-ok :
      (b : ℕ) (rest : Bytes)
      → lift_read (read_u8 r) ≡ ok (b, rest)
      → (r ≡ b ∷ rest) × IsByte b × AreBytes rest
  lift_u8-ok b rest h =
      let e = read_u8-ok r b rest (map_err-eq-ok of_read (read_u8 r) h) in
      let both = rw e at hr in (e, both.0, both.1)

  pub lift_u32-ok :
      (v : ℕ) (rest : Bytes)
      → lift_read (read_u32_le r) ≡ ok (v, rest)
      → (r ≡ to_le 4 v ++ rest) × (v < 2 ^ 32) × AreBytes rest
  lift_u32-ok v rest h = read_u32_le-ok r v rest hr (map_err-eq-ok of_read (read_u32_le r) h)

pub parse_string-ok :
    (r : Bytes) (tag : ℕ) (v rest : Bytes)
    → AreBytes r
    → parse_string r tag ≡ ok (v, rest)
    → (r ≡ string_bytes v ++ rest) × IsText v × AreBytes rest
unfolding parse_string
parse_string-ok r tag v rest hr h = bind_ok (lift_read (read_u32_le r)) _ h λ p1 e1 f1.
    bind_ok (guard (not (p1.0 == 0)) _) _ f1 λ u2 e2 f2.
      bind_ok (lift_read (read_bytes (p1.0 - 1) p1.1)) _ f2 λ p3 e3 f3.
        bind_ok (lift_read (read_u8 p3.1)) _ f3 λ p4 e4 f4.
          let (r1, small, h1) = lift_u32-ok r hr p1.0 p1.1 e1 in
          let (r3, len, hb, h3) = lift_bytes-ok p1.1 h1 (p1.0 - 1) p3.0 p3.1 e3 in
          let (r4, h0, h4) = lift_u8-ok p3.1 h3 p4.0 p4.1 e4 in
          ground (arith, e2, f4, r1, r3, r4, len, hb, h4, string_bytes-append v rest)

read_cstring_str-ok :
    (r : Bytes) (tag : ℕ) (v rest : Bytes)
    → AreBytes r
    → read_cstring_str r tag ≡ ok (v, rest)
    → (r ≡ v ++ 0 ∷ rest) × IsText v × (contains_nul v ≡ false) × AreBytes rest
unfolding read_cstring_str
read_cstring_str-ok r tag v rest hr h = bind_ok (lift_read (read_cstring r)) _ h λ p1 e1 f1.
    let (r1, no_nul) = read_cstring-ok r p1.0 p1.1 (map_err-eq-ok of_read (read_cstring r) e1) in
    let both = rw r1 at hr in
    let hl = AreBytes-left p1.0 (0 ∷ p1.1) both in
    let ht = AreBytes-right p1.0 (0 ∷ p1.1) both in ground (arith, f1, r1, no_nul, hl, ht.1)

subtype_from_u8-ok :
    (b : ℕ) (t : BinarySubtype)
    → b < 256
    → subtype_from_u8 b ≡ ok t
    → (subtype_to_u8 t ≡ b) × IsCanonicalSubtype t
unfolding subtype_from_u8 subtype_to_u8
subtype_from_u8-ok b generic h e = ground arith
subtype_from_u8-ok b (user_defined c) h e = ground arith
subtype_from_u8-ok b _ h e = ground arith

payload_len-ok :
    (old : Bool) (len : ℕ) (r : Bytes) (tag n : ℕ) (rest : Bytes)
    → AreBytes r
    → payload_len old len r tag ≡ ok (n, rest)
    → (r ≡ (if old then to_le 4 n else []) ++ rest)
      × (len ≡ n + (if old then 4 else 0))
      × AreBytes rest
unfolding payload_len
payload_len-ok true len r tag n rest hr h =
    bind_ok (lift_read (read_u32_le r)) _ h
      λ p1 e1 f1. let (r1, small, h1) = lift_u32-ok r hr p1.0 p1.1 e1 in ground (arith, f1, r1, h1)
payload_len-ok false len r tag n rest hr h = ground arith

binary_join :
    (old : Bool) (b : ℕ) (v rest : Bytes)
    → to_le 4 (length v + (if old then 4 else 0))
        ++ (b ∷ ((if old then to_le 4 (length v) else []) ++ (v ++ rest)))
      ≡ binary_bytes old b v ++ rest
binary_join true b v rest = sym (old_bytes-append b v rest)
binary_join false b v rest = ground (arith, new_bytes-append b v rest)

parse_binary-ok :
    (r : Bytes) (tag : ℕ) (b : Binary) (rest : Bytes)
    → AreBytes r
    → parse_binary r tag ≡ ok (b, rest)
    → (r ≡ scalar_bytes (binary b) ++ rest) × IsCanonical (binary b) × AreBytes rest
unfolding parse_binary
parse_binary-ok r tag b rest hr h = bind_ok (lift_read (read_u32_le r)) _ h λ p1 e1 f1.
    bind_ok (lift_read (read_u8 p1.1)) _ f1 λ p2 e2 f2.
      bind_ok (subtype_from_u8 p2.0) _ f2 λ t e3 f3.
        bind_ok (payload_len (is_old t) p1.0 p2.1 tag) _ f3 λ p4 e4 f4.
          bind_ok (lift_read (read_bytes p4.0 p4.1)) _ f4 λ p5 e5 f5.
            let (r1, small, h1) = lift_u32-ok r hr p1.0 p1.1 e1 in
            let (r2, hb, h2) = lift_u8-ok p1.1 h1 p2.0 p2.1 e2 in
            let (st, ht) = subtype_from_u8-ok p2.0 t hb e3 in
            let (r4, len, h4) = payload_len-ok (is_old t) p1.0 p2.1 tag p4.0 p4.1 h2 e4 in
            let (r5, n, h5, hrest) = lift_bytes-ok p4.1 h4 p4.0 p5.0 p5.1 e5 in
            ground (
              arith,
              f5,
              r1,
              r2,
              st,
              ht,
              r4,
              len,
              r5,
              n,
              h5,
              hrest,
              binary_join (is_old t) p2.0 p5.0 p5.1,
            )

parse_bool-ok :
    (r : Bytes) (tag : ℕ) (b : Bool) (rest : Bytes)
    → AreBytes r
    → parse_bool r tag ≡ ok (b, rest)
    → (r ≡ (if b then 1 else 0) ∷ rest) × AreBytes rest
unfolding parse_bool
parse_bool-ok r tag b rest hr h =
    bind_ok (lift_read (read_u8 r)) _ h λ p1 e1 f1. ground (arith, f1, lift_u8-ok r hr p1.0 p1.1 e1)

regex_join : (p o rest : Bytes) → p ++ 0 ∷ (o ++ 0 ∷ rest) ≡ (p ++ 0 ∷ (o ++ 0 ∷ [])) ++ rest
regex_join p o rest = simp append_assoc

-- What an arm accepted: a value of its own tag, well formed, whose wire form was at the front.
pub parse_arm-ok :
    (t : Tag) (tag : ℕ) (r : Bytes) (s : Scalar) (rest : Bytes)
    → AreBytes r
    → parse_arm t tag r ≡ ok (s, rest)
    → (scalar_tag s ≡ t) × IsCanonical s × HasNoNul s × (r ≡ scalar_bytes s ++ rest) × AreBytes rest
unfolding parse_arm scalar_tag
parse_arm-ok Tag.double tag r s rest hr h = bind_ok (lift_read (read_bytes 8 r)) _ h λ p1 e1 f1.
    let (r1, n, h1, h2) = lift_bytes-ok r hr 8 p1.0 p1.1 e1 in
    let back = rw n at (to_le-from_le p1.0 h1) in
    let small = rw n at (from_le-lt p1.0 h1) in ground (arith, f1, r1, back, small, h2)
parse_arm-ok Tag.string tag r s rest hr h =
    bind_ok (parse_string r tag) _ h
      λ p1 e1 f1. ground (arith, f1, parse_string-ok r tag p1.0 p1.1 hr e1)
parse_arm-ok Tag.binary tag r s rest hr h =
    bind_ok (parse_binary r tag) _ h
      λ p1 e1 f1. ground (arith, f1, parse_binary-ok r tag p1.0 p1.1 hr e1)
parse_arm-ok Tag.undefined tag r s rest hr h = ground arith
parse_arm-ok Tag.object_id tag r s rest hr h =
    bind_ok (lift_read (read_bytes 12 r)) _ h
      λ p1 e1 f1. ground (arith, f1, lift_bytes-ok r hr 12 p1.0 p1.1 e1)
parse_arm-ok Tag.bool tag r s rest hr h =
    bind_ok (parse_bool r tag) _ h
      λ p1 e1 f1. ground (arith, f1, parse_bool-ok r tag p1.0 p1.1 hr e1)
parse_arm-ok Tag.date_time tag r s rest hr h = bind_ok (lift_read (read_i64_le r)) _ h λ p1 e1 f1.
    ground (arith, f1, read_i64_le-ok r p1.0 p1.1 hr (map_err-eq-ok of_read (read_i64_le r) e1))
parse_arm-ok Tag.null tag r s rest hr h = ground arith
parse_arm-ok Tag.regex tag r s rest hr h = bind_ok (read_cstring_str r tag) _ h λ p1 e1 f1.
    bind_ok (read_cstring_str p1.1 tag) _ f1 λ p2 e2 f2.
      let (r1, t1, n1, h1) = read_cstring_str-ok r tag p1.0 p1.1 hr e1 in
      let (r2, t2, n2, h2) = read_cstring_str-ok p1.1 tag p2.0 p2.1 h1 e2 in
      ground (arith, f2, r1, t1, r2, t2, h2, n1, n2, regex_join p1.0 p2.0 p2.1)
parse_arm-ok Tag.db_pointer tag r s rest hr h = bind_ok (parse_string r tag) _ h λ p1 e1 f1.
    bind_ok (lift_read (read_bytes 12 p1.1)) _ f1 λ p2 e2 f2.
      let (r1, t1, h1) = parse_string-ok r tag p1.0 p1.1 hr e1 in
      let (r2, n2, b2, h2) = lift_bytes-ok p1.1 h1 12 p2.0 p2.1 e2 in
      ground (arith, f2, r1, t1, r2, n2, b2, h2, append_assoc (string_bytes p1.0) p2.0 p2.1)
parse_arm-ok Tag.javascript tag r s rest hr h =
    bind_ok (parse_string r tag) _ h
      λ p1 e1 f1. ground (arith, f1, parse_string-ok r tag p1.0 p1.1 hr e1)
parse_arm-ok Tag.symbol tag r s rest hr h =
    bind_ok (parse_string r tag) _ h
      λ p1 e1 f1. ground (arith, f1, parse_string-ok r tag p1.0 p1.1 hr e1)
parse_arm-ok Tag.int32 tag r s rest hr h = bind_ok (lift_read (read_i32_le r)) _ h λ p1 e1 f1.
    ground (arith, f1, read_i32_le-ok r p1.0 p1.1 hr (map_err-eq-ok of_read (read_i32_le r) e1))
parse_arm-ok Tag.timestamp tag r s rest hr h = bind_ok (lift_read (read_u32_le r)) _ h λ p1 e1 f1.
    bind_ok (lift_read (read_u32_le p1.1)) _ f1 λ p2 e2 f2.
      let (r1, n1, h1) = lift_u32-ok r hr p1.0 p1.1 e1 in
      let (r2, n2, h2) = lift_u32-ok p1.1 h1 p2.0 p2.1 e2 in
      ground (arith, f2, r1, n1, r2, n2, h2, append_assoc (to_le 4 p1.0) (to_le 4 p2.0) p2.1)
parse_arm-ok Tag.int64 tag r s rest hr h = bind_ok (lift_read (read_i64_le r)) _ h λ p1 e1 f1.
    ground (arith, f1, read_i64_le-ok r p1.0 p1.1 hr (map_err-eq-ok of_read (read_i64_le r) e1))
parse_arm-ok Tag.decimal128 tag r s rest hr h =
    bind_ok (lift_read (read_bytes 16 r)) _ h
      λ p1 e1 f1. ground (arith, f1, lift_bytes-ok r hr 16 p1.0 p1.1 e1)
parse_arm-ok _ tag r s rest hr h = ground arith

tag_to_u8-tag_from_u8 : (b : ℕ) (t : Tag) → tag_from_u8 b ≡ t → t ≢ Tag.unknown → tag_to_u8 t ≡ b
unfolding tag_from_u8 tag_to_u8
tag_to_u8-tag_from_u8 b Tag.double e h = ground arith
tag_to_u8-tag_from_u8 b _ e h = ground arith

scalar_tag-ne-unknown : (s : Scalar) → scalar_tag s ≢ Tag.unknown
unfolding scalar_tag
scalar_tag-ne-unknown (double v) = λ p. cc
scalar_tag-ne-unknown _ = λ p. cc

-- Of an input shorter than 2^31 bytes, whatever `parse_scalar` accepts is a well-formed value of the
-- tag that was asked for, its binary subtype in the reader's form, and `encode_scalar` writes exactly
-- the bytes that were consumed.
pub encode_scalar-parse_scalar :
    (tag : ℕ) (input out : Bytes) (s : Scalar) (n : ℕ)
    → AreBytes input
    → length input < i32_half
    → parse_scalar tag input ≡ ok (s, n)
    → IsCanonical s × (tag_of s ≡ tag) × (encode_scalar s out ≡ ok (n, out ++ take n input))
unfolding parse_scalar tag_of encode_scalar
encode_scalar-parse_scalar tag input out s n hi small h =
    bind_ok (parse_arm (tag_from_u8 tag) tag input) _ h λ p1 e1 f1.
      let (st, hs, clean, e, h2) = parse_arm-ok (tag_from_u8 tag) tag input p1.0 p1.1 hi e1 in
      let n = length-append (scalar_bytes p1.0) p1.1 in
      let fits =
        IsEncodable-of-length p1.0 (omega (arith, ap (λ (t : Bytes). length t) e, n)) clean in
      let byte =
        tag_to_u8-tag_from_u8 tag (scalar_tag p1.0) (sym st) (scalar_tag-ne-unknown p1.0) in
      ground (
        arith,
        f1,
        hs,
        byte,
        e,
        n,
        encode_arm_complete p1.0 out fits,
        take-append (scalar_bytes p1.0) p1.1,
        length-append out (scalar_bytes p1.0),
      )
