-- ===== src/Scalar/Binaries.antt =====
-- mongo_common/src/bson/scalar.rs: a binary value read back, and what becomes of its subtype.
use mongowire.Base.{
  ℕ, ◌+◌, ◌≡◌, refl, true, false, ◌∷◌, ◌++◌, append_assoc, Bytes, length, to_le, ok, err, stuck,
  arith, Result, map_ok, ◌≢◌, ◌>>=◌, ◌<◌, ◌^◌,
}
use mongowire.Io.Laws.{read_bytes-append, read_u8-cons, read_u32_le-append}
use mongowire.Scalar.{
  Scalar, Binary, BinarySubtype, binary, binary_old, user_defined, ScalarError, subtype_to_u8,
  subtype_from_u8, is_old,
}
use mongowire.Scalar.Parse.{payload_len, parse_binary}
use mongowire.Scalar.Written.{binary_bytes, BinaryFits}

-- What a subtype that was written is read back as: one that has a name is itself, and a
-- user-defined one is what its byte stands for.
abbrev pub subtype_back : BinarySubtype → Result ScalarError BinarySubtype
subtype_back (user_defined b) = subtype_from_u8 b
subtype_back t = ok t

-- No user-defined subtype with the byte 2, which stands for the obsolete layout.
abbrev pub HasOwnLayout : BinarySubtype → Type 0
HasOwnLayout (user_defined b) = b ≢ 2
HasOwnLayout _ = Unit {0}

subtype_from_u8-to_u8 : (t : BinarySubtype) → subtype_from_u8 (subtype_to_u8 t) ≡ subtype_back t
unfolding subtype_from_u8 subtype_to_u8
subtype_from_u8-to_u8 (user_defined b) = refl
subtype_from_u8-to_u8 _ = refl

subtype_from_u8-ne-stuck : (b : ℕ) → subtype_from_u8 b ≢ stuck
unfolding subtype_from_u8
subtype_from_u8-ne-stuck b = λ p. ground arith

-- A subtype that a byte other than 2 stands for has no inner length.
has_own_layout : (t : BinarySubtype) (b : ℕ) → b ≢ 2 → subtype_from_u8 b ≡ ok t → is_old t ≡ false
unfolding subtype_from_u8 is_old
has_own_layout binary_old b h e = ground arith
has_own_layout _ b h e = refl

pub old_bytes-append :
    (b : ℕ) (v rest : Bytes)
    → binary_bytes true b v ++ rest
      ≡ to_le 4 (length v + 4) ++ (b ∷ (to_le 4 (length v) ++ (v ++ rest)))
old_bytes-append b v rest = simp append_assoc

pub new_bytes-append :
    (b : ℕ) (v rest : Bytes)
    → binary_bytes false b v ++ rest ≡ to_le 4 (length v) ++ (b ∷ (v ++ rest))
new_bytes-append b v rest = simp append_assoc

parse_new :
    (t : BinarySubtype) (v rest : Bytes) (tag : ℕ) (back : Result ScalarError BinarySubtype)
    → subtype_from_u8 (subtype_to_u8 t) ≡ back
    → ((t' : BinarySubtype)
        → back ≡ ok t'
        → payload_len (is_old t') (length v) (v ++ rest) tag ≡ ok (length v, v ++ rest))
    → length v < 2 ^ 32
    → back ≢ stuck
    → parse_binary (binary_bytes false (subtype_to_u8 t) v ++ rest) tag
      ≡ map_ok (λ t'. (record { subtype = t'; bytes = v }, rest)) back
unfolding parse_binary
parse_new t v rest tag (ok t') e h fits ns = ground (
  arith,
  e,
  h t' refl,
  new_bytes-append (subtype_to_u8 t) v rest,
  read_u32_le-append (length v) (subtype_to_u8 t ∷ (v ++ rest)) (omega arith),
  read_u8-cons (subtype_to_u8 t) (v ++ rest),
  read_bytes-append v rest,
)
parse_new t v rest tag (err x) e h fits ns = ground (
  arith,
  e,
  new_bytes-append (subtype_to_u8 t) v rest,
  read_u32_le-append (length v) (subtype_to_u8 t ∷ (v ++ rest)) (omega arith),
  read_u8-cons (subtype_to_u8 t) (v ++ rest),
)
parse_new t v rest tag stuck e h fits ns = absurd (ns refl)

pub parse_binary-binary_bytes :
    (t : BinarySubtype) (v rest : Bytes) (tag : ℕ)
    → HasOwnLayout t
    → BinaryFits (is_old t) v
    → parse_binary (binary_bytes (is_old t) (subtype_to_u8 t) v ++ rest) tag
      ≡ map_ok (λ t'. (record { subtype = t'; bytes = v }, rest)) (subtype_back t)
unfolding parse_binary is_old
parse_binary-binary_bytes binary_old v rest tag ht fits = ground (
  arith,
  old_bytes-append (subtype_to_u8 binary_old) v rest,
  read_u32_le-append (length v + 4) (subtype_to_u8 binary_old ∷ (to_le 4 (length v) ++ (v ++ rest)))
      (omega arith),
  read_u8-cons (subtype_to_u8 binary_old) (to_le 4 (length v) ++ (v ++ rest)),
  read_u32_le-append (length v) (v ++ rest) (omega arith),
  read_bytes-append v rest,
  subtype_from_u8-to_u8 binary_old,
)
parse_binary-binary_bytes (user_defined b) v rest tag ht fits =
    parse_new (user_defined b) v rest tag (subtype_from_u8 b)
      (subtype_from_u8-to_u8 (user_defined b)) (λ t' e. rw (has_own_layout t' b ht e) refl)
      (omega arith) (subtype_from_u8-ne-stuck b)
parse_binary-binary_bytes t v rest tag ht fits =
    parse_new t v rest tag (ok t) (subtype_from_u8-to_u8 t) (λ t' e. ground (arith, e))
      (omega arith) (λ p. cc)

pub map_ok-binary :
    (v rest : Bytes) (back : Result ScalarError BinarySubtype)
    → ◌>>=◌ {A = Binary × Bytes} {B = Scalar × Bytes}
        (map_ok (λ t. (record { subtype = t; bytes = v }, rest)) back)
        (λ r. ok (binary r.0, r.1))
      ≡ map_ok (λ s. (s, rest)) (map_ok (λ t. binary (record { subtype = t; bytes = v })) back)
map_ok-binary v rest (ok t) = refl
map_ok-binary v rest (err e) = refl
map_ok-binary v rest stuck = refl
