-- ===== src/Scalar/Hex.antt =====
-- mongo_common/src/bson/scalar.rs: the hexadecimal form of an ObjectId.
use Prim.Native.Nat.{bit_or}
use mongowire.Base.{
  ℕ, ◌+◌, ◌-◌, ◌*◌, ◌/◌, ◌%◌, ◌<◌, ◌≡◌, refl, Bool, true, false, Option, none, some, [], ◌∷◌, Bytes,
  AreBytes, length, get_or, leb, ◌==◌, ◌&&◌, if◌then◌else◌, Result, ok, err, ◌>>=◌, ◌>>◌, guard,
  arith, holds_below, holds_below→true,
}
use mongowire.Scalar.{ObjectId, ScalarError, invalid, IsSized}

-- `0123456789abcdef`
abbrev hex_digits : Bytes
hex_digits = 48 ∷ 49 ∷ 50 ∷ 51 ∷ 52 ∷ 53 ∷ 54 ∷ 55 ∷ 56 ∷ 57 ∷ 97 ∷ 98 ∷ 99 ∷ 100 ∷ 101 ∷ 102 ∷ []

hex_of : Bytes → Bytes
hex_of [] = []
hex_of (b ∷ bs) = get_or hex_digits (b / 16) 0 ∷ get_or hex_digits (b % 16) 0 ∷ hex_of bs

unfoldable pub to_hex : ObjectId → Bytes
unfolding hex_of
to_hex id = hex_of id.bytes

unfoldable pub hex_digit : ℕ → Option ℕ
hex_digit b =
    if leb b'0' b && leb b b'9'
    then some (b - b'0')
    else if leb b'a' b && leb b b'f'
    then some (b - b'a' + 10)
    else if leb b'A' b && leb b b'F'
    then some (b - b'A' + 10)
    else none

abbrev not_hex : ScalarError
not_hex = invalid 0x07 "object id hex string contains a non-hex character"

abbrev or_not_hex : Option ℕ → Result ScalarError ℕ
or_not_hex (some d) = ok d
or_not_hex none = err not_hex

-- The pairs of `chunks_exact(2)`; a single last character is left out.
unfoldable pub from_pairs : Bytes → Result ScalarError Bytes
unfolding hex_digit
from_pairs [] = ok []
from_pairs (x ∷ []) = ok []
from_pairs (x ∷ y ∷ rest) = do
  hi ← or_not_hex (hex_digit x)
  lo ← or_not_hex (hex_digit y)
  bytes ← from_pairs rest
  ok (bit_or (hi * 16 % 256) lo ∷ bytes)

unfoldable pub from_hex : Bytes → Result ScalarError ObjectId
unfolding from_pairs
from_hex s = do
  guard (length s == 24) (invalid 0x07 "object id hex string must be 24 characters")
  bytes ← from_pairs s
  ok (record { bytes = bytes })

some_is : ℕ → Option ℕ → Bool
some_is n none = false
some_is n (some m) = m == n

some_is→eq : (n : ℕ) (o : Option ℕ) → some_is n o ≡ true → o ≡ some n
some_is→eq n none h = unfold some_is in cc
some_is→eq n (some m) h = unfold some_is in ground arith

-- A byte's two digits give the byte back.
digits_table :
    holds_below 256 (λ b.
      some_is (b / 16) (hex_digit (get_or hex_digits (b / 16) 0))
      && some_is (b % 16) (hex_digit (get_or hex_digits (b % 16) 0))
      && (bit_or (b / 16 * 16 % 256) (b % 16) == b))
    ≡ true
unfolding holds_below some_is hex_digit
digits_table = refl

digits_back :
    (b : ℕ)
    → b < 256
    → (hex_digit (get_or hex_digits (b / 16) 0) ≡ some (b / 16))
      × (hex_digit (get_or hex_digits (b % 16) 0) ≡ some (b % 16))
      × (bit_or (b / 16 * 16 % 256) (b % 16) ≡ b)
digits_back b h = ground (
  arith,
  holds_below→true 256 _ b digits_table h,
  some_is→eq (b / 16) (hex_digit (get_or hex_digits (b / 16) 0)),
  some_is→eq (b % 16) (hex_digit (get_or hex_digits (b % 16) 0)),
)

from_pairs-hex_of : (bs : Bytes) → AreBytes bs → from_pairs (hex_of bs) ≡ ok bs
unfolding from_pairs hex_of
from_pairs-hex_of [] h = refl
from_pairs-hex_of (b ∷ bs) (hb, h) =
    let (hi, lo, whole) = digits_back b hb in rw (hi, lo, from_pairs-hex_of bs h, whole)

length-hex_of : (bs : Bytes) → length (hex_of bs) ≡ 2 * length bs
unfolding hex_of
length-hex_of [] = refl
length-hex_of (b ∷ bs) = omega (arith, length-hex_of bs)

-- An ObjectId is read back from the text that it prints as.
pub from_hex-to_hex : (id : ObjectId) → IsSized 12 id.bytes → from_hex (to_hex id) ≡ ok id
unfolding from_hex to_hex
from_hex-to_hex id (hb, n) = rw (length-hex_of id.bytes, n, from_pairs-hex_of id.bytes hb)
