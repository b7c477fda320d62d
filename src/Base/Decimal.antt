-- ===== src/Base/Decimal.antt =====
-- Decimal numbers: the digits of `to_string` and `str::parse::<u32>`.
use Prim.Native.Nat.{ℕ, zero, suc, ◌+◌, ◌-◌, ◌*◌, ◌/◌, ◌%◌, ◌^◌, ◌≤◌, ◌<◌}
use mathlib.Core.Path.{◌≡◌, refl, ◌∙◌}
use mathlib.Core.Bool.{true, false, ◌&&◌}
use mathlib.Core.Option.{Option, none, some}
use mathlib.Core.List.{[], ◌∷◌}
use native.Mathlib.Omega.{arith}
use mongowire.Base.Tests.{ltb, leb, ◌==◌, if◌then◌else◌}
use mongowire.Base.Lists.{length, All}
use mongowire.Base.Words.{Bytes}
use mongowire.Base.Split.{contains}
use mongowire.Base.Text.{is_utf8, is_utf8_ascii, contains_nul}

-- The decimal digits of `n`, put before `acc`; `fuel` rounds at most.
digits_from : ℕ → ℕ → Bytes → Bytes
digits_from zero n acc = acc
digits_from (suc fuel) n acc =
    let rest = digits_from fuel (n / 10) ((48 + n % 10) ∷ acc) in
    if ltb n 10 then (48 + n) ∷ acc else rest

-- `n.to_string()`; `n + 1` rounds are more than it has digits.
unfoldable pub to_string : ℕ → Bytes
unfolding digits_from
to_string n = digits_from (suc n) n []

IsDigit : ℕ → Type 0
IsDigit b = (48 ≤ b) × (b < 58)

digits_from-All :
    (fuel n : ℕ) (acc : Bytes) → All IsDigit acc → All IsDigit (digits_from fuel n acc)
unfolding digits_from IsDigit
digits_from-All zero n acc h = h
digits_from-All (suc fuel) n acc h =
    ground
      (arith, digits_from-All fuel (n / 10) ((48 + n % 10) ∷ acc) ((omega arith, omega arith), h))

ascii_of_digits : (bs : Bytes) → All IsDigit bs → All (λ b. b < 128) bs
unfolding IsDigit
ascii_of_digits [] h = tt
ascii_of_digits (b ∷ bs) (hb, h) = (omega arith, ascii_of_digits bs h)

contains_nul-digits : (bs : Bytes) → All IsDigit bs → contains_nul bs ≡ false
unfolding IsDigit contains_nul
contains_nul-digits [] h = refl
contains_nul-digits (b ∷ bs) (hb, h) = ground (arith, contains_nul-digits bs h)

-- A decimal number is ASCII text with no NUL, as an array's key has to be.
pub to_string_text : (n : ℕ) → (is_utf8 (to_string n) ≡ true) × (contains_nul (to_string n) ≡ false)
unfolding to_string
to_string_text n =
    let digits = digits_from-All (suc n) n [] tt in
    (is_utf8_ascii _ (ascii_of_digits _ digits), contains_nul-digits _ digits)

-- The decimal value of digits read after those of `acc`, below 2^32.
parse_digits : ℕ → Bytes → Option ℕ
parse_digits acc [] = some acc
parse_digits acc (b ∷ bs) =
    let next = acc * 10 + (b - b'0') in
    let rest = parse_digits next bs in
    if leb b'0' b && leb b b'9' && ltb next (2 ^ 32) then rest else none

-- `s.parse::<u32>()`: digits after an optional plus sign.
unfoldable pub parse_u32 : Bytes → Option ℕ
unfolding parse_digits
parse_u32 [] = none
parse_u32 (b ∷ []) = if b == b'+' then none else parse_digits 0 (b ∷ [])
parse_u32 (b ∷ c ∷ bs) = if b == b'+' then parse_digits 0 (c ∷ bs) else parse_digits 0 (b ∷ c ∷ bs)

parse_digits-digits_from :
    (fuel n : ℕ) (acc : Bytes)
    → n < fuel
    → n < 2 ^ 32
    → parse_digits 0 (digits_from fuel n acc) ≡ parse_digits n acc
unfolding digits_from parse_digits
parse_digits-digits_from zero n acc h k = absurd (omega arith)
parse_digits-digits_from (suc fuel) n acc h k =
    ground (arith, parse_digits-digits_from fuel (n / 10) ((48 + n % 10) ∷ acc))

digits_from-ne-nil :
    (fuel n : ℕ) (acc : Bytes) → 0 < length acc → 0 < length (digits_from fuel n acc)
unfolding digits_from
digits_from-ne-nil zero n acc h = h
digits_from-ne-nil (suc fuel) n acc h =
    ground (arith, digits_from-ne-nil fuel (n / 10) ((48 + n % 10) ∷ acc))

to_string-ne-nil : (n : ℕ) → 0 < length (to_string n)
unfolding to_string digits_from
to_string-ne-nil n = ground (arith, digits_from-ne-nil n (n / 10) ((48 + n % 10) ∷ []))

parse_u32_unsigned :
    (bs : Bytes) → All IsDigit bs → 0 < length bs → parse_u32 bs ≡ parse_digits 0 bs
unfolding parse_u32 IsDigit
parse_u32_unsigned [] h k = absurd (omega arith)
parse_u32_unsigned (b ∷ []) (hb, h) k = ground arith
parse_u32_unsigned (b ∷ c ∷ bs) (hb, h) k = ground arith

pub parse_u32-to_string : (n : ℕ) → n < 2 ^ 32 → parse_u32 (to_string n) ≡ some n
unfolding to_string parse_digits
parse_u32-to_string n h =
    parse_u32_unsigned (to_string n) (digits_from-All (suc n) n [] tt) (to_string-ne-nil n)
    ∙ parse_digits-digits_from (suc n) n [] (omega arith) h

contains-digits : (c : ℕ) (bs : Bytes) → c < 48 → All IsDigit bs → contains c bs ≡ false
unfolding IsDigit contains
contains-digits c [] k h = refl
contains-digits c (b ∷ bs) k (hb, h) = ground (arith, contains-digits c bs k h)

pub contains-to_string : (c n : ℕ) → c < 48 → contains c (to_string n) ≡ false
unfolding to_string
contains-to_string c n h = contains-digits c (to_string n) h (digits_from-All (suc n) n [] tt)
