-- ===== src/Base/Text.antt =====
-- Text as its UTF-8 bytes: the validation of `std::str::from_utf8`, the search for a NUL byte,
-- and equality.
use Prim.Native.Char.{code}
use Prim.Native.String.{String}
use Prim.Native.Nat.{ℕ, zero, suc, ◌<◌}
use mathlib.Core.Path.{◌≡◌, refl}
use mathlib.Core.Logic.{inl, inr}
use mathlib.Core.Bool.{Bool, true, false, ◌&&◌, ◌||◌}
use mathlib.Core.Option.{Option, none, some}
use mathlib.Core.Option
use mathlib.Core.List.{List, [], ◌∷◌, ◌++◌}
use native.Mathlib.Omega.{arith}
use mongowire.Base.Tests.{ltb, leb, ◌==◌, if◌then◌else◌, Option-cases}
use mongowire.Base.Lists.{length, take, drop, All}
use mongowire.Base.Words.{Bytes}

-- The code points of a text literal: its bytes, if it is ASCII.
abbrev pub codes : String → Bytes
codes String.[] = []
codes (String.◌∷◌ c s) = code c ∷ codes s

-- What may follow a lead byte: how many continuation bytes, and the range of the first one.
lead : ℕ → Option (ℕ × ℕ × ℕ)
lead b =
    if ltb b 0x80
    then some (0, 0, 0)
    else if leb 0xc2 b && leb b 0xdf
    then some (1, 0x80, 0xbf)
    else if b == 0xe0
    then some (2, 0xa0, 0xbf)
    else if b == 0xed
    then some (2, 0x80, 0x9f)
    else if leb 0xe1 b && leb b 0xef
    then some (2, 0x80, 0xbf)
    else if b == 0xf0
    then some (3, 0x90, 0xbf)
    else if leb 0xf1 b && leb b 0xf3
    then some (3, 0x80, 0xbf)
    else if b == 0xf4
    then some (3, 0x80, 0x8f)
    else none

utf8_from : ℕ → ℕ → ℕ → Bytes → Bool
utf8_from zero lo hi [] = true
utf8_from (suc k) lo hi [] = false
utf8_from zero lo hi (b ∷ bs) = elim (lead b) [
  | none ↦ false
  | some (k, lo', hi') ↦ utf8_from k lo' hi' bs
]
utf8_from (suc k) lo hi (b ∷ bs) = leb lo b && leb b hi && utf8_from k 0x80 0xbf bs

-- `std::str::from_utf8(bs).is_ok()`
unfoldable pub is_utf8 : Bytes → Bool
unfolding lead utf8_from
is_utf8 bs = utf8_from zero 0 0 bs

pub is_utf8_ascii : (bs : Bytes) → All (λ b. b < 128) bs → is_utf8 bs ≡ true
unfolding is_utf8
is_utf8_ascii [] h = refl
is_utf8_ascii (b ∷ bs) (hb, h) = ground (arith, is_utf8_ascii bs h)

-- `bs.iter().position(|&b| b == 0)`
unfoldable pub position_nul : Bytes → Option ℕ
position_nul [] = none
position_nul (b ∷ bs) = if b == 0 then some 0 else Option.map (λ i. suc i) (position_nul bs)

-- `bs.contains(&0)`
unfoldable pub contains_nul : Bytes → Bool
contains_nul [] = false
contains_nul (b ∷ bs) = b == 0 || contains_nul bs

pub position_nul-append :
    (s rest : Bytes) → contains_nul s ≡ false → position_nul (s ++ 0 ∷ rest) ≡ some (length s)
unfolding position_nul contains_nul
position_nul-append [] rest h = refl
position_nul-append (b ∷ s) rest h = ground (arith, position_nul-append s rest)

-- The bytes before the first NUL hold none, and it stands where it was found.
pub position_nul-some :
    (bs : Bytes) (i : ℕ)
    → position_nul bs ≡ some i
    → (contains_nul (take i bs) ≡ false) × (bs ≡ take i bs ++ 0 ∷ drop (suc i) bs) × (i < length bs)
unfolding position_nul contains_nul
position_nul-some [] i h = cc
position_nul-some (b ∷ bs) zero h = ground (arith, Option-cases (position_nul bs))
position_nul-some (b ∷ bs) (suc i) h = ground (arith, position_nul-some bs i)

-- A NUL within a cut.
pub position_nul-take :
    (n : ℕ) (bs : Bytes) (i : ℕ)
    → position_nul (take n bs) ≡ some i
    → (position_nul bs ≡ some i) × (i < n)
unfolding position_nul
position_nul-take zero bs i h = cc
position_nul-take (suc n) [] i h = cc
position_nul-take (suc n) (b ∷ bs) zero h = ground (arith, Option-cases (position_nul (take n bs)))
position_nul-take (suc n) (b ∷ bs) (suc i) h = elim (Option-cases (position_nul (take n bs))) [
  | inl e ↦ ground arith
  | inr (j, e) ↦ ground (arith, position_nul-take n bs j e)
]

-- Equality of byte strings.
unfoldable pub bytes_eq : Bytes → Bytes → Bool
bytes_eq [] [] = true
bytes_eq [] (b ∷ bs) = false
bytes_eq (a ∷ xs) [] = false
bytes_eq (a ∷ xs) (b ∷ bs) = a == b && bytes_eq xs bs

unfoldable pub mem : Bytes → List Bytes → Bool
mem x [] = false
mem x (y ∷ ys) = bytes_eq x y || mem x ys

pub bytes_eq_refl : (xs : Bytes) → bytes_eq xs xs ≡ true
unfolding bytes_eq
bytes_eq_refl [] = refl
bytes_eq_refl (x ∷ xs) = ground (arith, bytes_eq_refl xs)

pub bytes_eq→eq : (xs ys : Bytes) → bytes_eq xs ys ≡ true → xs ≡ ys
unfolding bytes_eq
bytes_eq→eq [] [] h = refl
bytes_eq→eq [] (y ∷ ys) h = cc
bytes_eq→eq (x ∷ xs) [] h = cc
bytes_eq→eq (x ∷ xs) (y ∷ ys) h = ground (arith, bytes_eq→eq xs ys)
