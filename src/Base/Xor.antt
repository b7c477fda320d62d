-- ===== src/Base/Xor.antt =====
-- Byte-wise exclusive or.
use Prim.Native.Nat.{ℕ, suc, ◌<◌, bit_xor}
use mathlib.Core.Path.{◌≡◌, refl, ap}
use mathlib.Core.Bool.{Bool, true, ◌&&◌}
use mathlib.Core.List.{[], ◌∷◌}
use native.Mathlib.Omega.{arith}
use mongowire.Base.Tests.{ltb, ◌==◌}
use mongowire.Base.Lists.{length}
use mongowire.Base.Words.{Bytes, AreBytes}
use mongowire.Base.Table.{holds_below, holds_below→true}

-- `lhs.iter().zip(rhs.iter()).map(|(l, r)| l ^ r).collect()`
unfoldable pub xor_bytes : Bytes → Bytes → Bytes
xor_bytes [] rhs = []
xor_bytes (l ∷ lhs) [] = []
xor_bytes (l ∷ lhs) (r ∷ rhs) = bit_xor l r ∷ xor_bytes lhs rhs

undone : ℕ → ℕ → Bool
undone a b = (bit_xor (bit_xor a b) b == a) && ltb (bit_xor a b) 256

undone_table : holds_below 256 (λ a. holds_below 256 (λ b. undone a b)) ≡ true
unfolding holds_below undone
undone_table = refl

-- A byte masked twice is the byte, and a masked byte is a byte.
undo : (a b : ℕ) → a < 256 → b < 256 → (bit_xor (bit_xor a b) b ≡ a) × (bit_xor a b < 256)
unfolding undone
undo a b ha hb =
    let row = holds_below→true 256 (λ x. holds_below 256 (λ y. undone x y)) a undone_table ha in
    let cell = holds_below→true 256 (λ y. undone a y) b row hb in ground (arith, cell)

pub xor_bytes-twice :
    (xs ys : Bytes)
    → AreBytes xs
    → AreBytes ys
    → length xs ≡ length ys
    → xor_bytes (xor_bytes xs ys) ys ≡ xs
unfolding xor_bytes
xor_bytes-twice [] ys h k e = refl
xor_bytes-twice (x ∷ xs) [] h k e = absurd (omega arith)
xor_bytes-twice (x ∷ xs) (y ∷ ys) (hx, h) (ky, k) e =
    rw ((undo x y hx ky).0, xor_bytes-twice xs ys h k (omega arith)) refl

pub xor_bytes-AreBytes : (xs ys : Bytes) → AreBytes xs → AreBytes ys → AreBytes (xor_bytes xs ys)
unfolding xor_bytes
xor_bytes-AreBytes [] ys h k = tt
xor_bytes-AreBytes (x ∷ xs) [] h k = tt
xor_bytes-AreBytes (x ∷ xs) (y ∷ ys) (hx, h) (ky, k) =
    ((undo x y hx ky).1, xor_bytes-AreBytes xs ys h k)

pub length-xor_bytes :
    (xs ys : Bytes) → length xs ≡ length ys → length (xor_bytes xs ys) ≡ length ys
unfolding xor_bytes
length-xor_bytes [] ys e = e
length-xor_bytes (x ∷ xs) [] e = absurd (omega arith)
length-xor_bytes (x ∷ xs) (y ∷ ys) e = ap suc (length-xor_bytes xs ys (omega arith))
