-- ===== src/Base/Words.antt =====
-- Byte strings as lists of numbers below 256, and little-endian words over them.
use Prim.Native.Nat.{ℕ, zero, suc, ◌+◌, ◌*◌, ◌/◌, ◌%◌, ◌<◌, ◌^◌}
use mathlib.Core.Path.{◌≡◌, refl, ap}
use mathlib.Core.List.{List, [], ◌∷◌}
use native.Mathlib.Omega.{arith}
use native.Mathlib.Nat.{pow-suc}
use mongowire.Base.Lists.{length, All}

abbrev pub Bytes : Type 0
Bytes = List ℕ

abbrev pub IsByte : ℕ → Type 0
IsByte b = b < 256

abbrev pub AreBytes : Bytes → Type 0
AreBytes bs = All IsByte bs

-- `v.to_le_bytes()` for a type of `k` bytes.
unfoldable pub to_le : ℕ → ℕ → Bytes
to_le zero v = []
to_le (suc k) v = (v % 256) ∷ to_le k (v / 256)

-- `from_le_bytes(bs)`, unsigned.
unfoldable pub from_le : Bytes → ℕ
from_le [] = 0
from_le (b ∷ bs) = b + 256 * from_le bs

pub length-to_le : (k v : ℕ) → length (to_le k v) ≡ k
unfolding to_le
length-to_le zero v = refl
length-to_le (suc k) v = ap suc (length-to_le k (v / 256))

pub to_le-AreBytes : (k v : ℕ) → AreBytes (to_le k v)
unfolding to_le
to_le-AreBytes zero v = tt
to_le-AreBytes (suc k) v = (omega arith, to_le-AreBytes k (v / 256))

-- A value of `k` bytes is below `256 ^ k`.
pub from_le-to_le : (k v : ℕ) → v < 256 ^ k → from_le (to_le k v) ≡ v
unfolding to_le from_le
from_le-to_le zero v h = omega arith
from_le-to_le (suc k) v h = omega (arith, from_le-to_le k (v / 256) (omega (arith, pow-suc 256 k)))

low : (b w : ℕ) → b < 256 → (b + 256 * w) % 256 ≡ b
low b w h = omega arith

high : (b w : ℕ) → b < 256 → (b + 256 * w) / 256 ≡ w
high b w h = omega arith

pub to_le-from_le : (bs : Bytes) → AreBytes bs → to_le (length bs) (from_le bs) ≡ bs
unfolding to_le from_le
to_le-from_le [] h = refl
to_le-from_le (b ∷ bs) (hb, h) =
    rw (low b (from_le bs) hb, high b (from_le bs) hb) (ap (λ t. b ∷ t) (to_le-from_le bs h))

pub from_le-lt : (bs : Bytes) → AreBytes bs → from_le bs < 256 ^ length bs
unfolding from_le
from_le-lt [] h = omega arith
from_le-lt (b ∷ bs) (hb, h) = omega (arith, from_le-lt bs h, pow-suc 256 (length bs))
