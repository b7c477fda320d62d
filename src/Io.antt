-- ===== src/Io.antt =====
-- mongo_common/src/io.rs: reading from a byte slice and writing into a growing buffer. A reader
-- returns the value and what is left of the slice; on an error the slice is the caller's, as it
-- was. A writer returns the longer buffer.
pub mod Laws
use mongowire.Base.{
  ℕ, ◌+◌, Bool, true, false, Option, none, some, List, [], ◌∷◌, ◌++◌, String, ℤ, Bytes, length,
  take, drop, set, get_or, ltb, if◌then◌else◌, Result, ok, err, ◌>>=◌, signed, pattern_of, i32_half,
  i64_half, to_le, from_le, position_nul, contains_nul,
}

pub data ReadError : Type 0 where
  short_input : ℕ → ℕ → ReadError
  invalid : String → ReadError

pub data WriteError : Type 0 where
  nul_in_string : WriteError

unfoldable pub read_bytes : ℕ → Bytes → Result ReadError (Bytes × Bytes)
read_bytes n r =
    if ltb (length r) n then err (short_input n (length r)) else ok (take n r, drop n r)

unfoldable pub remaining : Bytes → ℕ
remaining r = length r

-- Four bytes of a slice as a signed integer.
unfoldable pub i32_from_le : Bytes → ℤ
i32_from_le b = signed i32_half (from_le b)

unfoldable pub i64_from_le : Bytes → ℤ
i64_from_le b = signed i64_half (from_le b)

unfoldable pub peek_i32_le : Bytes → Result ReadError ℤ
peek_i32_le r =
    if ltb (length r) 4 then err (short_input 4 (length r)) else ok (i32_from_le (take 4 r))

unfoldable pub read_u8 : Bytes → Result ReadError (ℕ × Bytes)
read_u8 r = do (b, r') ← read_bytes 1 r; ok (get_or b 0 0, r')

unfoldable pub read_i32_le : Bytes → Result ReadError (ℤ × Bytes)
read_i32_le r = do (b, r') ← read_bytes 4 r; ok (i32_from_le b, r')

unfoldable pub read_u32_le : Bytes → Result ReadError (ℕ × Bytes)
read_u32_le r = do (b, r') ← read_bytes 4 r; ok (from_le b, r')

unfoldable pub read_i64_le : Bytes → Result ReadError (ℤ × Bytes)
read_i64_le r = do (b, r') ← read_bytes 8 r; ok (i64_from_le b, r')

unfoldable pub read_u64_le : Bytes → Result ReadError (ℕ × Bytes)
read_u64_le r = do (b, r') ← read_bytes 8 r; ok (from_le b, r')

unfoldable pub read_cstring : Bytes → Result ReadError (Bytes × Bytes)
read_cstring r = elim (position_nul r) [
  | some pos ↦ ok (take pos r, drop 1 (drop pos r))
  | none ↦ err (short_input (length r + 1) (length r))
]

unfoldable pub put_bytes : Bytes → Bytes → Bytes
put_bytes out b = out ++ b

unfoldable pub put_u8 : Bytes → ℕ → Bytes
put_u8 out v = out ++ v ∷ []

unfoldable pub put_u8_at : Bytes → ℕ → ℕ → Bytes
put_u8_at out pos v = set out pos v

-- `v.to_le_bytes()` of an i32 and of an i64.
abbrev pub i32_to_le : ℤ → Bytes
i32_to_le v = to_le 4 (pattern_of i32_half v)

abbrev pub i64_to_le : ℤ → Bytes
i64_to_le v = to_le 8 (pattern_of i64_half v)

unfoldable pub put_i32_le : Bytes → ℤ → Bytes
unfolding put_bytes
put_i32_le out v = put_bytes out (i32_to_le v)

unfoldable pub put_u32_le : Bytes → ℕ → Bytes
unfolding put_bytes
put_u32_le out v = put_bytes out (to_le 4 v)

unfoldable pub put_i64_le : Bytes → ℤ → Bytes
unfolding put_bytes
put_i64_le out v = put_bytes out (i64_to_le v)

unfoldable pub put_u64_le : Bytes → ℕ → Bytes
unfolding put_bytes
put_u64_le out v = put_bytes out (to_le 8 v)

unfoldable pub put_cstring : Bytes → Bytes → Result WriteError Bytes
unfolding put_bytes put_u8
put_cstring out s = if contains_nul s then err nul_in_string else ok (put_u8 (put_bytes out s) 0)

-- The offset of the placeholder, and the buffer with it.
unfoldable pub placeholder_i32 : Bytes → ℕ × Bytes
unfolding put_bytes
placeholder_i32 out = (length out, put_bytes out (0 ∷ 0 ∷ 0 ∷ 0 ∷ []))

unfoldable pub put_i32_le_at : Bytes → ℕ → ℤ → Bytes
unfolding put_u8_at
put_i32_le_at out pos v =
    let b = i32_to_le v in
    let out1 = put_u8_at out pos (get_or b 0 0) in
    let out2 = put_u8_at out1 (pos + 1) (get_or b 1 0) in
    let out3 = put_u8_at out2 (pos + 2) (get_or b 2 0) in put_u8_at out3 (pos + 3) (get_or b 3 0)
