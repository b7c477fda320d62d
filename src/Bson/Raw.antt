-- ===== src/Bson/Raw.antt =====
-- wirebson/src/raw.rs: the validation of a document's bytes, and the command name at its front.
use mongowire.Base.{
  ℕ, ◌+◌, ◌-◌, ◌≤◌, ◌≡◌, ◌↔◌, not, none, some, [], ◌∷◌, Bytes, length, take, drop, get_or, ltb,
  ◌==◌, if◌then◌else◌, Result, ok, err, ◌>>=◌, ◌>>◌, guard, from_le, arith, is_utf8, position_nul,
}
use mongowire.Bson.{
  RawDocument, RawArray, Error, short_input, invalid_input, below_minimum, invalid, length_mismatch,
  utf8, min_doc_len,
}

-- `u32::from_le_bytes` of the first four bytes.
abbrev pub declared_len : Bytes → ℕ
declared_len b = from_le (take 4 b)

unfoldable pub from_bytes : Bytes → Result Error RawDocument
from_bytes b = do
  let actual = length b
  guard (not (ltb actual min_doc_len)) (short_input min_doc_len actual)
  let declared = declared_len b
  guard (not (ltb declared min_doc_len)) (invalid_input 0 (below_minimum declared))
  guard (declared == actual) (length_mismatch declared actual)
  guard (get_or b (actual - 1) 0 == 0) (invalid (actual - 1) "missing trailing NUL")
  ok (record { bytes = b })

unfoldable pub array_from_bytes : Bytes → Result Error RawArray
unfolding from_bytes
array_from_bytes b = do d ← from_bytes b; ok (record { bytes = d.bytes })

-- The name behind the tag byte of the first field.
unfoldable pub first_name : Bytes → Bytes → Result Error Bytes
first_name bytes name = elim (position_nul name) [
  | none ↦ err (short_input (length bytes + 1) (length bytes))
  | some end ↦ do guard (is_utf8 (take end name)) utf8; ok (take end name)
]

unfoldable pub command_of_body : Bytes → Bytes → Result Error Bytes
unfolding first_name
command_of_body bytes [] = ok []
command_of_body bytes (tag ∷ name) = if tag == 0 then ok [] else first_name bytes name

unfoldable pub command : RawDocument → Result Error Bytes
unfolding command_of_body
command d =
    if ltb (length d.bytes) 4
    then err (short_input min_doc_len (length d.bytes))
    else command_of_body d.bytes (drop 4 d.bytes)

-- The bytes of a document are its length, a body, and a NUL.
abbrev pub IsRaw : Bytes → Type 0
IsRaw b = (5 ≤ length b) × (declared_len b ≡ length b) × (get_or b (length b - 1) 0 ≡ 0)

-- `from_bytes` accepts exactly the byte strings of at least five bytes that declare their own length
-- and end in a NUL, and keeps them as they are.
pub from_bytes_iff :
    (b : Bytes) (d : RawDocument) → (from_bytes b ≡ ok d) ↔ ((d.bytes ≡ b) × IsRaw b)
unfolding from_bytes
from_bytes_iff b d = (λ h. ground arith, λ h. ground arith)
