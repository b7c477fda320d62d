-- ===== src/Wire/Header.antt =====
-- mongowire/src/messages/header.rs: the 16 bytes at the front of a message.
use mongowire.Base.{
  ◌≡◌, not, false, none, some, [], ◌++◌, Bytes, ℤ, pos, Fits, i32_half, ltb_ℤ, stuck, length,
  length-append, take, ltb, Result, ok, err, ◌>>=◌, ◌>>◌, guard, arith, append_assoc, append-nil,
  length-to_le, pattern_of, take-append,
}
use mongowire.Io.{read_i32_le, i32_to_le, put_bytes}
use mongowire.Io.Laws.{read_i32_le-append}
use mongowire.Wire.{
  ProtocolError, invalid_header, message_too_large, unsupported_opcode, Opcode, to_i32, from_i32,
  msg_header_len, max_msg_len, from_i32-to_i32,
}

pub record Header : Type 0 where
  pub message_length : ℤ
  pub request_id : ℤ
  pub response_to : ℤ
  pub op_code : Opcode

-- `r.read_i32_le().unwrap_or(0)`: on an error the slice stays where it is.
unfoldable pub read_or_zero : Bytes → ℤ × Bytes
read_or_zero r = elim (read_i32_le r) [ ok p ↦ p | err e ↦ (pos 0, r) | stuck ↦ (pos 0, r) ]

unfoldable pub parse_opcode : ℤ → Result ProtocolError Opcode
parse_opcode raw = elim (from_i32 raw) [ none ↦ err (unsupported_opcode raw) | some o ↦ ok o ]

unfoldable pub parse : Bytes → ℤ → Result ProtocolError Header
unfolding read_or_zero parse_opcode
parse buf max_len = do
  guard (not (ltb (length buf) msg_header_len)) (invalid_header "short header")
  let (message_length, r1) = read_or_zero (take msg_header_len buf)
  guard (not (ltb_ℤ message_length (pos msg_header_len)))
      (invalid_header "length below header size")
  guard (not (ltb_ℤ max_len message_length)) (message_too_large message_length max_len)
  guard (not (ltb_ℤ max_msg_len message_length)) (message_too_large message_length max_msg_len)
  let (request_id, r2) = read_or_zero r1
  let (response_to, r3) = read_or_zero r2
  let (raw_opcode, r4) = read_or_zero r3
  op_code ← parse_opcode raw_opcode
  ok (record {
    message_length = message_length;
    request_id = request_id;
    response_to = response_to;
    op_code = op_code;
  })

unfoldable pub encode : Header → Bytes → Bytes
unfolding put_bytes to_i32
encode h out =
    put_bytes
      (put_bytes (put_bytes (put_bytes out (i32_to_le h.message_length)) (i32_to_le h.request_id))
        (i32_to_le h.response_to))
      (i32_to_le (to_i32 h.op_code))

-- The 16 bytes of a header.
abbrev pub header_bytes : Header → Bytes
header_bytes h =
    i32_to_le h.message_length
    ++ (i32_to_le h.request_id ++ (i32_to_le h.response_to ++ i32_to_le (to_i32 h.op_code)))

pub encode-bytes : (h : Header) (out : Bytes) → encode h out ≡ out ++ header_bytes h
unfolding encode put_bytes
encode-bytes h out = simp append_assoc

pub length-header_bytes : (h : Header) → length (header_bytes h) ≡ 16
length-header_bytes h = omega (
  arith,
  length-to_le 4 (pattern_of i32_half h.message_length),
  length-to_le 4 (pattern_of i32_half h.request_id),
  length-to_le 4 (pattern_of i32_half h.response_to),
  length-to_le 4 (pattern_of i32_half (to_i32 h.op_code)),
  length-append (i32_to_le h.message_length)
      (i32_to_le h.request_id ++ (i32_to_le h.response_to ++ i32_to_le (to_i32 h.op_code))),
  length-append (i32_to_le h.request_id) (i32_to_le h.response_to ++ i32_to_le (to_i32 h.op_code)),
  length-append (i32_to_le h.response_to) (i32_to_le (to_i32 h.op_code)),
)

pub opcode-Fits : (o : Opcode) → Fits i32_half (to_i32 o)
unfolding to_i32
opcode-Fits Opcode.reply = omega arith
opcode-Fits _ = omega arith

-- The length bounds that `parse` checks, and the range of the identifiers.
abbrev pub IsHeader : ℤ → Header → Type 0
IsHeader max_len h =
    (ltb_ℤ h.message_length (pos 16) ≡ false)
    × (ltb_ℤ max_len h.message_length ≡ false)
    × (ltb_ℤ max_msg_len h.message_length ≡ false)
    × Fits i32_half h.message_length
    × Fits i32_half h.request_id
    × Fits i32_half h.response_to

read_or_zero-append :
    (v : ℤ) (rest : Bytes) → Fits i32_half v → read_or_zero (i32_to_le v ++ rest) ≡ (v, rest)
unfolding read_or_zero
read_or_zero-append v rest h = rw (read_i32_le-append v rest h, read_or_zero)

-- The opcode is the last field: nothing follows it.
read_or_zero_last : (v : ℤ) → Fits i32_half v → read_or_zero (i32_to_le v) ≡ (v, [])
read_or_zero_last v h = rw (append-nil (i32_to_le v)) at (read_or_zero-append v [] h)

-- A header whose length lies in the bounds, and whose fields are 32-bit integers, is read back from
-- the bytes that `encode` writes, whatever follows them.
pub parse-encode :
    (h : Header) (rest : Bytes) (max_len : ℤ)
    → IsHeader max_len h
    → parse (encode h [] ++ rest) max_len ≡ ok h
unfolding parse parse_opcode
parse-encode h rest max_len (low, high, top, f1, f2, f3) =
    let e1 =
      read_or_zero-append h.message_length
        (i32_to_le h.request_id ++ (i32_to_le h.response_to ++ i32_to_le (to_i32 h.op_code))) f1 in
    let e2 =
      read_or_zero-append h.request_id (i32_to_le h.response_to ++ i32_to_le (to_i32 h.op_code))
        f2 in
    let e3 = read_or_zero-append h.response_to (i32_to_le (to_i32 h.op_code)) f3 in
    let e4 = read_or_zero_last (to_i32 h.op_code) (opcode-Fits h.op_code) in
    let cut = rw (length-header_bytes h) at (take-append (header_bytes h) rest) in
    rw (encode-bytes h []) (
      ground (
        arith,
        cut,
        e1,
        e2,
        e3,
        e4,
        low,
        high,
        top,
        from_i32-to_i32 h.op_code,
        length-header_bytes h,
        length-append (header_bytes h) rest,
      ))
