-- ===== src/Wire/Framing.antt =====
-- mongowire/src/framing.rs: one message off the front of the receive buffer, and one message onto the
-- end of the send buffer. The CRC-32C of the crc32c package, which mongo_common/src/crc32c.rs calls,
-- is the parameter `crc`. A parse returns the result and the buffer left; an encode returns the
-- result, the header with its length, and the buffer, also where it stops with an error.
pub mod Laws
pub mod Ends
pub mod RoundTrip
pub mod Summed
pub mod Arrival
use mongowire.Base.{
  ℕ, ◌+◌, ◌-◌, ◌*◌, ◌%◌, ◌^◌, Bool, not, true, false, ◌&&◌, Option, none, some, [], ◌∷◌, ◌++◌,
  Bytes, ℤ, pos, as_usize, fits_i32, i32_half, length, take, drop, ltb, leb, ◌==◌, if◌then◌else◌,
  Result, ok, err, stuck, map_ok, ◌>>=◌, ◌>>◌, guard, from_le, to_le,
}
use mongowire.Io.{put_u32_le}
use mongowire.Bson.Scan.{slice}
use mongowire.Wire.{
  ProtocolError, Opcode, invalid_op_msg, checksum_mismatch, message_too_large, msg_header_len,
  max_msg_len,
}
use mongowire.Wire.Header.{Header, parse, encode}
use mongowire.Wire.Body.{MessageBody, body_len, encode_body, parse_body}

abbrev pub is_msg : Opcode → Bool
is_msg Opcode.msg = true
is_msg _ = false

-- Whether the flag word of a frame has the checksum bit.
abbrev pub claims_checksum : Bytes → Bool
claims_checksum frame = from_le (slice 16 20 frame) % 2 == 1

-- The checks on a whole frame of `n` bytes before it is consumed.
unfoldable pub check_frame : (Bytes → ℕ) → Opcode → Bytes → ℕ → Result ProtocolError (Unit {0})
check_frame crc o frame n = do
  guard (not (is_msg o && (leb 20 n && (ltb n 26 && claims_checksum frame))))
      (invalid_op_msg "frame too short for a checksummed OP_MSG")
  let expected = from_le (drop (n - 4) frame)
  let computed = crc (take (n - 4) frame)
  (if is_msg o && (leb 24 n && claims_checksum frame)
      then guard (computed == expected) (checksum_mismatch expected computed)
      else ok tt)

-- What a parse returns: the message, `none` for an incomplete frame, or an error; and the buffer.
abbrev pub Parsed : Type 0
Parsed = Result ProtocolError (Option (Header × MessageBody)) × Bytes

-- The frame is whole and checked: it is consumed, whatever its body holds.
unfoldable pub consume : Header → Bytes → ℕ → Parsed
consume header buf n = (
  map_ok (λ body. some (header, body))
      (parse_body header.op_code (drop msg_header_len (take n buf))),
  drop n buf,
)

unfoldable pub parse_frame : (Bytes → ℕ) → Header → Bytes → ℕ → Parsed
unfolding check_frame consume
parse_frame crc header buf n =
    if ltb (length buf) n
    then (ok none, buf)
    else elim (check_frame crc header.op_code (take n buf) n) [
      | ok u ↦ consume header buf n
      | err e ↦ (err e, buf)
      | stuck ↦ (Result.stuck, buf)
    ]

unfoldable pub parse_message : (Bytes → ℕ) → Bytes → ℤ → Parsed
unfolding parse_frame
parse_message crc buf max_len =
    if ltb (length buf) msg_header_len
    then (ok none, buf)
    else elim (parse (take msg_header_len buf) max_len) [
      | ok header ↦ parse_frame crc header buf (as_usize header.message_length)
      | err e ↦ (err e, buf)
      | stuck ↦ (Result.stuck, buf)
    ]

-- What an encode returns.
abbrev pub Encoded : Type 0
Encoded = Result ProtocolError (Unit {0}) × Header × Bytes

-- `out[at..at + 4]` overwritten.
abbrev pub put_word_at : Bytes → ℕ → ℕ → Bytes
put_word_at out at v = take at out ++ (to_le 4 v ++ drop (at + 4) out)

-- The checksum flag set in the flag word at the offset: `flag_bits | CHECKSUM_PRESENT`.
unfoldable pub set_checksum_flag : Bytes → ℕ → Bytes
set_checksum_flag out at =
    let flag_bits = from_le (slice at (at + 4) out) in
    put_word_at out at (flag_bits - flag_bits % 2 + 1)

unfoldable pub put_trailer : (Bytes → ℕ) → ℕ → Bytes → Bytes
unfolding put_u32_le
put_trailer crc start out = put_u32_le out (crc (drop start out))

-- The trailer of a message that stands at `start`.
unfoldable pub finish : (Bytes → ℕ) → ℕ → MessageBody → Header → Bytes → Encoded
unfolding set_checksum_flag put_trailer
finish crc start (MessageBody.msg m) h out = elim m.checksum [
  | some c ↦ (err (invalid_op_msg "body already carries a checksum trailer"), h, out)
  | none ↦ (ok tt, h, put_trailer crc start (set_checksum_flag out (start + msg_header_len)))
]
finish crc start _ h out = (ok tt, h, put_trailer crc start out)

abbrev pub max_total : ℕ
max_total = 48000000

unfoldable pub encode_message : (Bytes → ℕ) → Header → MessageBody → Bool → Bytes → Encoded
unfolding finish encode encode_body body_len
encode_message crc header body checksum out =
    let total = msg_header_len + body_len body + (if checksum then 4 else 0) in
    if not (fits_i32 total)
    then (err (message_too_large (pos (i32_half - 1)) max_msg_len), header, out)
    else if ltb max_total total
    then (err (message_too_large (pos total) max_msg_len), header, out)
    else (let h = record header { message_length = pos total } in
        let written = encode_body body (encode h out) in
        if checksum then finish crc (length out) body h written else (ok tt, h, written))
