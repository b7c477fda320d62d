-- ===== src/Wire/Framing/Ends.antt =====
-- mongowire/src/framing.rs: a parse and an encoding end, with a value or an error.
use mongowire.Base.{
  ℕ, ◌≡◌, ◌≢◌, some, Bytes, AreBytes, ok, stuck, drop, take, ℤ, as_usize, Result-cases, inl, inr,
  arith, Bool,
}
use mongowire.Wire.{Opcode}
use mongowire.Wire.Header.{Header, parse, parse_opcode}
use mongowire.Wire.Body.{MessageBody, parse_body}
use mongowire.Wire.Body.Ends.{
  parse_body-ne-stuck, take-AreBytes, drop-AreBytes, HoldsBytes, parse_body-HoldsBytes,
}
use mongowire.Wire.Framing.{
  parse_message, parse_frame, consume, check_frame, encode_message, finish,
}
use mongowire.Wire.Framing.Laws.{parse_message-some}

check_frame-ne-stuck :
    (crc : Bytes → ℕ) (o : Opcode) (frame : Bytes) (n : ℕ) → check_frame crc o frame n ≢ stuck
unfolding check_frame
check_frame-ne-stuck crc o frame n = λ p. ground arith

parse-ne-stuck : (buf : Bytes) (max_len : ℤ) → parse buf max_len ≢ stuck
unfolding parse parse_opcode
parse-ne-stuck buf max_len = λ p. ground arith

consume-ne-stuck :
    (header : Header) (buf : Bytes) (n : ℕ) → AreBytes buf → (consume header buf n).0 ≢ stuck
unfolding consume
consume-ne-stuck header buf n h p =
    elim (Result-cases (parse_body header.op_code (drop 16 (take n buf)))) [
      | inl (b, e) ↦ cc (p, e)
      | inr (inl (x, e)) ↦ cc (p, e)
      | inr (inr e) ↦
          parse_body-ne-stuck header.op_code (drop 16 (take n buf))
            (drop-AreBytes 16 (take n buf) (take-AreBytes n buf h)) e
    ]

parse_frame-ne-stuck :
    (crc : Bytes → ℕ) (header : Header) (buf : Bytes) (n : ℕ)
    → AreBytes buf
    → (parse_frame crc header buf n).0 ≢ stuck
unfolding parse_frame
parse_frame-ne-stuck crc header buf n h p =
    elim (Result-cases (check_frame crc header.op_code (take n buf) n)) [
      | inl (u, e) ↦ ground (arith, e, consume-ne-stuck header buf n h)
      | inr (inl (x, e)) ↦ ground (arith, e)
      | inr (inr e) ↦ check_frame-ne-stuck crc header.op_code (take n buf) n e
    ]

pub parse_message-ne-stuck :
    (crc : Bytes → ℕ) (buf : Bytes) (max_len : ℤ)
    → AreBytes buf
    → (parse_message crc buf max_len).0 ≢ stuck
unfolding parse_message
parse_message-ne-stuck crc buf max_len h p = elim (Result-cases (parse (take 16 buf) max_len)) [
  | inl (header, e) ↦
      ground (arith, e, parse_frame-ne-stuck crc header buf (as_usize header.message_length) h)
  | inr (inl (x, e)) ↦ ground (arith, e)
  | inr (inr e) ↦ parse-ne-stuck (take 16 buf) max_len e
]

finish-ne-stuck :
    (crc : Bytes → ℕ) (start : ℕ) (body : MessageBody) (h : Header) (out : Bytes)
    → (finish crc start body h out).0 ≢ stuck
unfolding finish
finish-ne-stuck crc start (MessageBody.msg m) h out = λ p. ground arith
finish-ne-stuck crc start _ h out = λ p. cc

pub encode_message-ne-stuck :
    (crc : Bytes → ℕ) (header : Header) (body : MessageBody) (checksum : Bool) (out : Bytes)
    → (encode_message crc header body checksum out).0 ≢ stuck
unfolding encode_message
encode_message-ne-stuck crc header body checksum out = λ p. ground (arith, finish-ne-stuck crc)

pub parse_message-HoldsBytes :
    (crc : Bytes → ℕ) (buf rest : Bytes) (max_len : ℤ) (header : Header) (body : MessageBody)
    → AreBytes buf
    → parse_message crc buf max_len ≡ (ok (some (header, body)), rest)
    → HoldsBytes body × AreBytes rest
parse_message-HoldsBytes crc buf rest max_len header body h e =
    let n = as_usize header.message_length in
    let (_, _, _, _, parsed, left) = parse_message-some crc buf rest max_len header body e in
    (
      parse_body-HoldsBytes header.op_code (drop 16 (take n buf)) body parsed
          (drop-AreBytes 16 (take n buf) (take-AreBytes n buf h)),
      rw left (drop-AreBytes n buf h),
    )
