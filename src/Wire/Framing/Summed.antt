-- ===== src/Wire/Framing/Summed.antt =====
-- mongowire/src/framing.rs: a message that `encode_message` wrote with a checksum trailer comes back
-- from `parse_message` with the flag set and the checksum in it.
use mongowire.Base.{
  ℕ, ◌+◌, ◌-◌, ◌%◌, ◌<◌, ◌≤◌, ◌^◌, ◌≡◌, refl, sym, ap, ◌∙◌, not, true, false, none, some, [], ◌++◌,
  append_assoc, append-nil, Bytes, ℤ, pos, Fits, i32_half, fits_i32, ltb_ℤ, length, take, drop, ltb,
  ok, map_ok, arith, ltb→ge, length-append, length-to_le, take-append, drop-append, from_le, to_le,
  from_le-to_le, if_ok,
}
use mongowire.Io.{put_u32_le, put_bytes}
use mongowire.Wire.{Opcode}
use mongowire.Wire.Header.{Header, header_bytes, encode, encode-bytes, length-header_bytes}
use mongowire.Wire.Sections.{checksum_present, size}
use mongowire.Wire.Msg.{OpMsg}
use mongowire.Wire.Msg as Msg
use mongowire.Wire.Msg.Written.{op_msg_bytes, sections_bytes, length-sections_bytes}
use mongowire.Wire.Msg.Written as MsgWritten
use mongowire.Wire.Msg.Reencode.{IsOpMsg}
use mongowire.Wire.Msg.Placed.{word_at}
use mongowire.Wire.Msg.RoundTrip.{IsSmall, parse_body-encode_body_msg}
use mongowire.Wire.Body.{MessageBody, body_len, encode_body, parse_body}
use mongowire.Wire.Body.Laws.{encode_body-bytes}
use mongowire.Wire.Framing.{
  check_frame, parse_message, encode_message, finish, set_checksum_flag, put_trailer,
}
use mongowire.Wire.Framing.RoundTrip.{frame_back, framed_header, encoded_err}

-- The bytes that the checksum covers.
abbrev pub summed_bytes : Header → OpMsg → Bytes
summed_bytes h m = header_bytes h ++ (to_le 4 (m.flags.bits + 1) ++ sections_bytes m.sections)

-- The message with its checksum: the flag set, the trailer there.
abbrev pub with_checksum : OpMsg → ℕ → OpMsg
with_checksum m c = record m { flags = record { bits = m.flags.bits + 1 }; checksum = some c }

with_checksum-IsOpMsg :
    (m : OpMsg) (c : ℕ) → IsOpMsg m → m.checksum ≡ none → c < 2 ^ 32 → IsOpMsg (with_checksum m c)
with_checksum-IsOpMsg m c (known, matches, raw, seqs, valid) bare small =
    let clear : checksum_present m.flags ≡ false = rw bare at matches in
    let even : m.flags.bits % 2 ≡ 0 = ground arith in
    (omega (arith, known, even), (ground (arith, even), small), raw, seqs, valid)

-- The flag patched into the words just written.
set_flag :
    (head tail : Bytes) (v : ℕ)
    → length head ≡ 16
    → v < 2 ^ 32
    → v % 2 ≡ 0
    → set_checksum_flag (head ++ (to_le 4 v ++ tail)) 16 ≡ head ++ (to_le 4 (v + 1) ++ tail)
unfolding set_checksum_flag
set_flag head tail v len small even =
    let out = head ++ (to_le 4 v ++ tail) in
    let at16 : drop 16 out ≡ to_le 4 v ++ tail = rw len at (drop-append head (to_le 4 v ++ tail)) in
    let (word, behind) = word_at out tail 16 v at16 small in
    let front : take 16 out ≡ head = rw len at (take-append head (to_le 4 v ++ tail)) in
    let up : v - v % 2 + 1 ≡ v + 1 = omega (arith, even) in rw (word, front, behind, up) refl

finish_bare :
    (crc : Bytes → ℕ) (m : OpMsg) (h : Header) (out : Bytes)
    → m.checksum ≡ none
    → finish crc 0 (MessageBody.msg m) h out
      ≡ (ok tt, h, put_trailer crc 0 (set_checksum_flag out 16))
unfolding finish
finish_bare crc m h out bare = rw bare refl

op_msg_bytes_bare :
    (m : OpMsg)
    → m.checksum ≡ none
    → op_msg_bytes m ≡ to_le 4 m.flags.bits ++ sections_bytes m.sections
op_msg_bytes_bare m bare =
    rw bare (ap (λ t. to_le 4 m.flags.bits ++ t) (append-nil (sections_bytes m.sections)))

-- The words written, the flag set, and the trailer behind them.
finished :
    (crc : Bytes → ℕ) (m : OpMsg) (h : Header)
    → IsOpMsg m
    → m.checksum ≡ none
    → put_trailer crc 0 (set_checksum_flag (encode_body (MessageBody.msg m) (encode h [])) 16)
      ≡ summed_bytes h m ++ to_le 4 (crc (summed_bytes h m))
unfolding put_trailer put_u32_le put_bytes
finished crc m h (known, matches, raw, seqs, valid) bare =
    let clear : checksum_present m.flags ≡ false = rw bare at matches in
    let even : m.flags.bits % 2 ≡ 0 = ground arith in
    let written : encode_body (MessageBody.msg m) (encode h [])
        ≡ header_bytes h ++ (to_le 4 m.flags.bits ++ sections_bytes m.sections) =
      encode_body-bytes (MessageBody.msg m) (encode h [])
      ∙ rw (encode-bytes h []) (ap (λ t. header_bytes h ++ t) (op_msg_bytes_bare m bare)) in
    let patched =
      set_flag (header_bytes h) (sections_bytes m.sections) m.flags.bits (length-header_bytes h)
        (omega (arith, known)) even in
    ap (λ t. t ++ to_le 4 (crc t)) (ap (λ t. set_checksum_flag t 16) written ∙ patched)

-- What a success with a trailer wrote.
encode_summed_ok :
    (crc : Bytes → ℕ) (h h' : Header) (m : OpMsg) (bytes : Bytes)
    → IsOpMsg m
    → m.checksum ≡ none
    → encode_message crc h (MessageBody.msg m) true [] ≡ (ok tt, h', bytes)
    → (16 + (Msg.body_len m + 4) ≤ 48000000)
      × (h' ≡ record h { message_length = pos (16 + (Msg.body_len m + 4)) })
      × (bytes ≡ summed_bytes h' m ++ to_le 4 (crc (summed_bytes h' m)))
unfolding encode_message body_len
encode_summed_ok crc h h' m bytes good bare e =
    let total = 16 + Msg.body_len m + 4 in
    let h2 : Header = record h { message_length = pos total } in
    let z : total ≡ 16 + (Msg.body_len m + 4) = omega arith in
    if_ok (not (fits_i32 total)) e (λ p f. absurd (encoded_err _ (ap (λ t. t.0) f)))
      λ p f.
        if_ok (ltb 48000000 total) f (λ q g. absurd (encoded_err _ (ap (λ t. t.0) g)))
          λ q g.
            let g' =
              sym (finish_bare crc m h2 (encode_body (MessageBody.msg m) (encode h2 [])) bare)
              ∙ g in
            let eh : h2 ≡ h' = ap (λ t. t.1) g' in
            let eb = ap (λ t. t.2) g' in
            (
              omega (arith, ltb→ge 48000000 total q),
              sym eh ∙ ap (λ t. record h { message_length = pos t }) z,
              sym eb
                  ∙ (finished crc m h2 good bare
                      ∙ ap (λ t. summed_bytes t m ++ to_le 4 (crc (summed_bytes t m))) eh),
            )

checked :
    (crc : Bytes → ℕ) (frame : Bytes) (n : ℕ)
    → 26 ≤ n
    → crc (take (n - 4) frame) ≡ from_le (drop (n - 4) frame)
    → check_frame crc Opcode.msg frame n ≡ ok tt
unfolding check_frame
checked crc frame n long h = ground (arith, h)

-- A frame with its trailer passes the checks.
frame_checked :
    (crc : Bytes → ℕ) (h : Header) (m : OpMsg)
    → 5 ≤ length m.sections.body.bytes
    → crc (summed_bytes h m) < 2 ^ 32
    → check_frame crc Opcode.msg
        (header_bytes h ++ op_msg_bytes (with_checksum m (crc (summed_bytes h m))))
        (16 + length (op_msg_bytes (with_checksum m (crc (summed_bytes h m)))))
      ≡ ok tt
unfolding Msg.body_len size
frame_checked crc h m low small =
    let sum = summed_bytes h m in
    let c = crc sum in
    let s = sections_bytes m.sections in
    let payload = op_msg_bytes (with_checksum m c) in
    let whole : header_bytes h ++ payload ≡ sum ++ to_le 4 c = simp append_assoc in
    let len : 16 + length payload - 4 ≡ length sum = omega (
      arith,
      ap length whole,
      length-append (header_bytes h) payload,
      length-header_bytes h,
      length-append sum (to_le 4 c),
      length-to_le 4 c,
    ) in
    let long : 26 ≤ 16 + length payload =
      omega (arith, low, MsgWritten.length-op_msg_bytes (with_checksum m c)) in
    checked crc (header_bytes h ++ payload) (16 + length payload) long (
      rw (len, whole, take-append sum (to_le 4 c), drop-append sum (to_le 4 c))
        (sym (from_le-to_le 4 c small)))

length-with_checksum :
    (m : OpMsg) (c : ℕ)
    → m.checksum ≡ none
    → length (op_msg_bytes (with_checksum m c)) ≡ Msg.body_len m + 4
unfolding Msg.body_len
length-with_checksum m c bare =
    rw bare (omega (arith, MsgWritten.length-op_msg_bytes (with_checksum m c)))

-- An OP_MSG without a trailer, encoded with one into an empty buffer, is parsed back as the same
-- message with the checksum flag set and the checksum of the bytes before the trailer in it, and
-- what follows it in the buffer is left. The checksum function gives 32-bit words; the header has
-- the opcode of the body, its identifiers are 32-bit integers, and the length is within the
-- receiver's limit.
pub parse_message-encode_message_summed :
    (crc : Bytes → ℕ) (h h' : Header) (m : OpMsg) (bytes rest : Bytes) (max_len : ℤ)
    → ((b : Bytes) → crc b < 2 ^ 32)
    → encode_message crc h (MessageBody.msg m) true [] ≡ (ok tt, h', bytes)
    → IsOpMsg m
    → IsSmall m
    → m.checksum ≡ none
    → h.op_code ≡ Opcode.msg
    → Fits i32_half h.request_id
    → Fits i32_half h.response_to
    → ltb_ℤ max_len h'.message_length ≡ false
    → (c : ℕ) × (parse_message crc (bytes ++ rest) max_len
        ≡ (ok (some (h', MessageBody.msg (with_checksum m c))), rest))
      × (bytes ≡ summed_bytes h' m ++ to_le 4 c)
      × (c ≡ crc (summed_bytes h' m))
unfolding parse_body
parse_message-encode_message_summed crc h h' m bytes rest max_len word e good small bare same f1 f2
      room =
    let (fits, eh, eb) = encode_summed_ok crc h h' m bytes good bare e in
    let sum = summed_bytes h' m in
    let c = crc sum in
    let m' = with_checksum m c in
    let good' = with_checksum-IsOpMsg m c good bare (word sum) in
    let op : h'.op_code ≡ Opcode.msg = ap (λ t. t.op_code) eh ∙ same in
    let sized : h'.message_length ≡ pos (16 + length (op_msg_bytes m')) =
      ap (λ t. t.message_length) eh ∙ rw (length-with_checksum m c bare) refl in
    let header = framed_header h h' max_len (Msg.body_len m + 4) eh fits f1 f2 room in
    let checked = frame_checked crc h' m (good'.2.0) (word sum) in
    let back : Msg.parse_body (op_msg_bytes m') ≡ ok m' =
      rw (MsgWritten.encode_body-bytes m' []) at (parse_body-encode_body_msg m' good' small) in
    let parsed : parse_body Opcode.msg (op_msg_bytes m') ≡ ok (MessageBody.msg m') =
      ap (map_ok MessageBody.msg) back in
    let join : header_bytes h' ++ op_msg_bytes m' ≡ sum ++ to_le 4 c = simp append_assoc in
    let whole : header_bytes h' ++ op_msg_bytes m' ≡ bytes = join ∙ sym eb in
    (
      c,
      rw whole at (
          frame_back crc h' (op_msg_bytes m') rest max_len (MessageBody.msg m') header sized
            (ap
                (λ o.
                  check_frame crc o (header_bytes h' ++ op_msg_bytes m')
                    (16 + length (op_msg_bytes m')))
                op
              ∙ checked)
            (ap (λ o. parse_body o (op_msg_bytes m')) op ∙ parsed)),
      eb,
      refl,
    )
