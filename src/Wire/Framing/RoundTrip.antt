-- ===== src/Wire/Framing/RoundTrip.antt =====
-- mongowire/src/framing.rs: what `encode_message` wrote comes back from `parse_message`, without and
-- with the checksum trailer.
use mongowire.Base.{
  ℕ, ◌+◌, ◌≤◌, ◌≡◌, refl, sym, ap, ◌∙◌, not, false, ◌&&◌, none, some, [], ◌++◌, append_assoc,
  append-nil, Bytes, ℤ, pos, Fits, i32_half, fits_i32, ltb_ℤ, as_usize, length, take, drop, ltb,
  Result, ok, err, map_ok, arith, ltb→ge, length-append, ge→ltb, take-append, drop-append, if_ok,
}
use mongowire.Wire.{ProtocolError, Opcode}
use mongowire.Wire.Header.{
  Header, parse, encode, header_bytes, encode-bytes, length-header_bytes, IsHeader, parse-encode,
}
use mongowire.Wire.Sections.{checksum_present}
use mongowire.Wire.Body.{MessageBody, body_len, opcode, encode_body, parse_body}
use mongowire.Wire.Body.Laws.{body_bytes, encode_body-bytes, length-body_bytes}
use mongowire.Wire.Msg.Written.{op_msg_bytes, sections_bytes, checksum_bytes}
use mongowire.Wire.Msg.Reencode.{IsOpMsg}
use mongowire.Wire.Msg.Placed.{word_at}
use mongowire.Wire.Msg.RoundTrip.{IsSmall}
use mongowire.Wire.Msg.RoundTrip as MsgRoundTrip
use mongowire.Wire.Query.Laws.{IsQuery}
use mongowire.Wire.Query.Laws as QueryLaws
use mongowire.Wire.Reply.Laws.{IsReply}
use mongowire.Wire.Reply.Laws as ReplyLaws
use mongowire.Wire.Compressed.Laws.{IsCompressed}
use mongowire.Wire.Compressed.Laws as CompressedLaws
use mongowire.Wire.Framing.{
  check_frame, claims_checksum, is_msg, consume, parse_frame, parse_message, encode_message,
}

-- A body as its parser accepts it, an OP_MSG without a trailer.
abbrev pub IsBody : MessageBody → Type 0
IsBody (MessageBody.msg m) = IsOpMsg m × IsSmall m × (m.checksum ≡ none)
IsBody (MessageBody.query q) = IsQuery q
IsBody (MessageBody.reply p) = IsReply p
IsBody (MessageBody.compressed c) = IsCompressed c

body_back : (b : MessageBody) → IsBody b → parse_body (opcode b) (encode_body b []) ≡ ok b
unfolding parse_body encode_body opcode
body_back (MessageBody.msg m) (good, small, bare) =
    ap (map_ok MessageBody.msg) (MsgRoundTrip.parse_body-encode_body_msg m good small)
body_back (MessageBody.query q) good =
    ap (map_ok MessageBody.query) (QueryLaws.parse_body-encode_body_query q good)
body_back (MessageBody.reply p) good =
    ap (map_ok MessageBody.reply) (ReplyLaws.parse_body-encode_body_reply p good)
body_back (MessageBody.compressed c) good =
    ap (map_ok MessageBody.compressed) (CompressedLaws.parse_body-encode_body_compressed c good)

-- The steps of the parser, each with its result.
message_steps :
    (crc : Bytes → ℕ) (buf rest : Bytes) (max_len : ℤ) (h : Header) (b : MessageBody)
    → ltb (length buf) 16 ≡ false
    → parse (take 16 buf) max_len ≡ ok h
    → ltb (length buf) (as_usize h.message_length) ≡ false
    → check_frame crc h.op_code (take (as_usize h.message_length) buf) (as_usize h.message_length)
      ≡ ok tt
    → parse_body h.op_code (drop 16 (take (as_usize h.message_length) buf)) ≡ ok b
    → drop (as_usize h.message_length) buf ≡ rest
    → parse_message crc buf max_len ≡ (ok (some (h, b)), rest)
unfolding parse_message parse_frame consume
message_steps crc buf rest max_len h b h1 h2 h4 h5 h6 h7 = rw (h1, h2, h4, h5, h6, h7) refl

-- A whole frame in front of the buffer is consumed, and gives its header and its body.
pub frame_back :
    (crc : Bytes → ℕ) (h : Header) (payload rest : Bytes) (max_len : ℤ) (b : MessageBody)
    → IsHeader max_len h
    → h.message_length ≡ pos (16 + length payload)
    → check_frame crc h.op_code (header_bytes h ++ payload) (16 + length payload) ≡ ok tt
    → parse_body h.op_code payload ≡ ok b
    → parse_message crc ((header_bytes h ++ payload) ++ rest) max_len ≡ (ok (some (h, b)), rest)
frame_back crc h payload rest max_len b good sized checked parsed =
    let frame = header_bytes h ++ payload in
    let len : length frame ≡ 16 + length payload =
      omega (arith, length-append (header_bytes h) payload, length-header_bytes h) in
    let buf = frame ++ rest in
    let long : length buf ≡ 16 + length payload + length rest =
      omega (arith, length-append frame rest, len) in
    let whole : take (16 + length payload) buf ≡ frame = rw len at (take-append frame rest) in
    let left : drop (16 + length payload) buf ≡ rest = rw len at (drop-append frame rest) in
    let inner : drop 16 frame ≡ payload =
      rw (length-header_bytes h) at (drop-append (header_bytes h) payload) in
    let front : take 16 buf ≡ header_bytes h =
      ap (take 16) (append_assoc (header_bytes h) payload rest)
      ∙ rw (length-header_bytes h) at (take-append (header_bytes h) (payload ++ rest)) in
    let header : parse (header_bytes h) max_len ≡ ok h =
      rw (encode-bytes h [], append-nil (header_bytes h)) at (parse-encode h [] max_len good) in
    let n : as_usize h.message_length ≡ 16 + length payload = ap as_usize sized in
    message_steps crc buf rest max_len h b (ge→ltb (length buf) 16 (omega (arith, long)))
      (rw front header) (rw n (ge→ltb (length buf) (16 + length payload) (omega (arith, long))))
      (rw (n, whole) checked) (rw (n, whole) (ap (parse_body h.op_code) inner ∙ parsed)) (rw n left)

-- The checks of a frame whose body is no OP_MSG, or one without the checksum flag.
unchecked :
    (crc : Bytes → ℕ) (o : Opcode) (frame : Bytes) (n : ℕ)
    → (is_msg o && claims_checksum frame) ≡ false
    → check_frame crc o frame n ≡ ok tt
unfolding check_frame
unchecked crc Opcode.msg frame n h = ground (arith, h)
unchecked crc _ frame n h = refl

bare_body :
    (b : MessageBody) (head : Bytes)
    → length head ≡ 16
    → IsBody b
    → (is_msg (opcode b) && claims_checksum (head ++ body_bytes b)) ≡ false
unfolding opcode
bare_body (MessageBody.msg m) head len ((known, matches, raw, seqs, valid), small, bare) =
    let tail = sections_bytes m.sections ++ checksum_bytes m.checksum in
    let cut : drop 16 (head ++ op_msg_bytes m) ≡ op_msg_bytes m =
      rw len at (drop-append head (op_msg_bytes m)) in
    let word =
      (word_at (head ++ op_msg_bytes m) tail 16 m.flags.bits cut (omega (arith, known))).0 in
    let clear : checksum_present m.flags ≡ false = rw bare at matches in rw word clear
bare_body (MessageBody.query q) head len good = refl
bare_body (MessageBody.reply p) head len good = refl
bare_body (MessageBody.compressed c) head len good = refl

-- The header of an encoded message keeps the bounds.
pub framed_header :
    (h h' : Header) (max_len : ℤ) (n : ℕ)
    → h' ≡ record h { message_length = pos (16 + n) }
    → 16 + n ≤ 48000000
    → Fits i32_half h.request_id
    → Fits i32_half h.response_to
    → ltb_ℤ max_len h'.message_length ≡ false
    → IsHeader max_len h'
framed_header h h' max_len n eh fits f1 f2 room = rw eh (
  ge→ltb (16 + n) 16 (omega arith),
  rw eh at room,
  ge→ltb 48000000 (16 + n) fits,
  omega (arith, fits),
  f1,
  f2,
)

pub encoded_err : (x : ProtocolError) → Path (Result ProtocolError (Unit {0})) (err x) (ok tt) → ⊥
encoded_err x q = cc

-- What a success without a trailer wrote.
encode_plain_ok :
    (crc : Bytes → ℕ) (h h' : Header) (b : MessageBody) (bytes : Bytes)
    → encode_message crc h b false [] ≡ (ok tt, h', bytes)
    → (16 + body_len b ≤ 48000000)
      × (h' ≡ record h { message_length = pos (16 + body_len b) })
      × (bytes ≡ header_bytes h' ++ body_bytes b)
unfolding encode_message
encode_plain_ok crc h h' b bytes e =
    let total = 16 + body_len b + 0 in
    let h2 : Header = record h { message_length = pos total } in
    let z : total ≡ 16 + body_len b = omega arith in
    if_ok (not (fits_i32 total)) e (λ p f. absurd (err-ne-ok _ _ f))
      λ p f.
        if_ok (ltb 48000000 total) f (λ q g. absurd (err-ne-ok _ _ g))
          λ q g.
            let eh : h' ≡ h2 = sym (ap (λ t. t.1) g) in
            let eb : bytes ≡ encode_body b (encode h2 []) = sym (ap (λ t. t.2) g) in
            (
              omega (arith, ltb→ge 48000000 total q),
              eh ∙ ap (λ t. record h { message_length = pos t }) z,
              eb ∙ rw (eh, encode_body-bytes b (encode h2 []), encode-bytes h2 []) refl,
            )
  where
    err-ne-ok :
        (x : ProtocolError) (y : Header × Bytes)
        → Path
            (Result ProtocolError (Unit {0}) × Header × Bytes)
            (err x, y.0, y.1)
            (ok tt, h', bytes)
        → ⊥
    err-ne-ok x y q = encoded_err x (ap (λ t. t.0) q)

-- A message with a body that its parser accepts, encoded without a trailer into an empty buffer, is
-- parsed back with the computed length in its header, and what follows it in the buffer is left; the
-- header's opcode is the body's, its identifiers are 32-bit integers, and the length is within the
-- receiver's limit.
pub parse_message-encode_message :
    (crc : Bytes → ℕ) (h h' : Header) (b : MessageBody) (bytes rest : Bytes) (max_len : ℤ)
    → encode_message crc h b false [] ≡ (ok tt, h', bytes)
    → IsBody b
    → h.op_code ≡ opcode b
    → Fits i32_half h.request_id
    → Fits i32_half h.response_to
    → ltb_ℤ max_len h'.message_length ≡ false
    → parse_message crc (bytes ++ rest) max_len ≡ (ok (some (h', b)), rest)
parse_message-encode_message crc h h' b bytes rest max_len e good same f1 f2 room =
    let (fits, eh, eb) = encode_plain_ok crc h h' b bytes e in
    let size = length-body_bytes b in
    let op : h'.op_code ≡ opcode b = ap (λ t. t.op_code) eh ∙ same in
    let sized : h'.message_length ≡ pos (16 + length (body_bytes b)) =
      ap (λ t. t.message_length) eh ∙ rw size refl in
    let header : IsHeader max_len h' = framed_header h h' max_len (body_len b) eh fits f1 f2 room in
    let parsed : parse_body h'.op_code (body_bytes b) ≡ ok b =
      rw op (rw (encode_body-bytes b []) at (body_back b good)) in
    let checked = rw (← op) at (
      unchecked crc (opcode b) (header_bytes h' ++ body_bytes b) (16 + length (body_bytes b))
        (bare_body b (header_bytes h') (length-header_bytes h') good)) in
    rw eb (frame_back crc h' (body_bytes b) rest max_len b header sized checked parsed)
