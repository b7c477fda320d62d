-- ===== src/Wire/Framing/Laws.antt =====
-- mongowire/src/framing.rs: when a frame is consumed, and how much of the buffer.
use mongowire.Base.{
  ◌-◌, from_le, ℕ, ◌<◌, ◌≤◌, ◌≡◌, refl, sym, ap, Bool, not, true, false, Option, none, some, Bytes,
  ℤ, pos, negsuc, ltb_ℤ, as_usize, length, take, drop, ltb, Result, ok, guard, Result-cases, inl,
  inr, arith, ltb→ge, bind_ok, if_ok, guard-eq-ok, ltb→lt, ◌⊎◌,
}
use mongowire.Wire.{Opcode, ProtocolError, invalid_header, message_too_large, max_msg_len}
use mongowire.Wire.Header.{Header, parse, read_or_zero, parse_opcode}
use mongowire.Wire.Body.{MessageBody, parse_body}
use mongowire.Wire.Framing.{claims_checksum, check_frame, consume, parse_frame, parse_message}

-- A header that was accepted declares at least its own 16 bytes.
parse_long :
    (buf : Bytes) (max_len : ℤ) (h : Header)
    → parse buf max_len ≡ ok h
    → 16 ≤ as_usize h.message_length
unfolding parse parse_opcode
parse_long buf max_len h e =
    let v = (read_or_zero (take 16 buf)).0 in
    bind_ok (guard (not (ltb (length buf) 16)) (invalid_header "short header")) _ e λ u1 e1 f1.
      bind_ok (guard (not (ltb_ℤ v (pos 16))) (invalid_header "length below header size")) _ f1
        λ u2 e2 f2.
          bind_ok (guard (not (ltb_ℤ max_len v)) (message_too_large v max_len)) _ f2 λ u3 e3 f3.
            bind_ok (guard (not (ltb_ℤ max_msg_len v)) (message_too_large v max_msg_len)) _ f3
              λ u4 e4 f4.
                bind_ok
                  (parse_opcode
                    (read_or_zero
                      (read_or_zero (read_or_zero (read_or_zero (take 16 buf)).1).1).1).0)
                  _ f4
                  λ o e5 f5.
                    let low =
                      guard-eq-ok (not (ltb_ℤ v (pos 16)))
                        (invalid_header "length below header size") e2 in
                    let same : v ≡ h.message_length = ground (arith, f5) in
                    long h.message_length (rw same at (not_true _ low))
  where
    not_true : (b : Bool) → not b ≡ true → b ≡ false
    not_true true p = cc
    not_true false p = refl

    long : (v : ℤ) → ltb_ℤ v (pos 16) ≡ false → 16 ≤ as_usize v
    long (pos n) p = ground arith
    long (negsuc n) p = cc

consume-some :
    (h header : Header) (buf rest : Bytes) (n : ℕ) (body : MessageBody)
    → consume h buf n ≡ (ok (some (header, body)), rest)
    → (header ≡ h) × (parse_body h.op_code (drop 16 (take n buf)) ≡ ok body) × (rest ≡ drop n buf)
unfolding consume
consume-some h header buf rest n body e =
    elim (Result-cases (parse_body h.op_code (drop 16 (take n buf)))) [
      | inl (b, p) ↦ ground (arith, e, p)
      | inr (inl (x, p)) ↦ ground (arith, e, p)
      | inr (inr p) ↦ ground (arith, e, p)
    ]

parse_frame-some :
    (crc : Bytes → ℕ) (h header : Header) (buf rest : Bytes) (n : ℕ) (body : MessageBody)
    → parse_frame crc h buf n ≡ (ok (some (header, body)), rest)
    → (n ≤ length buf)
      × (check_frame crc h.op_code (take n buf) n ≡ ok tt)
      × (consume h buf n ≡ (ok (some (header, body)), rest))
unfolding parse_frame
parse_frame-some crc h header buf rest n body e =
    if_ok (ltb (length buf) n) e (λ p f. absurd (none-ne-some (ap (λ t. t.0) f)))
      λ p f. elim (Result-cases (check_frame crc h.op_code (take n buf) n)) [
        | inl (u, q) ↦ (ltb→ge (length buf) n p, q, ground (arith, f, q))
        | inr (inl (x, q)) ↦ ground (arith, f, q)
        | inr (inr q) ↦ ground (arith, f, q)
      ]
  where
    none-ne-some :
        Path
          (Result ProtocolError (Option (Header × MessageBody)))
          (ok none)
          (ok (some (header, body)))
        → ⊥
    none-ne-some q = cc

-- A message comes off the buffer only where a whole frame stands at its front: the 16 bytes of an
-- accepted header, as many bytes as it declares, the checks of the frame passed, and a body that
-- parses from the bytes behind the header. Exactly that frame is consumed.
pub parse_message-some :
    (crc : Bytes → ℕ) (buf rest : Bytes) (max_len : ℤ) (header : Header) (body : MessageBody)
    → parse_message crc buf max_len ≡ (ok (some (header, body)), rest)
    → (parse (take 16 buf) max_len ≡ ok header)
      × (16 ≤ as_usize header.message_length)
      × (as_usize header.message_length ≤ length buf)
      × (check_frame crc header.op_code
            (take (as_usize header.message_length) buf)
            (as_usize header.message_length)
          ≡ ok tt)
      × (parse_body header.op_code (drop 16 (take (as_usize header.message_length) buf)) ≡ ok body)
      × (rest ≡ drop (as_usize header.message_length) buf)
unfolding parse_message
parse_message-some crc buf rest max_len header body e =
    if_ok (ltb (length buf) 16) e (λ p f. absurd (none-ne-some (ap (λ t. t.0) f)))
      λ p f. elim (Result-cases (parse (take 16 buf) max_len)) [
        | inl (h, q) ↦
            let at : parse_frame crc h buf (as_usize h.message_length)
                ≡ (ok (some (header, body)), rest) =
              ground (arith, f, q) in
            let (whole, checked, took) = parse_frame-some crc h header buf rest _ body at in
            let (same, parsed, left) = consume-some h header buf rest _ body took in
            rw same (q, parse_long (take 16 buf) max_len h q, whole, checked, parsed, left)
        | inr (inl (x, q)) ↦ ground (arith, f, q)
        | inr (inr q) ↦ ground (arith, f, q)
      ]
  where
    none-ne-some :
        Path
          (Result ProtocolError (Option (Header × MessageBody)))
          (ok none)
          (ok (some (header, body)))
        → ⊥
    none-ne-some q = cc

parse_frame-none :
    (crc : Bytes → ℕ) (h : Header) (buf rest : Bytes) (n : ℕ)
    → parse_frame crc h buf n ≡ (ok none, rest)
    → (rest ≡ buf) × (length buf < n)
unfolding parse_frame
parse_frame-none crc h buf rest n e =
    if_ok (ltb (length buf) n) e (λ p f. (sym (ap (λ t. t.1) f), ltb→lt (length buf) n p))
      λ p f. elim (Result-cases (check_frame crc h.op_code (take n buf) n)) [
        | inl (u, q) ↦ absurd (took (ground (arith, f, q)))
        | inr (inl (x, q)) ↦ ground (arith, f, q)
        | inr (inr q) ↦ ground (arith, f, q)
      ]
  where
    took : consume h buf n ≡ (ok none, rest) → ⊥
    took g =
        unfold consume in
        elim (Result-cases (parse_body h.op_code (drop 16 (take n buf)))) [
          | inl (b, p) ↦ ground (arith, g, p)
          | inr (inl (x, p)) ↦ ground (arith, g, p)
          | inr (inr p) ↦ ground (arith, g, p)
        ]

-- A parse that asks for more data leaves the buffer as it was, and it asks for more only where the
-- buffer is shorter than a header, or than the length that its accepted header declares.
pub parse_message-none :
    (crc : Bytes → ℕ) (buf rest : Bytes) (max_len : ℤ)
    → parse_message crc buf max_len ≡ (ok none, rest)
    → (rest ≡ buf)
      × ((length buf < 16)
          ⊎ ((h : Header) × (parse (take 16 buf) max_len ≡ ok h)
              × (length buf < as_usize h.message_length)))
unfolding parse_message
parse_message-none crc buf rest max_len e =
    if_ok (ltb (length buf) 16) e (λ p f. (sym (ap (λ t. t.1) f), inl (ltb→lt (length buf) 16 p)))
      λ p f. elim (Result-cases (parse (take 16 buf) max_len)) [
        | inl (h, q) ↦
            let (same, short) =
              parse_frame-none crc h buf rest (as_usize h.message_length) (ground (arith, f, q)) in
            (same, inr (h, q, short))
        | inr (inl (x, q)) ↦ ground (arith, f, q)
        | inr (inr q) ↦ ground (arith, f, q)
      ]

check_frame-crc :
    (crc : Bytes → ℕ) (frame : Bytes) (n : ℕ)
    → check_frame crc Opcode.msg frame n ≡ ok tt
    → claims_checksum frame ≡ true
    → 20 ≤ n
    → (26 ≤ n) × (crc (take (n - 4) frame) ≡ from_le (drop (n - 4) frame))
unfolding check_frame
check_frame-crc crc frame n h claim long = ground (arith, h, claim)

-- An OP_MSG whose flag word claims a checksum comes off the buffer only where its frame has at least
-- 26 bytes and its last four bytes are the checksum of those before them; this for a frame that is
-- long enough to hold the flag word.
pub parse_message-crc :
    (crc : Bytes → ℕ) (buf rest : Bytes) (max_len : ℤ) (header : Header) (body : MessageBody)
    (n : ℕ)
    → parse_message crc buf max_len ≡ (ok (some (header, body)), rest)
    → header.op_code ≡ Opcode.msg
    → header.message_length ≡ pos n
    → 20 ≤ n
    → claims_checksum (take n buf) ≡ true
    → (26 ≤ n) × (crc (take (n - 4) (take n buf)) ≡ from_le (drop (n - 4) (take n buf)))
parse_message-crc crc buf rest max_len header body n e op len long claim =
    let (accepted, low, whole, checked, parsed, left) =
      parse_message-some crc buf rest max_len header body e in
    check_frame-crc crc (take n buf) n (rw (op, len) at checked) claim long
