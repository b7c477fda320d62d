-- ===== src/Wire/Framing/Arrival.antt =====
-- mongowire/src/framing.rs on a buffer that grows: a parse that gave a message or an error gives
-- the same when more bytes have arrived.
use mongowire.Base.{
  ℕ, ◌≡◌, ◌≢◌, ◌≤◌, ◌++◌, refl, false, none, Bytes, ℤ, ok, length, length-append, take, ltb, ltb→ge,
  ge→ltb, take-append_front, drop-append_front, as_usize, Bool-cases, Result-cases, inl, inr, arith,
}
use mongowire.Wire.Header.{Header, parse}
use mongowire.Wire.Framing.{Parsed, check_frame, consume, parse_frame, parse_message}

-- A parse with more bytes behind the rest of the buffer.
abbrev pub behind : Parsed → Bytes → Parsed
behind p more = (p.0, p.1 ++ more)

longer :
    (buf more : Bytes) (n : ℕ) → ltb (length buf) n ≡ false → ltb (length (buf ++ more)) n ≡ false
longer buf more n h = ge→ltb _ _ (omega (arith, length-append buf more, ltb→ge (length buf) n h))

consume-append :
    (header : Header) (buf more : Bytes) (n : ℕ)
    → n ≤ length buf
    → consume header (buf ++ more) n ≡ behind (consume header buf n) more
unfolding consume
consume-append header buf more n h =
    rw (take-append_front n buf more h, drop-append_front n buf more h) refl

parse_frame-append :
    (crc : Bytes → ℕ) (header : Header) (buf more : Bytes) (n : ℕ)
    → (parse_frame crc header buf n).0 ≢ ok none
    → parse_frame crc header (buf ++ more) n ≡ behind (parse_frame crc header buf n) more
unfolding parse_frame
parse_frame-append crc header buf more n ne = elim (Bool-cases (ltb (length buf) n)) [
  | inl t ↦ absurd (ne (rw t refl))
  | inr f ↦
      let whole = ltb→ge (length buf) n f in
      rw (f, longer buf more n f, take-append_front n buf more whole)
        (elim (Result-cases (check_frame crc header.op_code (take n buf) n)) [
          | inl (u, e) ↦ rw e (consume-append header buf more n whole)
          | inr (inl (x, e)) ↦ rw e refl
          | inr (inr e) ↦ rw e refl
        ])
]

pub parse_message-append :
    (crc : Bytes → ℕ) (buf more : Bytes) (max_len : ℤ)
    → (parse_message crc buf max_len).0 ≢ ok none
    → parse_message crc (buf ++ more) max_len ≡ behind (parse_message crc buf max_len) more
unfolding parse_message
parse_message-append crc buf more max_len ne = elim (Bool-cases (ltb (length buf) 16)) [
  | inl t ↦ absurd (ne (rw t refl))
  | inr f ↦
      rw (f, longer buf more 16 f, take-append_front 16 buf more (ltb→ge (length buf) 16 f))
        (elim (Result-cases (parse (take 16 buf) max_len)) [
          | inl (h, e) ↦ rw e (
              parse_frame-append crc h buf more (as_usize h.message_length) (λ q. ne (rw (f, e) q)))
          | inr (inl (x, e)) ↦ rw e refl
          | inr (inr e) ↦ rw e refl
        ])
]
