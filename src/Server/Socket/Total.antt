-- ===== src/Server/Socket/Total.antt =====
-- A turn of the loop of mongowire/src/api/mod.rs returns, where the handler and the back ends do.
use mongowire.Base.{
  List, true, ℕ, ◌≡◌, ◌≢◌, refl, Bool, Option, none, some, [], Bytes, AreBytes, ℤ, Result, ok, err,
  stuck, inl, inr, Bool-cases, >>=-ne-stuck, map_err-ne-stuck, ◌&&◌,
}
use mongowire.Bson.Encode.{encode}
use mongowire.Bson.Encode.Ends.{encode-ne-stuck}
use mongowire.Bson.Raw.{command as command_of}
use mongowire.Wire.{CompressorId}
use mongowire.Wire.Header.{Header}
use mongowire.Wire.Msg as Msg
use mongowire.Wire.Msg.{OpMsg}
use mongowire.Wire.Msg.Ends.{new-ne-stuck}
use mongowire.Wire.Query.{OpQuery}
use mongowire.Wire.Compressed.Ends.{AllEnd}
use mongowire.Wire.Body.{MessageBody, unwrap_body}
use mongowire.Wire.Body.Ends.{HoldsBytes, unwrap_body-ne-stuck}
use mongowire.Wire.Framing.{Encoded}
use mongowire.Wire.Framing.Ends.{
  encode_message-ne-stuck, parse_message-ne-stuck, parse_message-HoldsBytes,
}
use mongowire.Server.{
  ConnectionInfo, Command, Reply, Error, no_reply, handshake_reply, op_msg, bson_error, protocol,
  handshake_doc, empty_flags,
}
use mongowire.Server.Handshake.{is_hello}
use mongowire.Server.Socket.{
  Surroundings, Step, close, fail, stopped, written, send_reply, codec_encode, codec_decode, is_msg,
  or_else, reply_or_close, reply_or_skip, answer, answer_hello, handle_query, handle_msg,
  handle_body, handle_frame, more_to_come,
}
use mongowire.Server.Socket.Silent.{command_of-ne-stuck}

-- The handler returns a reply or an error, and the back ends return.
pub record IsTotal (s : Surroundings) : Type 0 where
  pub handler_returns : (ctx : ConnectionInfo) (r : Command) → (s.handler ctx r).0 ≢ stuck
  pub back_ends_return : AllEnd s.backends

or_else-ne-stopped {ℓ κ} :
    {E : Type ℓ} {A : Type κ} (r : Result E A) (early : Step) (f : A → Step)
    → r ≢ stuck
    → early ≢ stopped
    → ((a : A) → f a ≢ stopped)
    → or_else r early f ≢ stopped
or_else-ne-stopped (ok a) early f h e k = k a
or_else-ne-stopped (err x) early f h e k = e
or_else-ne-stopped stuck early f h e k = absurd (h refl)

written-ne-stopped : (ctx : ConnectionInfo) (e : Encoded) → e.0 ≢ stuck → written ctx e ≢ stopped
written-ne-stopped ctx (ok u, header, out) h = λ p. cc
written-ne-stopped ctx (err x, header, out) h = λ p. cc
written-ne-stopped ctx (stuck, header, out) h = absurd (h refl)

send_reply-ne-stopped :
    (crc : Bytes → ℕ) (ctx : ConnectionInfo) (response_to : ℤ) (body : MessageBody)
    → send_reply crc ctx response_to body ≢ stopped
unfolding send_reply codec_encode
send_reply-ne-stopped crc ctx response_to body = elim (Bool-cases (ctx.checksum && is_msg body)) [
  | inl t ↦ rw t (written-ne-stopped _ _ (encode_message-ne-stuck crc _ body _ []))
  | inr f ↦ rw f (written-ne-stopped _ _ (encode_message-ne-stuck crc _ body _ []))
]

handshake_reply-ne-stuck :
    (cs : List CompressorId) (max_msg_len : ℤ) (legacy : Bool) (now : ℤ)
    → handshake_reply cs max_msg_len legacy now ≢ stuck
unfolding handshake_reply op_msg
handshake_reply-ne-stuck cs max_msg_len legacy now =
    let doc = handshake_doc cs max_msg_len legacy now in
    >>=-ne-stuck _ _ (map_err-ne-stuck bson_error (encode doc) (encode-ne-stuck doc)) λ raw e.
      map_err-ne-stuck protocol (Msg.new empty_flags raw []) (new-ne-stuck empty_flags raw [])

module _ (s : Surroundings) (total : IsTotal s) where
  reply_or_close-ne-stopped :
      (ctx : ConnectionInfo) (id : ℤ) (o : Option MessageBody) → reply_or_close s ctx id o ≢ stopped
  reply_or_close-ne-stopped ctx id none = λ p. cc
  reply_or_close-ne-stopped ctx id (some body) = send_reply-ne-stopped s.crc ctx id body

  reply_or_skip-ne-stopped :
      (ctx : ConnectionInfo) (id : ℤ) (o : Option MessageBody) → reply_or_skip s ctx id o ≢ stopped
  reply_or_skip-ne-stopped ctx id none = λ p. cc
  reply_or_skip-ne-stopped ctx id (some body) = send_reply-ne-stopped s.crc ctx id body

  answer-ne-stopped :
      (ctx : ConnectionInfo) (header : Header) (m : OpMsg) (r : Result Error Reply)
      → r ≢ stuck
      → answer s ctx header m r ≢ stopped
  unfolding answer
  answer-ne-stopped ctx header m (ok (Reply.msg r)) h =
      send_reply-ne-stopped s.crc ctx header.request_id (MessageBody.msg r)
  answer-ne-stopped ctx header m (ok no_reply) h = λ p. cc
  answer-ne-stopped ctx header m (err e) h = reply_or_close-ne-stopped ctx header.request_id _
  answer-ne-stopped ctx header m stuck h = absurd (h refl)

  handle_query-ne-stopped :
      (ctx : ConnectionInfo) (header : Header) (q : OpQuery) → handle_query s ctx header q ≢ stopped
  unfolding handle_query answer_hello
  handle_query-ne-stopped ctx header q =
      or_else-ne-stopped (command_of q.query) close _ (command_of-ne-stuck q.query) (λ p. cc)
        λ name. elim (Bool-cases (is_hello name)) [
          | inl t ↦ rw t (
              or_else-ne-stopped (handshake_reply _ _ true s.now) fail _
                (handshake_reply-ne-stuck _ _ true s.now) (λ p. cc)
                (λ r. send_reply-ne-stopped s.crc _ header.request_id _))
          | inr f ↦ rw f (reply_or_skip-ne-stopped ctx header.request_id _)
        ]

  handle_msg-ne-stopped :
      (ctx : ConnectionInfo) (header : Header) (m : OpMsg) → handle_msg s ctx header m ≢ stopped
  unfolding handle_msg
  handle_msg-ne-stopped ctx header m =
      or_else-ne-stopped (command_of m.sections.body) close _ (command_of-ne-stuck m.sections.body)
        (λ p. cc)
        λ name. elim (Bool-cases (more_to_come m)) [
          | inl t ↦ rw t (λ p. cc)
          | inr f ↦ rw f (answer-ne-stopped _ header m _ (total.handler_returns ctx _))
        ]

  handle_body-ne-stopped :
      (ctx : ConnectionInfo) (header : Header) (b : MessageBody)
      → handle_body s ctx header b ≢ stopped
  unfolding handle_body
  handle_body-ne-stopped ctx header (MessageBody.query q) = handle_query-ne-stopped ctx header q
  handle_body-ne-stopped ctx header (MessageBody.msg m) = handle_msg-ne-stopped ctx header m
  handle_body-ne-stopped ctx header (MessageBody.reply r) = λ p. cc
  handle_body-ne-stopped ctx header (MessageBody.compressed c) = λ p. cc

  pub handle_frame-ne-stopped :
      (ctx : ConnectionInfo) (header : Header) (b : MessageBody)
      → HoldsBytes b
      → handle_frame s ctx header b ≢ stopped
  unfolding handle_frame
  handle_frame-ne-stopped ctx header (MessageBody.compressed c) h =
      or_else-ne-stopped (unwrap_body s.backends c s.config.max_msg_len) close _
        (unwrap_body-ne-stuck s.backends c s.config.max_msg_len total.back_ends_return h) (λ p. cc)
        (λ b. handle_body-ne-stopped ctx header b)
  handle_frame-ne-stopped ctx header (MessageBody.query q) h =
      handle_body-ne-stopped ctx header (MessageBody.query q)
  handle_frame-ne-stopped ctx header (MessageBody.msg m) h =
      handle_body-ne-stopped ctx header (MessageBody.msg m)
  handle_frame-ne-stopped ctx header (MessageBody.reply r) h =
      handle_body-ne-stopped ctx header (MessageBody.reply r)

module _ (s : Surroundings) where
  pub codec_decode-ne-stuck :
      (buf : Bytes) → AreBytes buf → (codec_decode s.crc s.config buf).0 ≢ stuck
  unfolding codec_decode
  codec_decode-ne-stuck buf h = parse_message-ne-stuck s.crc buf s.config.max_msg_len h

  pub codec_decode-HoldsBytes :
      (buf rest : Bytes) (header : Header) (body : MessageBody)
      → AreBytes buf
      → codec_decode s.crc s.config buf ≡ (ok (some (header, body)), rest)
      → HoldsBytes body × AreBytes rest
  unfolding codec_decode
  codec_decode-HoldsBytes buf rest header body h e =
      parse_message-HoldsBytes s.crc buf rest s.config.max_msg_len header body h e
