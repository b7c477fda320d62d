-- ===== src/Server/Socket.antt =====
-- mongowire/src/api/mod.rs: the loop of a connection (`process_socket`) over the bytes that have
-- arrived, with the framing that mongowire/src/codec.rs adapts. A write that the network refuses
-- is not modelled: the bytes of a reply are the step's result.
pub mod Replies
pub mod Silent
pub mod Total
pub mod Ends
pub mod Pieces
pub mod Errors
use mongowire.Base.{
  ℕ, zero, suc, Bool, true, false, not, ◌&&◌, Option, none, some, [], ◌∷◌, ◌++◌, Bytes, ℤ, pos,
  codes, Result, ok, err, stuck, ◌/◌, ◌%◌, ◌+◌, ◌*◌, ◌-◌, ◌==◌, ◌>>=◌, map_err, if◌then◌else◌,
  length, List,
}
use mongowire.Bson.{RawDocument}
use mongowire.Bson.Encode.{encode}
use mongowire.Bson.Raw.{command as command_of}
use mongowire.Wire.{ProtocolError, CompressorId, Opcode}
use mongowire.Wire.Header.{Header}
use mongowire.Wire.Msg.{OpMsg}
use mongowire.Wire.Query.{OpQuery}
use mongowire.Wire.Reply.{OpReply, ReplyFlags}
use mongowire.Wire.Compressed.{Compressors, OpCompressed}
use mongowire.Wire.Body.{MessageBody, opcode, unwrap_body}
use mongowire.Wire.Framing.{parse_message, encode_message, Parsed, Encoded}
use mongowire.Server.{
  ConnectionInfo, Command, Reply, CommandHandler, Error, command, no_reply, next_request_id,
  to_error_response_doc, query_handshake_reply, op_msg, empty_flags, handshake_reply,
}
use mongowire.Server.Handshake.{requested_compressors, negotiate, is_hello}

pub record ServerConfig : Type 0 where
  pub max_msg_len : ℤ
  pub checksum : Bool
  pub compressors : List CompressorId

-- `MongoCodec::decode`
unfoldable pub codec_decode : (Bytes → ℕ) → ServerConfig → Bytes → Parsed
codec_decode crc config src = parse_message crc src config.max_msg_len

-- `MongoCodec::encode`
unfoldable pub codec_encode : (Bytes → ℕ) → Header → MessageBody → Bytes → Encoded
codec_encode crc header body dst = encode_message crc header body false dst

-- `Header::new`
unfoldable pub new_header : ℤ → ℤ → Opcode → Header
new_header request_id response_to op_code = record {
  message_length = pos 0;
  request_id = request_id;
  response_to = response_to;
  op_code = op_code;
}

-- `flags |= QUERY_FAILURE`, which is 2.
unfoldable pub with_query_failure : OpReply → OpReply
with_query_failure r =
    let bits = r.response_flags.bits in
    record r { response_flags = record { bits = bits - bits / 2 % 2 * 2 + 2 } }

abbrev pub to_option {ℓ κ} : {E : Type ℓ} {A : Type κ} → Result E A → Option A
to_option (ok a) = some a
to_option (err e) = none
to_option stuck = none

abbrev pub then_option {ℓ κ} : {A : Type ℓ} {B : Type κ} → Option A → (A → Option B) → Option B
then_option none f = none
then_option (some a) f = f a

-- The reply with an encoded error document, in the request's shape.
unfoldable pub error_body : RawDocument → MessageBody → Option MessageBody
unfolding query_handshake_reply op_msg with_query_failure
error_body raw (MessageBody.query q) =
    some (MessageBody.reply (with_query_failure (query_handshake_reply raw)))
error_body raw _ = then_option (to_option (op_msg empty_flags raw)) λ m. some (MessageBody.msg m)

unfoldable pub error_reply : Error → MessageBody → Option MessageBody
unfolding error_body to_error_response_doc
error_reply e request =
    then_option (to_error_response_doc e)
      λ doc. then_option (to_option (encode doc)) λ raw. error_body raw request

-- What the loop does with one message: it writes bytes and goes on, or returns, with the error of
-- an `io::Result` or without.
pub data Step : Type 0 where
  next : ConnectionInfo → Bytes → Step
  close : Step
  fail : Step
  stopped : Step

abbrev pub is_msg : MessageBody → Bool
is_msg (MessageBody.msg m) = true
is_msg _ = false

abbrev pub written : ConnectionInfo → Encoded → Step
written ctx (ok u, header, out) = next ctx out
written ctx (err e, header, out) = fail
written ctx (stuck, header, out) = stopped

unfoldable pub send_reply : (Bytes → ℕ) → ConnectionInfo → ℤ → MessageBody → Step
unfolding next_request_id new_header codec_encode
send_reply crc ctx response_to body =
    let (id, ctx') = next_request_id ctx in
    let header = new_header id response_to (opcode body) in
    if ctx.checksum && is_msg body
    then written ctx' (encode_message crc header body true [])
    else written ctx' (codec_encode crc header body [])

-- `flags.contains(MORE_TO_COME)`
abbrev pub more_to_come : OpMsg → Bool
more_to_come m = m.flags.bits / 2 % 2 == 1

-- `let Ok(a) = result else { return … }`
abbrev pub or_else {ℓ κ} : {E : Type ℓ} {A : Type κ} → Result E A → Step → (A → Step) → Step
or_else (ok a) early f = f a
or_else (err e) early f = early
or_else stuck early f = stopped

-- The surroundings of a connection: the checksum, the back ends, the configuration, the handlers,
-- and the clock.
pub record Surroundings : Type 0 where
  pub crc : Bytes → ℕ
  pub backends : Compressors
  pub config : ServerConfig
  pub handler : CommandHandler
  pub now : ℤ

module _ (s : Surroundings) where
  abbrev pub reply_or_close : ConnectionInfo → ℤ → Option MessageBody → Step
  reply_or_close ctx request_id none = close
  reply_or_close ctx request_id (some body) = send_reply s.crc ctx request_id body

  abbrev pub reply_or_skip : ConnectionInfo → ℤ → Option MessageBody → Step
  reply_or_skip ctx request_id none = next ctx []
  reply_or_skip ctx request_id (some body) = send_reply s.crc ctx request_id body

  -- The legacy handshake.
  unfoldable pub answer_hello : ConnectionInfo → Header → OpQuery → Step
  unfolding requested_compressors negotiate handshake_reply query_handshake_reply
  answer_hello ctx header q =
      let negotiated = negotiate s.config.compressors (requested_compressors q.query) in
      let ctx' = record ctx { negotiated_compressors = negotiated } in
      or_else (handshake_reply negotiated s.config.max_msg_len true s.now) fail λ answered.
        send_reply s.crc ctx' header.request_id
          (MessageBody.reply (query_handshake_reply answered.sections.body))

  unfoldable pub handle_query : ConnectionInfo → Header → OpQuery → Step
  unfolding answer_hello is_hello error_reply
  handle_query ctx header q = or_else (command_of q.query) close λ name.
      if is_hello name
      then answer_hello ctx header q
      else reply_or_skip ctx header.request_id (
          error_reply
            (command (pos 59) (codes "CommandNotFound")
              (codes "OP_QUERY only supports hello/isMaster"))
            (MessageBody.query q))

  -- The outcome of a handler, when the request takes a reply.
  unfoldable pub answer : ConnectionInfo → Header → OpMsg → Result Error Reply → Step
  unfolding error_reply
  answer ctx header m (ok (Reply.msg r)) =
      send_reply s.crc ctx header.request_id (MessageBody.msg r)
  answer ctx header m (ok no_reply) = next ctx []
  answer ctx header m (err e) =
      reply_or_close ctx header.request_id (error_reply e (MessageBody.msg m))
  answer ctx header m stuck = stopped

  unfoldable pub handle_msg : ConnectionInfo → Header → OpMsg → Step
  unfolding answer
  handle_msg ctx header m = or_else (command_of m.sections.body) close λ name.
      let request : Command = record {
        name = name;
        body = m.sections.body;
        sequences = m.sections.sequences;
        flags = m.flags;
      } in
      let outcome = s.handler ctx request in
      if more_to_come m then next outcome.1 [] else answer outcome.1 header m outcome.0

  unfoldable pub handle_body : ConnectionInfo → Header → MessageBody → Step
  unfolding handle_query handle_msg
  handle_body ctx header (MessageBody.query q) = handle_query ctx header q
  handle_body ctx header (MessageBody.msg m) = handle_msg ctx header m
  handle_body ctx header (MessageBody.reply r) = next ctx []
  handle_body ctx header (MessageBody.compressed c) = close

  unfoldable pub handle_frame : ConnectionInfo → Header → MessageBody → Step
  unfolding handle_body
  handle_frame ctx header (MessageBody.compressed c) =
      or_else (unwrap_body s.backends c s.config.max_msg_len) close
        λ body. handle_body ctx header body
  handle_frame ctx header body = handle_body ctx header body

  -- The state of a connection: what it has written and what it still holds, or that it has ended. It is
  -- `exhausted` where the fuel ran out, `undefined` where a step of the model did.
  pub data Loop : Type 0 where
    waiting : ConnectionInfo → Bytes → Bytes → Loop
    closed failed : Bytes → Loop
    exhausted undefined : Loop

  abbrev pub after_step : Step → Bytes → (ConnectionInfo → Bytes → Loop) → Loop
  after_step (next ctx bytes) out go_on = go_on ctx (out ++ bytes)
  after_step close out go_on = closed out
  after_step fail out go_on = failed out
  after_step stopped out go_on = undefined

  -- One turn on what the decoder gave, and the rest of the buffer.
  abbrev pub turn :
      Result ProtocolError (Option (Header × MessageBody))
      → ConnectionInfo
      → Bytes
      → Bytes
      → (ConnectionInfo → Bytes → Loop)
      → Loop
  turn (ok none) ctx rest out go_on = waiting ctx rest out
  turn (ok (some (header, body))) ctx rest out go_on =
      after_step (handle_frame ctx header body) out go_on
  turn (err e) ctx rest out go_on = closed out
  turn stuck ctx rest out go_on = undefined

  -- The loop on the bytes that have arrived; it waits at an incomplete frame.
  unfoldable pub process : ℕ → ConnectionInfo → Bytes → Bytes → Loop
  unfolding handle_frame codec_decode
  process zero ctx buf out = exhausted
  process (suc fuel) ctx buf out =
      let (item, rest) = codec_decode s.crc s.config buf in
      turn item ctx rest out λ ctx' out'. process fuel ctx' rest out'
