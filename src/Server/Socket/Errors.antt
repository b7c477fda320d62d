-- ===== src/Server/Socket/Errors.antt =====
-- What a handler's error becomes on the wire (mongowire/src/api/mod.rs, error.rs).
use mongowire.Base.{
  ◌≡◌, refl, Option, none, some, [], ◌∷◌, Bytes, ℤ, pos, Result, ok, err, stuck, codes,
}
use mongowire.Bson.{Bson, Fields, field, no_fields, RawDocument}
use mongowire.Bson.Document.{add}
use mongowire.Bson.Encode.{encode}
use mongowire.Bson.Encode.Written.{framed, fields_bytes, encode-framed}
use mongowire.Wire.Sections.{sections_new}
use mongowire.Wire.Msg
use mongowire.Wire.Body.{MessageBody}
use mongowire.Server.{
  Error, protocol, command, zero_bits, op_msg, query_handshake_reply, to_error_response_doc,
}
use mongowire.Server.Socket.{error_reply, error_body, then_option, to_option, with_query_failure}

then_option-some {ℓ κ} :
    {A : Type ℓ} {B : Type κ} (o : Option A) (f : A → Option B) {b : B}
    → then_option o f ≡ some b
    → (a : A) × (o ≡ some a) × (f a ≡ some b)
then_option-some none f h = cc
then_option-some (some a) f h = (a, refl, h)

to_option-some {ℓ κ} :
    {E : Type ℓ} {A : Type κ} (r : Result E A) {a : A} → to_option r ≡ some a → r ≡ ok a
to_option-some (ok a) h = cc
to_option-some (err e) h = cc
to_option-some stuck h = cc

-- `{ok: 0.0, errmsg, code, codeName, $db: "admin"}`
abbrev pub error_fields : ℤ → Bytes → Bytes → Fields
error_fields code code_name message = field (codes "ok") (Bson.double zero_bits) (
    field (codes "errmsg") (Bson.string message) (
      field (codes "code") (Bson.int32 code) (
        field (codes "codeName") (Bson.string code_name)
          (field (codes "$db") (Bson.string (codes "admin")) no_fields))))

-- A query is answered by an OP_REPLY with the flags `QUERY_FAILURE` and `AWAIT_CAPABLE` and one
-- document, anything else by an OP_MSG without flags.
abbrev pub reply_shape : MessageBody → RawDocument → MessageBody
reply_shape (MessageBody.query q) raw = MessageBody.reply (record {
  response_flags = record { bits = 10 };
  cursor_id = pos 0;
  starting_from = pos 0;
  number_returned = pos 1;
  documents = raw ∷ [];
})
reply_shape _ raw = MessageBody.msg (record {
  flags = record { bits = 0 };
  sections = record { body = raw; sequences = [] };
  checksum = none;
})

error_body-shape :
    (raw : RawDocument) (request b : MessageBody)
    → error_body raw request ≡ some b
    → b ≡ reply_shape request raw
unfolding error_body op_msg with_query_failure query_handshake_reply Msg.new sections_new
error_body-shape raw (MessageBody.query q) b h = cc
error_body-shape raw (MessageBody.msg m) b h = cc
error_body-shape raw (MessageBody.reply r) b h = cc
error_body-shape raw (MessageBody.compressed c) b h = cc

-- Only a command error has a reply. It is shaped after the request and carries the error's document,
-- whose bytes are its five fields framed.
pub error_reply_shape :
    (e : Error) (request b : MessageBody)
    → error_reply e request ≡ some b
    → (code : ℤ) × (code_name : Bytes) × (message : Bytes) × (raw : RawDocument) × (e
        ≡ command code code_name message)
      × (raw.bytes ≡ framed (fields_bytes (error_fields code code_name message)))
      × (b ≡ reply_shape request raw)
unfolding error_reply to_error_response_doc add
error_reply_shape (protocol x) request b h = cc
error_reply_shape (command code code_name message) request b h =
    let doc = error_fields code code_name message in
    let (raw, found, shaped) = then_option-some (to_option (encode doc)) _ h in
    (
      code,
      code_name,
      message,
      raw,
      refl,
      (encode-framed doc raw (to_option-some (encode doc) found)).0,
      error_body-shape raw request b shaped,
    )
