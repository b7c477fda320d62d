-- ===== src/Server.antt =====
-- mongowire/src/api: the embeddable server. This file has the errors of mongowire/src/error.rs, the
-- state of a connection (api/client_info.rs, api/auth.rs), what a handler takes and gives
-- (api/handler.rs), and the ready-made replies (api/response.rs). The peer's address, which no code
-- reads, is left out; the clock's value and generated nonces are arguments.
pub mod Handshake
pub mod Sasl
pub mod Socket
use mongowire.Base.{
  ℕ, ◌+◌, ◌%◌, ◌^◌, Bool, true, false, Option, none, some, List, [], ◌∷◌, Bytes, ℤ, pos, signed,
  i32_half, codes, Result, ok, err, ◌>>=◌, map_err, if◌then◌else◌,
}
use mongowire.Bson.{Bson, Fields, RawDocument, Values, no_values}
use mongowire.Bson as BsonValues
use mongowire.Bson.Document.{add, push}
use mongowire.Bson.Document
use mongowire.Bson.Encode.{encode}
use mongowire.Wire.{ProtocolError, bson, CompressorId, noop, snappy, zlib, zstd}
use mongowire.Wire.Sections.{MsgFlags, DocumentSequence}
use mongowire.Wire.Msg.{OpMsg}
use mongowire.Wire.Msg
use mongowire.Wire.Reply.{OpReply}
use mongowire.Auth.Scram.{ScramMechanism}
use mongowire.Auth.Scram.Server.{ScramServer}

pub data Error : Type 0 where
  protocol : ProtocolError → Error
  command : ℤ → Bytes → Bytes → Error

-- The bits of the doubles 1.0 and 0.0.
abbrev pub one_bits : ℕ
one_bits = 0x3ff0000000000000

abbrev pub zero_bits : ℕ
zero_bits = 0

unfoldable pub to_error_response_doc : Error → Option Fields
unfolding add Document.new
to_error_response_doc (protocol e) = none
to_error_response_doc (command code code_name message) =
    let doc = add Document.new (codes "ok") (Bson.double zero_bits) in
    let doc = add doc (codes "errmsg") (Bson.string message) in
    let doc = add doc (codes "code") (Bson.int32 code) in
    let doc = add doc (codes "codeName") (Bson.string code_name) in
    some (add doc (codes "$db") (Bson.string (codes "admin")))

pub record AuthState : Type 0 where
  pub scram : Option (ScramMechanism × ScramServer)
  pub authenticated : Option Bytes

-- The counter is the bit pattern of the i32.
pub record ConnectionInfo : Type 0 where
  pub request_id_counter : ℕ
  pub negotiated_compressors : List CompressorId
  pub checksum : Bool
  pub auth : AuthState

unfoldable pub new : ConnectionInfo
new = record {
  request_id_counter = 0;
  negotiated_compressors = [];
  checksum = true;
  auth = record { scram = none; authenticated = none };
}

-- `fetch_add(1)`, which wraps.
unfoldable pub next_request_id : ConnectionInfo → ℤ × ConnectionInfo
next_request_id ctx = (
  signed i32_half ctx.request_id_counter,
  record ctx { request_id_counter = (ctx.request_id_counter + 1) % 2 ^ 32 },
)

pub record Command : Type 0 where
  pub name : Bytes
  pub body : RawDocument
  pub sequences : List DocumentSequence
  pub flags : MsgFlags

pub data Reply : Type 0 where
  msg : OpMsg → Reply
  no_reply : Reply

-- A handler of commands: the reply or error, and the context that it leaves.
abbrev pub CommandHandler : Type 0
CommandHandler = ConnectionInfo → Command → Result Error Reply × ConnectionInfo

unfoldable pub bson_error : BsonValues.Error → Error
bson_error e = protocol (bson e)

-- Wrap a body document into an OP_MSG with the given flags.
unfoldable pub op_msg : MsgFlags → RawDocument → Result Error OpMsg
op_msg flags body = map_err protocol (Msg.new flags body [])

abbrev pub empty_flags : MsgFlags
empty_flags = record { bits = 0 }

-- Encode a document and wrap it.
abbrev pub reply_with : Fields → Result Error OpMsg
reply_with doc = do raw ← map_err bson_error (encode doc); op_msg empty_flags raw

-- The name of a compressor in a handshake.
unfoldable pub name : CompressorId → Bytes
name noop = codes "noop"
name snappy = codes "snappy"
name zlib = codes "zlib"
name zstd = codes "zstd"

push_names : List CompressorId → Values → Values
unfolding push name
push_names [] compression = compression
push_names (c ∷ cs) compression = push_names cs (push compression (Bson.string (name c)))

abbrev is_nil {ℓ} : {A : Type ℓ} → List A → Bool
is_nil [] = true
is_nil (x ∷ xs) = false

-- The document of a handshake reply.
unfoldable pub handshake_doc : List CompressorId → ℤ → Bool → ℤ → Fields
unfolding add Document.new push_names
handshake_doc compressors max_msg_len legacy_is_master local_time =
    let doc = add Document.new (codes "ok") (Bson.double one_bits) in
    let doc =
      add doc (if legacy_is_master then codes "ismaster" else codes "isWritablePrimary")
        (Bson.bool true) in
    let doc = add doc (codes "helloOk") (Bson.bool true) in
    let doc = add doc (codes "maxBsonObjectSize") (Bson.int32 (pos 16777216)) in
    let doc = add doc (codes "maxMessageSizeBytes") (Bson.int32 max_msg_len) in
    let doc = add doc (codes "maxWriteBatchSize") (Bson.int32 (pos 100000)) in
    let doc = add doc (codes "localTime") (Bson.date_time local_time) in
    let doc = add doc (codes "logicalSessionTimeoutMinutes") (Bson.int32 (pos 30)) in
    let doc = add doc (codes "connectionId") (Bson.int32 (pos 1)) in
    let doc = add doc (codes "minWireVersion") (Bson.int32 (pos 0)) in
    let doc = add doc (codes "maxWireVersion") (Bson.int32 (pos 21)) in
    let doc = add doc (codes "readOnly") (Bson.bool false) in
    if is_nil compressors
    then doc
    else add doc (codes "compression") (Bson.array (push_names compressors no_values))

unfoldable pub handshake_reply : List CompressorId → ℤ → Bool → ℤ → Result Error OpMsg
unfolding handshake_doc
handshake_reply compressors max_msg_len legacy_is_master local_time =
    reply_with (handshake_doc compressors max_msg_len legacy_is_master local_time)

-- The flag `AWAIT_CAPABLE` is 8.
unfoldable pub query_handshake_reply : RawDocument → OpReply
query_handshake_reply body = record {
  response_flags = record { bits = 8 };
  cursor_id = pos 0;
  starting_from = pos 0;
  number_returned = pos 1;
  documents = body ∷ [];
}

unfoldable pub ping_reply : Result Error OpMsg
unfolding add Document.new
ping_reply = reply_with (add Document.new (codes "ok") (Bson.double one_bits))
