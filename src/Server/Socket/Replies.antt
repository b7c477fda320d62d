-- ===== src/Server/Socket/Replies.antt =====
-- What a connection of mongowire/src/api/mod.rs writes for one message.
use mongowire.Base.{
  ◌≡◌, ◌⊎◌, refl, Bool, true, false, ◌&&◌, Option, none, some, [], Bytes, ℕ, ℤ, Result, ok, err,
  stuck, if_ok, inl, inr,
}
use mongowire.Bson.Raw.{command as command_of}
use mongowire.Wire.Header.{Header}
use mongowire.Wire.Msg.{OpMsg}
use mongowire.Wire.Query.{OpQuery}
use mongowire.Wire.Body.{MessageBody, opcode, unwrap_body}
use mongowire.Wire.Framing.{encode_message, Encoded}
use mongowire.Server.{
  ConnectionInfo, Reply, Error, no_reply, next_request_id, handshake_reply, query_handshake_reply,
}
use mongowire.Server.Handshake.{is_hello}
use mongowire.Server.Socket.{
  Step, next, close, fail, Surroundings, send_reply, written, codec_encode, new_header, is_msg,
  error_reply, reply_or_close, reply_or_skip, or_else, answer_hello, handle_query, answer,
  handle_msg, handle_body, handle_frame, more_to_come,
}

-- The bytes are one frame, whose header answers the given request.
pub record IsReply (crc : Bytes → ℕ) (response_to : ℤ) (out : Bytes) : Type 0 where
  pub id : ℤ
  pub body : MessageBody
  pub summed : Bool
  pub header : Header
  pub encoded :
      encode_message crc (new_header id response_to (opcode body)) body summed []
      ≡ (ok tt, header, out)

-- A step on a result, taken apart in the middle of a proof.
or_else_next {ℓ κ μ} :
    {E : Type ℓ} {A : Type κ} {Q : Type μ} (r : Result E A) (early : Step) (f : A → Step)
    {d : ConnectionInfo} {out : Bytes}
    → or_else r early f ≡ next d out
    → (early ≡ next d out → Q)
    → ((a : A) → r ≡ ok a → f a ≡ next d out → Q)
    → Q
or_else_next (ok a) early f h g k = k a refl h
or_else_next (err e) early f h g k = g h
or_else_next stuck early f h g k = cc

written-next :
    (ctx d : ConnectionInfo) (e : Encoded) (out : Bytes)
    → written ctx e ≡ next d out
    → (header : Header) × (e ≡ (ok tt, header, out))
written-next ctx d (ok u, header, out') out h = (header, cc)
written-next ctx d (err x, header, out') out h = cc
written-next ctx d (stuck, header, out') out h = cc

send_reply-IsReply :
    (crc : Bytes → ℕ) (ctx d : ConnectionInfo) (response_to : ℤ) (body : MessageBody) (out : Bytes)
    → send_reply crc ctx response_to body ≡ next d out
    → IsReply crc response_to out
unfolding send_reply codec_encode
send_reply-IsReply crc ctx d response_to body out h =
    if_ok (ctx.checksum && is_msg body) h
      (λ _ h.
        let (header, e) = written-next _ d _ out h in
        record {
          id = (next_request_id ctx).0;
          body = body;
          summed = true;
          header = header;
          encoded = e;
        })
      λ _ h.
        let (header, e) = written-next _ d _ out h in
        record {
          id = (next_request_id ctx).0;
          body = body;
          summed = false;
          header = header;
          encoded = e;
        }

module _ (s : Surroundings) where
  -- Nothing, or one reply to the request.
  pub IsAnswer : ℤ → Bytes → Type 0
  IsAnswer request_id out = (out ≡ []) ⊎ IsReply s.crc request_id out

  module _ (ctx d : ConnectionInfo) (header : Header) (out : Bytes) where
    reply_or_close-IsReply :
        (c : ConnectionInfo) (o : Option MessageBody)
        → reply_or_close s c header.request_id o ≡ next d out
        → IsReply s.crc header.request_id out
    reply_or_close-IsReply c none h = cc
    reply_or_close-IsReply c (some body) h =
        send_reply-IsReply s.crc c d header.request_id body out h

    reply_or_skip-IsAnswer :
        (c : ConnectionInfo) (o : Option MessageBody)
        → reply_or_skip s c header.request_id o ≡ next d out
        → IsAnswer header.request_id out
    unfolding IsAnswer
    reply_or_skip-IsAnswer c none h = inl (cc)
    reply_or_skip-IsAnswer c (some body) h =
        inr (send_reply-IsReply s.crc c d header.request_id body out h)

    answer-IsAnswer :
        (c : ConnectionInfo) (m : OpMsg) (r : Result Error Reply)
        → answer s c header m r ≡ next d out
        → IsAnswer header.request_id out
    unfolding answer IsAnswer
    answer-IsAnswer c m (ok (Reply.msg r)) h =
        inr (send_reply-IsReply s.crc c d header.request_id (MessageBody.msg r) out h)
    answer-IsAnswer c m (ok no_reply) h = inl (cc)
    answer-IsAnswer c m (err e) h =
        inr (reply_or_close-IsReply c (error_reply e (MessageBody.msg m)) h)
    answer-IsAnswer c m stuck h = cc

    answer_hello-IsReply :
        (q : OpQuery)
        → answer_hello s ctx header q ≡ next d out
        → IsReply s.crc header.request_id out
    unfolding answer_hello
    answer_hello-IsReply q h =
        or_else_next (handshake_reply _ _ true s.now) fail _ h (λ e. cc)
          λ r e h.
            send_reply-IsReply s.crc _ d header.request_id
              (MessageBody.reply (query_handshake_reply r.sections.body)) out h

    handle_query-IsAnswer :
        (q : OpQuery) → handle_query s ctx header q ≡ next d out → IsAnswer header.request_id out
    unfolding handle_query IsAnswer
    handle_query-IsAnswer q h =
        or_else_next (command_of q.query) close _ h (λ e. cc)
          λ name _ h.
            if_ok (is_hello name) h (λ _ h. inr (answer_hello-IsReply q h))
              λ _ h. reply_or_skip-IsAnswer ctx _ h

    handle_msg-IsAnswer :
        (m : OpMsg) → handle_msg s ctx header m ≡ next d out → IsAnswer header.request_id out
    unfolding handle_msg IsAnswer
    handle_msg-IsAnswer m h =
        or_else_next (command_of m.sections.body) close _ h (λ e. cc)
          λ name _ h. if_ok (more_to_come m) h (λ _ h. inl (cc)) λ _ h. answer-IsAnswer _ m _ h

    handle_body-IsAnswer :
        (b : MessageBody) → handle_body s ctx header b ≡ next d out → IsAnswer header.request_id out
    unfolding handle_body IsAnswer
    handle_body-IsAnswer (MessageBody.query q) h = handle_query-IsAnswer q h
    handle_body-IsAnswer (MessageBody.msg m) h = handle_msg-IsAnswer m h
    handle_body-IsAnswer (MessageBody.reply r) h = inl (cc)
    handle_body-IsAnswer (MessageBody.compressed c) h = cc

    -- A step that goes on has written nothing, or exactly one frame, whose header names the
    -- request's id as the one it responds to.
    pub handle_frame-IsAnswer :
        (b : MessageBody)
        → handle_frame s ctx header b ≡ next d out
        → IsAnswer header.request_id out
    unfolding handle_frame
    handle_frame-IsAnswer (MessageBody.query q) h = handle_body-IsAnswer (MessageBody.query q) h
    handle_frame-IsAnswer (MessageBody.msg m) h = handle_body-IsAnswer (MessageBody.msg m) h
    handle_frame-IsAnswer (MessageBody.reply r) h = handle_body-IsAnswer (MessageBody.reply r) h
    handle_frame-IsAnswer (MessageBody.compressed c) h =
        or_else_next (unwrap_body s.backends c s.config.max_msg_len) close _ h (λ e. cc)
          λ b _ h. handle_body-IsAnswer b h
