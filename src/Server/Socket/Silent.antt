-- ===== src/Server/Socket/Silent.antt =====
-- What the loop of mongowire/src/api/mod.rs makes of a message with `moreToCome`.
use mongowire.Base.{
  ℕ, suc, ◌≡◌, ◌≢◌, ◌⊎◌, refl, true, some, [], Bytes, ok, err, stuck, inl, inr, append-nil,
  Result-cases, arith,
}
use mongowire.Bson.{Error}
use mongowire.Bson.Raw.{command as command_of, command_of_body, first_name}
use mongowire.Wire.Header.{Header}
use mongowire.Wire.Msg.{OpMsg}
use mongowire.Wire.Body.{MessageBody}
use mongowire.Server.{ConnectionInfo, Command}
use mongowire.Server.Socket.{
  Surroundings, codec_decode, process, closed, more_to_come, handle_frame, handle_msg, next, close,
}
use mongowire.Bson.{RawDocument}

pub command_of-ne-stuck : (d : RawDocument) → command_of d ≢ stuck
unfolding command_of command_of_body first_name
command_of-ne-stuck d = λ p. ground arith

-- The request that a message makes.
abbrev pub request_of : OpMsg → Bytes → Command
request_of m name = record {
  name = name;
  body = m.sections.body;
  sequences = m.sections.sequences;
  flags = m.flags;
}

module _ (s : Surroundings) where
  silent_step :
      (ctx : ConnectionInfo) (header : Header) (m : OpMsg) (name : Bytes)
      → more_to_come m ≡ true
      → command_of m.sections.body ≡ ok name
      → handle_frame s ctx header (MessageBody.msg m)
        ≡ next (s.handler ctx (request_of m name)).1 []
  unfolding handle_frame handle_msg
  silent_step ctx header m name more e = rw (e, more) refl

  nameless_step :
      (ctx : ConnectionInfo) (header : Header) (m : OpMsg) (e : Error)
      → command_of m.sections.body ≡ err e
      → handle_frame s ctx header (MessageBody.msg m) ≡ close
  unfolding handle_frame handle_msg
  nameless_step ctx header m e h = rw h refl

  -- Where the buffer starts with an OP_MSG that has `moreToCome`, the loop makes one request of its
  -- command, document, sequences and flags, and goes on with the context that the handler leaves and
  -- the rest of the buffer, with nothing written, whatever the handler returns, an error too; or the
  -- message has no readable command name, and the connection closes, with nothing written either.
  pub more_to_come_silent :
      (fuel : ℕ) (ctx : ConnectionInfo) (buf rest out : Bytes) (header : Header) (m : OpMsg)
      → codec_decode s.crc s.config buf ≡ (ok (some (header, MessageBody.msg m)), rest)
      → more_to_come m ≡ true
      → ((name : Bytes) × (command_of m.sections.body ≡ ok name)
          × (process s (suc fuel) ctx buf out
              ≡ process s fuel (s.handler ctx (request_of m name)).1 rest out))
        ⊎ ((e : Error) × (command_of m.sections.body ≡ err e)
            × (process s (suc fuel) ctx buf out ≡ closed out))
  unfolding process
  more_to_come_silent fuel ctx buf rest out header m got more =
      elim (Result-cases (command_of m.sections.body)) [
        | inl (name, e) ↦
            inl (name, e, rw (got, silent_step ctx header m name more e, append-nil out) refl)
        | inr (inr p) ↦ absurd (command_of-ne-stuck m.sections.body p)
        | inr (inl (x, e)) ↦ inr (x, e, rw (got, nameless_step ctx header m x e) refl)
      ]
