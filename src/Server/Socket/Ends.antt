-- ===== src/Server/Socket/Ends.antt =====
-- The loop of mongowire/src/api/mod.rs ends: each turn takes a frame off the buffer.
use mongowire.Base.{
  ℕ, zero, suc, ◌≡◌, ◌≢◌, ◌<◌, ◌++◌, refl, Option, none, some, Bytes, Result, ok, err, stuck,
  length, length-drop, as_usize, arith, ap, AreBytes, sym, subst, ◌∙◌,
}
use mongowire.Wire.{ProtocolError}
use mongowire.Wire.Header.{Header}
use mongowire.Wire.Body.{MessageBody}
use mongowire.Wire.Framing.{Parsed}
use mongowire.Wire.Framing.Laws.{parse_message-some, parse_message-none}
use mongowire.Wire.Framing.{parse_message}
use mongowire.Wire.Body.Ends.{HoldsBytes}
use mongowire.Server.Socket.Total.{
  IsTotal, handle_frame-ne-stopped, codec_decode-ne-stuck, codec_decode-HoldsBytes,
}
use mongowire.Server.{ConnectionInfo}
use mongowire.Server.Socket.{
  Surroundings, Step, next, close, fail, stopped, handle_frame, codec_decode, process, Loop,
  exhausted, undefined, waiting, closed, failed, turn, after_step,
}

module _ (s : Surroundings) where
  -- A frame that is taken leaves a shorter buffer.
  pub shorter :
      (buf rest : Bytes) (header : Header) (body : MessageBody)
      → codec_decode s.crc s.config buf ≡ (ok (some (header, body)), rest)
      → length rest < length buf
  unfolding codec_decode
  shorter buf rest header body e =
      let (_, low, high, _, _, left) =
        parse_message-some s.crc buf rest s.config.max_msg_len header body e in
      rw left (omega (arith, length-drop (as_usize header.message_length) buf))

  pub pair_eq :
      (p : Parsed) {item : Result ProtocolError (Option (Header × MessageBody))}
      → p.0 ≡ item
      → p ≡ (item, p.1)
  pair_eq p e = ap (λ t. (t, p.1)) e

  -- The loop has ended the connection, or waits with a buffer that holds no whole frame; its fuel has
  -- not run out, and no step of it is undefined.
  abbrev pub HasEnded : Loop s → Type 0
  HasEnded (waiting ctx rest out) = codec_decode s.crc s.config rest ≡ (ok none, rest)
  HasEnded (closed out) = Unit {0}
  HasEnded (failed out) = Unit {0}
  HasEnded exhausted = ⊥
  HasEnded undefined = ⊥

  after_step-HasEnded :
      (st : Step) (out : Bytes) (go_on : ConnectionInfo → Bytes → Loop s)
      → st ≢ stopped
      → ((c : ConnectionInfo) (o : Bytes) → HasEnded (go_on c o))
      → HasEnded (after_step s st out go_on)
  after_step-HasEnded (next c bytes) out go_on h k = k c (out ++ bytes)
  after_step-HasEnded close out go_on h k = tt
  after_step-HasEnded fail out go_on h k = tt
  after_step-HasEnded stopped out go_on h k = absurd (h refl)

  turn-HasEnded :
      (item : Result ProtocolError (Option (Header × MessageBody))) (ctx : ConnectionInfo)
      (rest out : Bytes) (go_on : ConnectionInfo → Bytes → Loop s)
      → IsTotal s
      → item ≢ stuck
      → (item ≡ ok none → codec_decode s.crc s.config rest ≡ (ok none, rest))
      → ((header : Header) (body : MessageBody)
          → item ≡ ok (some (header, body))
          → HoldsBytes body × ((c : ConnectionInfo) (o : Bytes) → HasEnded (go_on c o)))
      → HasEnded (turn s item ctx rest out go_on)
  turn-HasEnded (ok none) ctx rest out go_on total h w k = w refl
  turn-HasEnded (ok (some (header, body))) ctx rest out go_on total h w k =
      let (holds, on) = k header body refl in
      after_step-HasEnded (handle_frame s ctx header body) out go_on
        (handle_frame-ne-stopped s total ctx header body holds) on
  turn-HasEnded (err e) ctx rest out go_on total h w k = tt
  turn-HasEnded stuck ctx rest out go_on total h w k = absurd (h refl)

  still_none :
      (buf : Bytes)
      → (codec_decode s.crc s.config buf).0 ≡ ok none
      → let rest = (codec_decode s.crc s.config buf).1 in
        codec_decode s.crc s.config rest ≡ (ok none, rest)
  unfolding codec_decode
  still_none buf e =
      let whole = pair_eq (parse_message s.crc buf s.config.max_msg_len) e in
      let (same, _) = parse_message-none s.crc buf _ s.config.max_msg_len whole in
      subst (λ x. parse_message s.crc x s.config.max_msg_len ≡ (ok none, x)) (sym same)
        (whole ∙ ap (λ x. (ok none, x)) same)

  -- With back ends and a handler that return, and fuel for one turn more than the buffer has bytes,
  -- the loop comes to an end on every buffer: it waits for more data, with a buffer that holds no
  -- whole frame, or it has closed the connection, or failed to reply.
  pub process-HasEnded :
      (fuel : ℕ) (ctx : ConnectionInfo) (buf out : Bytes)
      → IsTotal s
      → AreBytes buf
      → length buf < fuel
      → HasEnded (process s fuel ctx buf out)
  unfolding process
  process-HasEnded zero ctx buf out total hb h = absurd (omega arith)
  process-HasEnded (suc fuel) ctx buf out total hb h =
      turn-HasEnded _ ctx _ out _ total (codec_decode-ne-stuck s buf hb) (still_none buf)
        λ header body e.
          let got = pair_eq _ e in
          let less = shorter buf _ header body got in
          let (holds, bytes) = codec_decode-HoldsBytes s buf _ header body hb got in
          (holds, λ c o. process-HasEnded fuel c _ o total bytes (omega arith))
