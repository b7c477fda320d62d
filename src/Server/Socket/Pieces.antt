-- ===== src/Server/Socket/Pieces.antt =====
-- The loop of mongowire/src/api/mod.rs on bytes that arrive in pieces.
use mongowire.Base.{
  ℕ, zero, suc, ◌≡◌, ◌<◌, ◌++◌, refl, Option, none, some, Bytes, Result, ok, err, stuck, length,
  length-append, arith, subst,
}
use mongowire.Wire.{ProtocolError}
use mongowire.Wire.Header.{Header}
use mongowire.Wire.Body.{MessageBody}
use mongowire.Wire.Framing.{Parsed}
use mongowire.Wire.Framing.Laws.{parse_message-none}
use mongowire.Wire.Framing.Arrival.{parse_message-append}
use mongowire.Server.{ConnectionInfo}
use mongowire.Server.Socket.{
  Surroundings, Step, next, close, fail, stopped, handle_frame, codec_decode, process, Loop,
  waiting, turn, after_step,
}
use mongowire.Server.Socket.Ends.{shorter, pair_eq}

module _ (s : Surroundings) where
  after_step_cong :
      (st : Step) (out : Bytes) (f g : ConnectionInfo → Bytes → Loop s)
      → ((c : ConnectionInfo) (o : Bytes) → f c o ≡ g c o)
      → after_step s st out f ≡ after_step s st out g
  after_step_cong (next c bytes) out f g h = h c (out ++ bytes)
  after_step_cong close out f g h = refl
  after_step_cong fail out f g h = refl
  after_step_cong stopped out f g h = refl

  turn_cong :
      (item : Result ProtocolError (Option (Header × MessageBody))) (ctx : ConnectionInfo)
      (rest out : Bytes) (f g : ConnectionInfo → Bytes → Loop s)
      → ((header : Header) (body : MessageBody)
          → item ≡ ok (some (header, body))
          → (c : ConnectionInfo) (o : Bytes) → f c o ≡ g c o)
      → turn s item ctx rest out f ≡ turn s item ctx rest out g
  turn_cong (ok none) ctx rest out f g h = refl
  turn_cong (ok (some (header, body))) ctx rest out f g h =
      after_step_cong (handle_frame s ctx header body) out f g (h header body refl)
  turn_cong (err e) ctx rest out f g h = refl
  turn_cong stuck ctx rest out f g h = refl

  -- Any two amounts of fuel that are enough give the same.
  process_fuel :
      (f g : ℕ) (ctx : ConnectionInfo) (buf out : Bytes)
      → length buf < f
      → length buf < g
      → process s f ctx buf out ≡ process s g ctx buf out
  unfolding process
  process_fuel zero g ctx buf out hf hg = absurd (omega arith)
  process_fuel (suc f) zero ctx buf out hf hg = absurd (omega arith)
  process_fuel (suc f) (suc g) ctx buf out hf hg = turn_cong _ ctx _ out _ _ λ header body e c o.
      let less = shorter s buf _ header body (pair_eq s _ e) in
      process_fuel f g c _ o (omega arith) (omega arith)

  -- A step after which one continuation waits, with another continuation.
  after_step_waits :
      (st : Step) (out : Bytes) (f g : ConnectionInfo → Bytes → Loop s) (waits target : Loop s)
      {d : ConnectionInfo} {rest written : Bytes}
      → waits ≡ waiting d rest written
      → after_step s st out f ≡ waits
      → ((c : ConnectionInfo) (o : Bytes) → f c o ≡ waits → g c o ≡ target)
      → after_step s st out g ≡ target
  after_step_waits (next c bytes) out f g waits target w h k = k c (out ++ bytes) h
  after_step_waits close out f g waits target w h k = cc
  after_step_waits fail out f g waits target w h k = cc
  after_step_waits stopped out f g waits target w h k = cc

  -- One turn, on what the decoder gave for the first bytes; `ih` is for the turns behind it.
  turn-pieces :
      (f g k : ℕ) (ctx d : ConnectionInfo) (buf more out rest written : Bytes) (decoded : Parsed)
      → codec_decode s.crc s.config buf ≡ decoded
      → turn s decoded.0 ctx decoded.1 out (λ c o. process s f c decoded.1 o)
        ≡ waiting d rest written
      → length (buf ++ more) < suc g
      → length (rest ++ more) < k
      → ((c : ConnectionInfo) (r o : Bytes)
          → length r < length buf
          → process s f c r o ≡ waiting d rest written
          → process s g c (r ++ more) o ≡ process s k d (rest ++ more) written)
      → process s (suc g) ctx (buf ++ more) out ≡ process s k d (rest ++ more) written
  unfolding process codec_decode
  turn-pieces f g k ctx d buf more out rest written (ok none, r) e h hg hk ih =
      let (same, _) = parse_message-none s.crc buf r s.config.max_msg_len e in
      let left : rest ≡ buf = cc (h, same) in
      cc (
        process_fuel (suc g) k ctx (buf ++ more) out hg
            (subst (λ t. length (t ++ more) < k) left hk),
        h,
        left,
      )
  turn-pieces f g k ctx d buf more out rest written (ok (some (header, body)), r) e h hg hk ih =
      rw (parse_message-append s.crc buf more s.config.max_msg_len (λ q. cc (e, q)), e)
        (after_step_waits (handle_frame s ctx header body) out (λ c o. process s f c r o) _
          (waiting d rest written) (process s k d (rest ++ more) written) refl h
          λ c o q. ih c r o (shorter s buf r header body e) q)
  turn-pieces f g k ctx d buf more out rest written (err x, r) e h hg hk ih = cc
  turn-pieces f g k ctx d buf more out rest written (stuck, r) e h hg hk ih = cc

  -- If the loop has come to wait on what has arrived, and more bytes arrive, it goes on as it
  -- would have gone on all the bytes at once: the same replies, the same context, the same end.
  pub process-pieces :
      (f g k : ℕ) (ctx d : ConnectionInfo) (buf more out rest written : Bytes)
      → process s f ctx buf out ≡ waiting d rest written
      → length (buf ++ more) < g
      → length (rest ++ more) < k
      → process s g ctx (buf ++ more) out ≡ process s k d (rest ++ more) written
  unfolding process codec_decode
  process-pieces zero g k ctx d buf more out rest written h hg hk = cc
  process-pieces (suc f) zero k ctx d buf more out rest written h hg hk = absurd (omega arith)
  process-pieces (suc f) (suc g) k ctx d buf more out rest written h hg hk =
      turn-pieces f g k ctx d buf more out rest written (codec_decode s.crc s.config buf) refl h hg
        hk
        λ c r o less q.
          process-pieces f g k c d r more o rest written q
            (omega (arith, length-append buf more, length-append r more)) hk
