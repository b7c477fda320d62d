-- ===== src/Server/Sasl/Bridge.antt =====
-- mongowire/src/api/auth.rs: the bridge from the two commands to the SCRAM server that a connection
-- holds.
use mongowire.Base.{
  true, false, Option, none, some, Bytes, pos, codes, Result, ok, err, stuck, ◌>>=◌, ◌>>◌, guard,
  map_ok, map_err, bytes_eq, if◌then◌else◌,
}
use mongowire.Bson.{RawDocument}
use mongowire.Auth.{AuthError}
use mongowire.Auth.Scram.{Crypto, ScramMechanism}
use mongowire.Auth.Scram.Client.{is_none}
use mongowire.Auth.Scram.Server.{ScramServer, handle_client_first, handle_client_final, with_nonce}
use mongowire.Server.{ConnectionInfo, Reply, CommandHandler, Error}
use mongowire.Server.Sasl.{
  CredentialSource, display, auth_failed, parse_mechanism, payload_str, parse_client_first_username,
  conversation_id_of, sasl_reply,
}

module _ (C : Crypto) where
  abbrev pub ok_or_failed {ℓ} : {A : Type ℓ} → Option A → Bytes → Result Error A
  ok_or_failed none message = err (auth_failed message)
  ok_or_failed (some a) message = ok a

  unfoldable pub failed_as {ℓ} : {A : Type ℓ} → Result AuthError A → Result Error A
  unfolding display auth_failed
  failed_as r = map_err (λ e. auth_failed (display e)) r

  abbrev pub with_scram : ConnectionInfo → Option (ScramMechanism × ScramServer) → ConnectionInfo
  with_scram ctx scram = record ctx {
    auth = record { scram = scram; authenticated = ctx.auth.authenticated };
  }

  module _ (source : CredentialSource) where
    -- `sasl_start` up to the assignment of the exchange; `generated` is the server's nonce.
    unfoldable pub begin :
        ConnectionInfo → RawDocument → Bytes → Result Error (ScramMechanism × Bytes × ScramServer)
    unfolding parse_mechanism payload_str parse_client_first_username failed_as auth_failed
    begin ctx body generated = do
      guard (is_none ctx.auth.scram)
          (auth_failed (codes "saslStart while an authentication exchange is already in progress"))
      mechanism ← parse_mechanism body
      client_first ← payload_str body
      username ←
          ok_or_failed (parse_client_first_username client_first)
            (codes "malformed client-first message")
      credentials ← ok_or_failed (source mechanism username) (codes "Authentication failed.")
      (server_first, server) ←
          failed_as (
            handle_client_first C (with_nonce mechanism generated) client_first username
              credentials)
      ok (mechanism, server_first, server)

    unfoldable pub sasl_start :
        ConnectionInfo → RawDocument → Bytes → Result Error Reply × ConnectionInfo
    unfolding begin sasl_reply
    sasl_start ctx body generated = elim (begin ctx body generated) [
      | err e ↦ (err e, ctx)
      | stuck ↦ (Result.stuck, ctx)
      | ok (mechanism, server_first, server) ↦ (
        map_ok Reply.msg (sasl_reply (pos 1) false server_first),
        with_scram ctx (some (mechanism, server)),
      )
    ]

  -- What `sasl_continue` does with the exchange that it took out of the context.
  unfoldable pub finish :
      ConnectionInfo → RawDocument → Bytes → ScramServer → Result Error Reply × ConnectionInfo
  unfolding conversation_id_of sasl_reply auth_failed display
  finish ctx body client_final server = elim (handle_client_final C server client_final) [
    | err e ↦ (err (auth_failed (display e)), with_scram ctx none)
    | stuck ↦ (Result.stuck, with_scram ctx none)
    | ok (server_final, done_server) ↦ (
      map_ok Reply.msg (sasl_reply (conversation_id_of body) true server_final),
      record ctx { auth = record { scram = none; authenticated = some done_server.username } },
    )
  ]

  unfoldable pub sasl_continue : ConnectionInfo → RawDocument → Result Error Reply × ConnectionInfo
  unfolding payload_str finish auth_failed
  sasl_continue ctx body = elim (payload_str body) [
    | err e ↦ (err e, ctx)
    | stuck ↦ (Result.stuck, ctx)
    | ok client_final ↦ elim ctx.auth.scram [
      | none ↦ (err (auth_failed (codes "saslContinue without saslStart")), ctx)
      | some exchange ↦ finish ctx body client_final exchange.1
    ]
  ]

  -- The handler: the two commands, and all others to `inner`.
  unfoldable pub handle_command : CredentialSource → CommandHandler → Bytes → CommandHandler
  unfolding sasl_start sasl_continue
  handle_command source inner generated ctx request =
      if bytes_eq request.name (codes "saslStart")
      then sasl_start source ctx request.body generated
      else if bytes_eq request.name (codes "saslContinue")
      then sasl_continue ctx request.body
      else inner ctx request
