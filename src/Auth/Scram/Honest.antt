-- ===== src/Auth/Scram/Honest.antt =====
-- The exchange of Auth/Scram/Exchange.antt with credentials derived from the client's password.
use mongowire.Base.{
  ℕ, ◌≡◌, ◌≤◌, ◌<◌, true, refl, Bytes, AreBytes, length, ok, Lacks, bytes_eq, bytes_eq_refl,
  xor_bytes-twice, ◌∙◌,
}
use mongowire.Auth.Scram.{
  Crypto, CryptoLaws, ScramMechanism, max_scram_iterations, derive, effective_password,
}
use mongowire.Auth.Scram.Steps.{
  transcript, challenging, proving, client_key_of, length-hmac, hmac-AreBytes,
}
use mongowire.Auth.Scram.Exchange.{
  exchange, outcome, recovered, expected_signature, exchange-outcome,
}
use mongowire.Auth.Scram.Client
use mongowire.Auth.Scram.Server

module _ (C : Crypto) (L : CryptoLaws C) where
  recovered-derive :
      (m : ScramMechanism) (pw am salt : Bytes) (iterations : ℕ)
      → let creds = derive C m pw salt iterations in
        bytes_eq (recovered C m pw am creds) creds.stored_key ≡ true
  unfolding derive
  recovered-derive m pw am salt iterations =
      rw
        (xor_bytes-twice (client_key_of C m pw (derive C m pw salt iterations)) _
          (hmac-AreBytes C L m _ _) (hmac-AreBytes C L m _ _) (length-hmac C L m _ _ _ _))
        (bytes_eq_refl _)

  -- With nonces free of commas, the client's not empty, a salt of bytes and a count from 1 to
  -- 1,000,000, and credentials derived from the client's own password with that salt and count, the
  -- exchange completes: both sides are done, the server for the user who was looked up, and both
  -- have signed one transcript.
  pub exchange-derive :
      (m : ScramMechanism) (user password cn sn salt : Bytes) (iterations : ℕ)
      → Lacks b',' cn
      → Lacks b',' sn
      → 0 < length cn
      → AreBytes salt
      → 0 < iterations
      → iterations ≤ max_scram_iterations
      → let pw = effective_password C m user password in
        let creds = derive C m pw salt iterations in
        exchange C (Client.new C m user password cn) (Server.with_nonce m sn) user creds
        ≡ ok (
          record (proving C m user pw cn sn creds) { state = Client.done },
          record (challenging C m user cn sn creds) { state = Server.done },
        )
  unfolding derive outcome
  exchange-derive m user password cn sn salt iterations hc hs ne hb lo hi =
      let pw = effective_password C m user password in
      let creds = derive C m pw salt iterations in
      let am = transcript C user cn sn creds in
      exchange-outcome C L m user password cn sn creds hc hs ne hb lo hi
      ∙ rw
          (
            recovered-derive m pw am salt iterations,
            bytes_eq_refl (expected_signature C m pw am creds),
          )
          refl
