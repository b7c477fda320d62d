-- ===== src/Auth/Scram/Keys.antt =====
-- The exchange of Auth/Scram/Exchange.antt in terms of the two keys that the server stores.
use mongowire.Base.{
  ◌≡◌, ◌≢◌, ◌⊎◌, ◌≤◌, ◌<◌, refl, true, false, Bytes, AreBytes, length, Result, ok, err, Lacks,
  bytes_eq, bytes_eq_refl, bytes_eq→eq, xor_bytes-twice, Bool-cases, inl, inr,
}
use mongowire.Auth.{AuthError, client_proof_mismatch, server_signature_mismatch}
use mongowire.Auth.Scram.{
  Crypto, CryptoLaws, ScramMechanism, StoredCredentials, max_scram_iterations, effective_password,
  server_key_label, hmac_bytes, hash_bytes, salted_password_of,
}
use mongowire.Auth.Scram.Steps.{
  transcript, challenging, proving, client_key_of, length-hmac, hmac-AreBytes,
}
use mongowire.Auth.Scram.Exchange.{
  exchange, outcome, recovered, expected_signature, exchange-outcome,
}
use mongowire.Auth.Scram.Client.{ScramClient}
use mongowire.Auth.Scram.Client
use mongowire.Auth.Scram.Server.{ScramServer}
use mongowire.Auth.Scram.Server

differ : (xs ys : Bytes) → bytes_eq xs ys ≡ false → xs ≢ ys
differ xs ys f = λ e. cc (f, bytes_eq_refl ys, e)

module _ (C : Crypto) where
  -- The stored key and the server key that a password gives with the salt and count of credentials.
  abbrev pub stored_key_of : ScramMechanism → Bytes → StoredCredentials → Bytes
  stored_key_of m pw creds = hash_bytes C m (client_key_of C m pw creds)

  abbrev pub server_key_of : ScramMechanism → Bytes → StoredCredentials → Bytes
  server_key_of m pw creds =
      hmac_bytes C m (salted_password_of C m pw creds.salt creds.iterations) server_key_label

  server_key-expected_signature :
      (m : ScramMechanism) (pw am : Bytes) (creds : StoredCredentials)
      → server_key_of m pw creds ≡ creds.server_key
      → bytes_eq (expected_signature C m pw am creds) (hmac_bytes C m creds.server_key am) ≡ true
  server_key-expected_signature m pw am creds e = rw e (bytes_eq_refl _)

  -- What the two sides decide, with what it tells of the keys.
  pub Verdict :
      ScramMechanism
      → Bytes
      → Bytes
      → Bytes
      → Bytes
      → StoredCredentials
      → Result AuthError (ScramClient × ScramServer)
      → Type 0
  Verdict m user pw cn sn creds result =
      let am = transcript C user cn sn creds in
      ((result
          ≡ ok (
            record (proving C m user pw cn sn creds) { state = Client.done },
            record (challenging C m user cn sn creds) { state = Server.done },
          ))
        × (recovered C m pw am creds ≡ creds.stored_key)
        × (hmac_bytes C m (server_key_of m pw creds) am ≡ hmac_bytes C m creds.server_key am))
      ⊎ ((result ≡ err client_proof_mismatch)
          × (recovered C m pw am creds ≢ creds.stored_key)
          × (stored_key_of m pw creds ≢ creds.stored_key))
      ⊎ ((result ≡ err server_signature_mismatch)
          × (recovered C m pw am creds ≡ creds.stored_key)
          × (hmac_bytes C m (server_key_of m pw creds) am ≢ hmac_bytes C m creds.server_key am)
          × (server_key_of m pw creds ≢ creds.server_key))

  module _ (L : CryptoLaws C) where
    -- With the password's stored key the server recovers that key.
    recovered-stored_key :
        (m : ScramMechanism) (pw am : Bytes) (creds : StoredCredentials)
        → stored_key_of m pw creds ≡ creds.stored_key
        → bytes_eq (recovered C m pw am creds) creds.stored_key ≡ true
    recovered-stored_key m pw am creds e = rw (← e) (
        rw
          (xor_bytes-twice (client_key_of C m pw creds)
            (hmac_bytes C m (stored_key_of m pw creds) am) (hmac-AreBytes C L m _ _)
            (hmac-AreBytes C L m _ _) (length-hmac C L m _ _ _ _))
          (bytes_eq_refl _))

    outcome-Verdict :
        (m : ScramMechanism) (user pw cn sn : Bytes) (creds : StoredCredentials)
        → Verdict m user pw cn sn creds (outcome C m user pw cn sn creds)
    unfolding Verdict outcome
    outcome-Verdict m user pw cn sn creds =
        let am = transcript C user cn sn creds in
        let signature = hmac_bytes C m creds.server_key am in
        elim (Bool-cases (bytes_eq (recovered C m pw am creds) creds.stored_key)) [
          | inr f ↦
              rw f (
                inr (inl (refl, differ _ _ f, (λ e. cc (f, recovered-stored_key m pw am creds e)))))
          | inl t ↦
              let same = bytes_eq→eq _ _ t in
              elim (Bool-cases (bytes_eq (expected_signature C m pw am creds) signature)) [
                | inl u ↦ rw (t, u) (inl (refl, same, bytes_eq→eq _ _ u))
                | inr g ↦
                    rw (t, g)
                      (inr (
                        inr (
                          refl,
                          same,
                          differ _ _ g,
                          (λ e. cc (g, server_key-expected_signature m pw am creds e)),
                        )))
              ]
        ]

    -- A client and a server start fresh with nonces free of commas, the client's not empty, and
    -- credentials with a salt of bytes and a count from 1 to 1,000,000, and exchange their four
    -- messages. Then one of three things happens. Both are done; the key that the server recovers from
    -- the proof hashes to the stored key, and the signatures under the password's and the stored
    -- server key agree. Or the server refuses the proof; the recovered key does not hash to the stored
    -- key, and the password's stored key is not the stored one. Or the client refuses the signature;
    -- the proof passed, the signatures differ, and the password's server key is not the stored one. So
    -- it fails only where a key of the password differs from the stored one.
    pub exchange-Verdict :
        (m : ScramMechanism) (user password cn sn : Bytes) (creds : StoredCredentials)
        → Lacks b',' cn
        → Lacks b',' sn
        → 0 < length cn
        → AreBytes creds.salt
        → 0 < creds.iterations
        → creds.iterations ≤ max_scram_iterations
        → Verdict m user
            (effective_password C m user password)
            cn
            sn
            creds
            (exchange C (Client.new C m user password cn) (Server.with_nonce m sn) user creds)
    exchange-Verdict m user password cn sn creds hc hs ne salt lo hi =
        rw (exchange-outcome C L m user password cn sn creds hc hs ne salt lo hi)
          (outcome-Verdict m user (effective_password C m user password) cn sn creds)
