-- ===== src/Auth/Scram/Exchange.antt =====
-- A whole exchange between the client and the server of mongo_common/src/auth/scram.rs: the four
-- messages, each handed to the other side.
use mongowire.Base.{
  ◌≡◌, ◌≤◌, ◌<◌, refl, true, false, [], ◌∷◌, ◌++◌, Bytes, AreBytes, Bool, length, Result, ok, err,
  ◌>>=◌, guard, ◌>>◌, Lacks, arith, bytes_eq, xor_bytes, if◌then◌else◌, ◌==◌, xor_bytes-AreBytes,
  length-xor_bytes, ==_refl, contains-append, Bool-cases, inl, inr,
}
use mongowire.Auth.{AuthError, client_proof_mismatch, server_signature_mismatch}
use mongowire.Auth.Scram.{
  Crypto, CryptoLaws, ScramMechanism, StoredCredentials, max_scram_iterations, server_key_label,
  hmac_bytes, hash_bytes, salted_password_of, effective_password,
}
use mongowire.Auth.Scram.Attributes.{parse_attributes-single}
use mongowire.Auth.Scram.Steps.{
  transcript, challenging, proving, client_key_of, proof_of, length-hmac, hmac-AreBytes,
  handle_client_first_step, receive_server_first_step, client_final_message_step,
  handle_client_final_step,
}
use mongowire.Auth.Scram.Client.{
  ScramClient, client_first_message, receive_server_first, client_final_message,
  receive_server_final,
}
use mongowire.Auth.Scram.Client
use mongowire.Auth.Scram.Server.{ScramServer, handle_client_first, handle_client_final, check_proof}
use mongowire.Auth.Scram.Server

guard-ok {ℓ} :
    {A : Type ℓ} (b : Bool) (e : AuthError) (a : A)
    → (guard b e >> ok a) ≡ (if b then ok a else err e)
guard-ok true e a = refl
guard-ok false e a = refl

bind-if {ℓ κ} :
    {A : Type ℓ} {B : Type κ} (b : Bool) (e : AuthError) (a : A) (f : A → B)
    → ((if b then ok a else err e) >>= λ x. ok (f x)) ≡ (if b then ok (f a) else err e)
bind-if true e a f = refl
bind-if false e a f = refl

ne-append : (xs ys : Bytes) → 0 < length xs → 0 < length (xs ++ ys)
ne-append [] ys h = absurd (omega arith)
ne-append (x ∷ xs) ys h = omega arith

module _ (C : Crypto) where
  -- The four messages in turn; `creds` is what the server looked up for the user.
  unfoldable pub exchange :
      ScramClient
      → ScramServer
      → Bytes
      → StoredCredentials
      → Result AuthError (ScramClient × ScramServer)
  unfolding client_first_message
  exchange client server user creds = do
    (client_first, client1) ← client_first_message client
    (server_first, server1) ← handle_client_first C server client_first user creds
    client2 ← receive_server_first C client1 server_first
    (client_final, client3) ← client_final_message C client2
    (server_final, server2) ← handle_client_final C server1 client_final
    client4 ← receive_server_final C client3 server_final
    ok (client4, server2)

  -- The client's signature, hashed back to a stored key.
  abbrev pub recovered : ScramMechanism → Bytes → Bytes → StoredCredentials → Bytes
  recovered m pw am creds =
      hash_bytes C m (xor_bytes (proof_of C m pw am creds) (hmac_bytes C m creds.stored_key am))

  abbrev pub expected_signature : ScramMechanism → Bytes → Bytes → StoredCredentials → Bytes
  expected_signature m pw am creds =
      hmac_bytes C m
        (hmac_bytes C m (salted_password_of C m pw creds.salt creds.iterations) server_key_label) am

  -- What an exchange comes to: the server tests the client's key against the stored one, then the
  -- client tests the server's signature against the one that the password gives.
  unfoldable pub outcome :
      ScramMechanism
      → Bytes
      → Bytes
      → Bytes
      → Bytes
      → StoredCredentials
      → Result AuthError (ScramClient × ScramServer)
  outcome m user pw cn sn creds =
      let am = transcript C user cn sn creds in
      if bytes_eq (recovered m pw am creds) creds.stored_key
      then if bytes_eq (expected_signature m pw am creds) (hmac_bytes C m creds.server_key am)
        then ok (
          record (proving C m user pw cn sn creds) { state = Client.done },
          record (challenging C m user cn sn creds) { state = Server.done },
        )
        else err server_signature_mismatch
      else err client_proof_mismatch

  module _ (L : CryptoLaws C) where
    proof-length :
        (m : ScramMechanism) (pw am : Bytes) (creds : StoredCredentials)
        → (length (proof_of C m pw am creds) == length (hmac_bytes C m creds.stored_key am)) ≡ true
    proof-length m pw am creds =
        let key = client_key_of C m pw creds in
        let signature = hmac_bytes C m (hash_bytes C m key) am in
        rw
          (
            length-xor_bytes key signature (length-hmac C L m _ _ _ _),
            length-hmac C L m (hash_bytes C m key) am creds.stored_key am,
          )
          (==_refl _)

    check_proof_step :
        (m : ScramMechanism) (user pw cn sn am : Bytes) (creds : StoredCredentials)
        → check_proof C (challenging C m user cn sn creds) creds am (proof_of C m pw am creds) ≡ (
            if bytes_eq (recovered m pw am creds) creds.stored_key
            then ok (
              b'v' ∷ b'=' ∷ C.base64_encode (hmac_bytes C m creds.server_key am),
              record (challenging C m user cn sn creds) { state = Server.done },
            )
            else err client_proof_mismatch)
    unfolding check_proof
    check_proof_step m user pw cn sn am creds =
        rw (proof-length m pw am creds)
          (guard-ok (bytes_eq (recovered m pw am creds) creds.stored_key) _ _)

    receive_server_final_step :
        (m : ScramMechanism) (user pw cn sn : Bytes) (creds : StoredCredentials)
        → let am = transcript C user cn sn creds in
          receive_server_final C
            (proving C m user pw cn sn creds)
            (b'v' ∷ b'=' ∷ C.base64_encode (hmac_bytes C m creds.server_key am))
          ≡ (if bytes_eq (expected_signature m pw am creds) (hmac_bytes C m creds.server_key am)
              then ok (record (proving C m user pw cn sn creds) { state = Client.done })
              else err server_signature_mismatch)
    unfolding receive_server_final bytes_eq
    receive_server_final_step m user pw cn sn creds =
        let am = transcript C user cn sn creds in
        let signature = hmac_bytes C m creds.server_key am in
        rw
          (
            parse_attributes-single b'v' (C.base64_encode signature) refl refl
                (L.encode_plain signature),
            L.decode_encode signature (hmac-AreBytes C L m creds.server_key am),
            length-hmac C L m
                (hmac_bytes C m (salted_password_of C m pw creds.salt creds.iterations)
                  server_key_label)
                am creds.server_key am,
            ==_refl (length signature),
          )
          refl

    -- The exchange of a fresh client and server comes to the outcome.
    pub exchange-outcome :
        (m : ScramMechanism) (user password cn sn : Bytes) (creds : StoredCredentials)
        → Lacks b',' cn
        → Lacks b',' sn
        → 0 < length cn
        → AreBytes creds.salt
        → 0 < creds.iterations
        → creds.iterations ≤ max_scram_iterations
        → exchange (Client.new C m user password cn) (Server.with_nonce m sn) user creds
          ≡ outcome m user (effective_password C m user password) cn sn creds
    unfolding exchange outcome Client.new
    exchange-outcome m user password cn sn creds hc hs ne salt lo hi =
        let pw = effective_password C m user password in
        let am = transcript C user cn sn creds in
        rw
          (
            handle_client_first_step C L m user cn sn creds hc ne,
            receive_server_first_step C L m user pw cn sn creds (contains-append b',' cn sn hc hs)
                (ne-append cn sn ne) salt lo hi,
            client_final_message_step C L m user pw cn sn creds,
            handle_client_final_step C L m user cn sn (proof_of C m pw am creds) creds
                (contains-append b',' cn sn hc hs)
                (xor_bytes-AreBytes _ _ (hmac-AreBytes C L m _ _) (hmac-AreBytes C L m _ _)),
            check_proof_step m user pw cn sn am creds,
          )
          (elim (Bool-cases (bytes_eq (recovered m pw am creds) creds.stored_key)) [
            | inr f ↦ rw f refl
            | inl t ↦
                rw (t, receive_server_final_step m user pw cn sn creds)
                  (bind-if
                    (bytes_eq (expected_signature m pw am creds)
                      (hmac_bytes C m creds.server_key am))
                    _ _ _)
          ])
