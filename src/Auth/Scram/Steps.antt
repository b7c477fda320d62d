-- ===== src/Auth/Scram/Steps.antt =====
-- mongo_common/src/auth/scram.rs: each side of an exchange on the message that the other side
-- wrote.
use mongowire.Base.{
  ℕ, ◌≡◌, ◌≤◌, ◌<◌, refl, false, some, none, [], ◌∷◌, ◌++◌, Bytes, AreBytes, length, ok, Lacks,
  contains, contains-to_string, parse_u32-to_string, to_string, strip_prefix, strip_prefix-append,
  arith, bytes_eq, xor_bytes, append_assoc, ltb, ◌==◌, ◌||◌, bytes_eq_refl,
}
use mongowire.Auth.Scram.{
  Crypto, CryptoLaws, ScramMechanism, sha1, sha256, StoredCredentials, max_scram_iterations,
  client_key_label, hmac_bytes, hash_bytes, salted_password_of, parse_attributes, escape_username,
  no_channel_binding_flag, gs2_no_binding_header,
}
use mongowire.Auth.Scram.Attributes.{
  pair, parse_attributes-append, parse_attributes-single, escape_username-Lacks,
}
use mongowire.Auth.Scram.Client.{
  ScramClient, receive_server_first, client_final_message, first_bare, without_proof, parse,
  first_sent, final_sent,
}
use mongowire.Auth.Scram.Server.{
  ScramServer, handle_client_first, handle_client_final, server_first_of, auth_message_of,
  check_proof, expect_client_final,
}
use mongowire.Auth.Scram.Server

parse_bare :
    (user cn : Bytes)
    → Lacks b',' cn
    → parse_attributes (first_bare user cn)
      ≡ ok (pair b'n' (escape_username user) ∷ pair b'r' cn ∷ [])
unfolding first_bare
parse_bare user cn h =
    parse_attributes-append b'n' (escape_username user) (b'r' ∷ b'=' ∷ cn) refl refl
      (escape_username-Lacks user) (parse_attributes-single b'r' cn refl refl h)

parse_final :
    (nonce proof : Bytes)
    → Lacks b',' nonce
    → Lacks b',' proof
    → parse_attributes (without_proof nonce ++ b',' ∷ b'p' ∷ b'=' ∷ proof)
      ≡ ok (pair b'c' no_channel_binding_flag ∷ pair b'r' nonce ∷ pair b'p' proof ∷ [])
unfolding without_proof contains
parse_final nonce proof h k =
    parse_attributes-append b'c' no_channel_binding_flag _ refl refl refl (
      parse_attributes-append b'r' nonce (b'p' ∷ b'=' ∷ proof) refl refl h
        (parse_attributes-single b'p' proof refl refl k))

in_bounds :
    (n : ℕ) → 0 < n → n ≤ max_scram_iterations → (n == 0 || ltb max_scram_iterations n) ≡ false
in_bounds n lo hi = ground arith

module _ (C : Crypto) where
  -- What both sides sign.
  abbrev pub transcript : Bytes → Bytes → Bytes → StoredCredentials → Bytes
  transcript user cn sn creds =
      first_bare user cn
      ++ b',' ∷ (server_first_of C (cn ++ sn) creds ++ b',' ∷ without_proof (cn ++ sn))

  -- The server that has sent its first message.
  abbrev pub challenging : ScramMechanism → Bytes → Bytes → Bytes → StoredCredentials → ScramServer
  challenging m user cn sn creds = record {
    mechanism = m;
    server_nonce = sn;
    client_first_bare = first_bare user cn;
    server_first_message = server_first_of C (cn ++ sn) creds;
    state = expect_client_final;
    username = user;
    client_nonce = cn;
    credentials = some creds;
  }

  -- The client that has sent its first message.
  abbrev pub started : ScramMechanism → Bytes → Bytes → Bytes → ScramClient
  started m user pw cn = record {
    mechanism = m;
    username = user;
    password = pw;
    client_nonce = cn;
    server_first = none;
    salted_password = none;
    auth_message = first_bare user cn;
    state = first_sent;
  }

  -- The client that has read the server's first message.
  abbrev pub challenged :
      ScramMechanism → Bytes → Bytes → Bytes → Bytes → StoredCredentials → ScramClient
  challenged m user pw cn sn creds = record (started m user pw cn) {
    server_first =
        some (record { nonce = cn ++ sn; salt = creds.salt; iterations = creds.iterations });
    salted_password = some (salted_password_of C m pw creds.salt creds.iterations);
    auth_message = first_bare user cn ++ b',' ∷ (server_first_of C (cn ++ sn) creds ++ b',' ∷ []);
  }

  -- The client that has sent its proof.
  abbrev pub proving :
      ScramMechanism → Bytes → Bytes → Bytes → Bytes → StoredCredentials → ScramClient
  proving m user pw cn sn creds = record (challenged m user pw cn sn creds) {
    auth_message = transcript user cn sn creds;
    state = final_sent;
  }

  abbrev pub client_key_of : ScramMechanism → Bytes → StoredCredentials → Bytes
  client_key_of m pw creds =
      hmac_bytes C m (salted_password_of C m pw creds.salt creds.iterations) client_key_label

  abbrev pub proof_of : ScramMechanism → Bytes → Bytes → StoredCredentials → Bytes
  proof_of m pw am creds =
      xor_bytes (client_key_of m pw creds)
        (hmac_bytes C m (hash_bytes C m (client_key_of m pw creds)) am)

module _ (C : Crypto) (L : CryptoLaws C) where
  pub length-hmac :
      (m : ScramMechanism) (k x l y : Bytes)
      → length (hmac_bytes C m k x) ≡ length (hmac_bytes C m l y)
  unfolding hmac_bytes
  length-hmac sha1 k x l y = omega (arith, L.hmac_sha1_sized k x, L.hmac_sha1_sized l y)
  length-hmac sha256 k x l y = omega (arith, L.hmac_sha256_sized k x, L.hmac_sha256_sized l y)

  pub hmac-AreBytes : (m : ScramMechanism) (k x : Bytes) → AreBytes (hmac_bytes C m k x)
  unfolding hmac_bytes
  hmac-AreBytes sha1 k x = L.hmac_sha1_bytes k x
  hmac-AreBytes sha256 k x = L.hmac_sha256_bytes k x

  -- The client reads the nonce, the salt and the count that the server wrote.
  parse-server_first :
      (nonce : Bytes) (creds : StoredCredentials)
      → Lacks b',' nonce
      → 0 < length nonce
      → AreBytes creds.salt
      → 0 < creds.iterations
      → creds.iterations ≤ max_scram_iterations
      → parse C (server_first_of C nonce creds)
        ≡ ok (record { nonce = nonce; salt = creds.salt; iterations = creds.iterations })
  unfolding parse server_first_of bytes_eq
  parse-server_first [] creds h ne hs lo hi = absurd (omega arith)
  parse-server_first (b ∷ nonce) creds h ne hs lo hi =
      let e = parse_attributes-append b'r' (b ∷ nonce) _ refl refl h (
        parse_attributes-append b's' (C.base64_encode creds.salt) _ refl refl
          (L.encode_plain creds.salt)
          (parse_attributes-single b'i' (to_string creds.iterations) refl refl
            (contains-to_string b',' creds.iterations (omega arith)))) in
      rw
        (
          e,
          L.decode_encode creds.salt hs,
          parse_u32-to_string creds.iterations (omega arith),
          in_bounds creds.iterations lo hi,
        )
        refl

  pub handle_client_first_step :
      (m : ScramMechanism) (user cn sn : Bytes) (creds : StoredCredentials)
      → Lacks b',' cn
      → 0 < length cn
      → handle_client_first C
          (Server.with_nonce m sn)
          (gs2_no_binding_header ++ first_bare user cn)
          user
          creds
        ≡ ok (server_first_of C (cn ++ sn) creds, challenging C m user cn sn creds)
  unfolding handle_client_first strip_prefix Server.with_nonce bytes_eq
  handle_client_first_step m user [] sn creds h ne = absurd (omega arith)
  handle_client_first_step m user (b ∷ cn) sn creds h ne = rw (parse_bare user (b ∷ cn) h) refl

  pub receive_server_first_step :
      (m : ScramMechanism) (user pw cn sn : Bytes) (creds : StoredCredentials)
      → Lacks b',' (cn ++ sn)
      → 0 < length (cn ++ sn)
      → AreBytes creds.salt
      → 0 < creds.iterations
      → creds.iterations ≤ max_scram_iterations
      → receive_server_first C (started C m user pw cn) (server_first_of C (cn ++ sn) creds)
        ≡ ok (challenged C m user pw cn sn creds)
  unfolding receive_server_first
  receive_server_first_step m user pw cn sn creds h ne hs lo hi =
      rw (parse-server_first (cn ++ sn) creds h ne hs lo hi, strip_prefix-append cn sn) refl

  glue :
      (xs ys zs : Bytes) → (xs ++ b',' ∷ (ys ++ b',' ∷ [])) ++ zs ≡ xs ++ b',' ∷ (ys ++ b',' ∷ zs)
  glue xs ys zs = simp append_assoc

  pub client_final_message_step :
      (m : ScramMechanism) (user pw cn sn : Bytes) (creds : StoredCredentials)
      → client_final_message C (challenged C m user pw cn sn creds)
        ≡ ok (
          without_proof (cn ++ sn)
              ++ b','
                ∷ b'p'
                ∷ b'='
                ∷ C.base64_encode (proof_of C m pw (transcript C user cn sn creds) creds),
          proving C m user pw cn sn creds,
        )
  unfolding client_final_message
  client_final_message_step m user pw cn sn creds =
      rw (glue (first_bare user cn) (server_first_of C (cn ++ sn) creds) (without_proof (cn ++ sn)))
        refl

  pub handle_client_final_step :
      (m : ScramMechanism) (user cn sn proof : Bytes) (creds : StoredCredentials)
      → Lacks b',' (cn ++ sn)
      → AreBytes proof
      → handle_client_final C
          (challenging C m user cn sn creds)
          (without_proof (cn ++ sn) ++ b',' ∷ b'p' ∷ b'=' ∷ C.base64_encode proof)
        ≡ check_proof C
            (challenging C m user cn sn creds)
            creds
            (transcript C user cn sn creds)
            proof
  unfolding handle_client_final bytes_eq
  handle_client_final_step m user cn sn proof creds h hp =
      rw
        (
          parse_final (cn ++ sn) (C.base64_encode proof) h (L.encode_plain proof),
          bytes_eq_refl (cn ++ sn),
          L.decode_encode proof hp,
        )
        refl
