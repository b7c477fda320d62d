-- ===== src/Auth/Scram/Verified.antt =====
-- mongo_common/src/auth/scram.rs: what either side has checked when it reports success.
use mongowire.Base.{
  ◌≡◌, ◌==◌, refl, true, some, none, ◌∷◌, ◌++◌, List, Bytes, length, ok, guard, bytes_eq, xor_bytes,
  ==→eq, bytes_eq→eq, bind_ok, guard-eq-ok, Option, ap, sym, ◌∙◌, ◌↔◌, bytes_eq_refl, ==_refl,
}
use mongowire.Auth.Scram.{
  Crypto, StoredCredentials, hmac_bytes, hash_bytes, parse_attributes, Attribute,
  no_channel_binding_flag,
}
use mongowire.Auth.Scram.Client.{ok_or, ok_or-some}
use mongowire.Auth.Scram.Server.{
  ScramServer, handle_client_final, check_proof, auth_message_of, expect_client_first,
  expect_client_final, is_expect_client_final, ServerState, FinalSlots, take_final_attributes,
  is_some_of,
}
use mongowire.Auth.Scram.Server

is_some_of→some : (o : Option Bytes) (value : Bytes) → is_some_of o value ≡ true → o ≡ some value
is_some_of→some none value h = cc
is_some_of→some (some bytes) value h = ap some (bytes_eq→eq bytes value h)

expecting : (st : ServerState) → is_expect_client_final st ≡ true → st ≡ expect_client_final
expecting expect_client_first h = cc
expecting expect_client_final h = refl
expecting Server.done h = cc

module _ (C : Crypto) where
  abbrev pub signed_text : ScramServer → Bytes
  signed_text s = auth_message_of s (s.client_nonce ++ s.server_nonce)

  abbrev pub client_signature : ScramServer → StoredCredentials → Bytes
  client_signature s creds = hmac_bytes C s.mechanism creds.stored_key (signed_text s)

  -- A client-final message that the server has to accept: it names no channel binding and the
  -- nonces of both sides, and its proof, unmasked by the signature of the transcript under the
  -- stored key, hashes to the stored key.
  pub record IsAccepted (s : ScramServer) (creds : StoredCredentials) (text : Bytes) : Type 0 where
    pub attrs : List Attribute
    pub slots : FinalSlots
    pub proof_b64 : Bytes
    pub proof : Bytes
    pub parsed : parse_attributes text ≡ ok attrs
    pub taken :
        take_final_attributes (record { channel_binding = none; nonce = none; proof = none }) attrs
        ≡ ok slots
    pub unbound : slots.channel_binding ≡ some no_channel_binding_flag
    pub fresh : slots.nonce ≡ some (s.client_nonce ++ s.server_nonce)
    pub proved : slots.proof ≡ some proof_b64
    pub decoded : C.base64_decode proof_b64 ≡ some proof
    pub sized : length proof ≡ length (client_signature s creds)
    pub hashed :
        hash_bytes C s.mechanism (xor_bytes proof (client_signature s creds)) ≡ creds.stored_key

  -- The server's last message and the state it is left in.
  abbrev pub server_final : ScramServer → StoredCredentials → Bytes × ScramServer
  server_final s creds = (
    b'v' ∷ b'=' ∷ C.base64_encode (hmac_bytes C s.mechanism creds.server_key (signed_text s)),
    record s { state = Server.done },
  )

  check_proof-ok :
      (s : ScramServer) (creds : StoredCredentials) (proof : Bytes) {r : Bytes × ScramServer}
      → check_proof C s creds (signed_text s) proof ≡ ok r
      → (length proof ≡ length (client_signature s creds))
        × (hash_bytes C s.mechanism (xor_bytes proof (client_signature s creds)) ≡ creds.stored_key)
        × (r ≡ server_final s creds)
  unfolding check_proof
  check_proof-ok s creds proof h =
      bind_ok (guard (length proof == length (client_signature s creds)) _) _ h λ _ e h.
        bind_ok
          (guard
            (bytes_eq (hash_bytes C s.mechanism (xor_bytes proof (client_signature s creds)))
              creds.stored_key)
            _)
          _ h λ _ f h. (==→eq _ _ (guard-eq-ok _ _ e), bytes_eq→eq _ _ (guard-eq-ok _ _ f), cc)

  handle_client_final-IsAccepted :
      (s : ScramServer) (text : Bytes) {r : Bytes × ScramServer}
      → handle_client_final C s text ≡ ok r
      → (creds : StoredCredentials) × (s.state ≡ expect_client_final)
        × (s.credentials ≡ some creds)
        × IsAccepted s creds text
        × (r ≡ server_final s creds)
  unfolding handle_client_final
  handle_client_final-IsAccepted s text h =
      bind_ok (guard (is_expect_client_final s.state) _) _ h λ _ st h.
        bind_ok (ok_or s.credentials _) _ h λ creds ce h.
          bind_ok (parse_attributes text) _ h λ attrs pe h.
            bind_ok (take_final_attributes _ attrs) _ h λ slots te h.
              bind_ok (guard (is_some_of slots.channel_binding _) _) _ h λ _ be h.
                bind_ok (guard (is_some_of slots.nonce _) _) _ h λ _ ne h.
                  bind_ok (ok_or slots.proof _) _ h λ b64 qe h.
                    bind_ok (ok_or (C.base64_decode b64) _) _ h λ proof de h.
                      let (sized, hashed, re) = check_proof-ok s creds proof h in
                      (
                        creds,
                        expecting s.state (guard-eq-ok _ _ st),
                        ok_or-some s.credentials _ ce,
                        record {
                          attrs = attrs;
                          slots = slots;
                          proof_b64 = b64;
                          proof = proof;
                          parsed = pe;
                          taken = te;
                          unbound = is_some_of→some slots.channel_binding _ (guard-eq-ok _ _ be);
                          fresh = is_some_of→some slots.nonce _ (guard-eq-ok _ _ ne);
                          proved = ok_or-some slots.proof _ qe;
                          decoded = ok_or-some (C.base64_decode b64) _ de;
                          sized = sized;
                          hashed = hashed;
                        },
                        re,
                      )

  IsAccepted-handle_client_final :
      (s : ScramServer) (text : Bytes) (creds : StoredCredentials)
      → s.state ≡ expect_client_final
      → s.credentials ≡ some creds
      → IsAccepted s creds text
      → handle_client_final C s text ≡ ok (server_final s creds)
  unfolding handle_client_final check_proof bytes_eq
  IsAccepted-handle_client_final s text creds st ce a =
      rw
        (
          st,
          ce,
          a.parsed,
          a.taken,
          a.unbound,
          a.fresh,
          bytes_eq_refl (s.client_nonce ++ s.server_nonce),
          a.proved,
          a.decoded,
          a.sized,
          ==_refl (length (client_signature s creds)),
          a.hashed,
          bytes_eq_refl creds.stored_key,
        )
        refl

  -- The server accepts a client-final message exactly if it is waiting for one, holds credentials,
  -- and the message is acceptable for them; it then answers with its signature of the transcript
  -- under the server key and changes nothing but its state, which is done.
  pub handle_client_final_iff :
      (s : ScramServer) (text : Bytes) (r : Bytes × ScramServer)
      → (handle_client_final C s text ≡ ok r) ↔ (
          (creds : StoredCredentials) × (s.state ≡ expect_client_final)
          × (s.credentials ≡ some creds)
          × IsAccepted s creds text
          × (r ≡ server_final s creds))
  handle_client_final_iff s text r = (
    handle_client_final-IsAccepted s text,
    λ p.
        let (creds, st, ce, a, e) = p in
        IsAccepted-handle_client_final s text creds st ce a ∙ ap ok (sym e),
  )
