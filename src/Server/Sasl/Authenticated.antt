-- ===== src/Server/Sasl/Authenticated.antt =====
-- What it takes to be authenticated on a connection of mongowire/src/api/auth.rs.
use mongowire.Base.{
  ◌≡◌, not, Option, none, some, Bytes, ok, guard, bind_ok, codes, bytes_eq, Result-cases,
  Option-cases, Bool-cases, inl, inr, sym, ap, ◌∙◌, subst, map_err-eq-ok,
}
use mongowire.Bson.{RawDocument}
use mongowire.Auth.Scram.{Crypto, ScramMechanism, StoredCredentials, parse_attributes}
use mongowire.Auth.Scram.Client.{is_none}
use mongowire.Auth.Scram.Server.{
  ScramServer, handle_client_first, handle_client_final, with_nonce, strip_header, any_mandatory,
  expect_attribute, is_empty, is_expect_client_first,
}
use mongowire.Auth.Scram.Verified.{IsAccepted, handle_client_final_iff}
use mongowire.Server.{ConnectionInfo, AuthState, Command, CommandHandler}
use mongowire.Server
use mongowire.Server.Sasl.{
  CredentialSource, parse_mechanism, payload_str, parse_client_first_username,
}
use mongowire.Server.Sasl.Bridge.{
  begin, sasl_start, sasl_continue, finish, handle_command, failed_as, ok_or_failed,
}

module _ (C : Crypto) (source : CredentialSource) where
  -- The exchange in flight is for credentials that the source gave for its user.
  pub record IsHeld (m : ScramMechanism) (s : ScramServer) : Type 0 where
    pub creds : StoredCredentials
    pub kept : s.credentials ≡ some creds
    pub known : source m s.username ≡ some creds
    pub same : s.mechanism ≡ m

  -- A client-final message has been accepted for credentials that the source gave for the user.
  pub record IsProved (user : Bytes) : Type 0 where
    pub mechanism : ScramMechanism
    pub server : ScramServer
    pub creds : StoredCredentials
    pub text : Bytes
    pub same : server.mechanism ≡ mechanism
    pub known : source mechanism user ≡ some creds
    pub accepted : IsAccepted C server creds text

  pub record IsTrusted (auth : AuthState) : Type 0 where
    pub held : (m : ScramMechanism) (s : ScramServer) → auth.scram ≡ some (m, s) → IsHeld m s
    pub proved : (user : Bytes) → auth.authenticated ≡ some user → IsProved user

  handle_client_first-kept :
      (s t : ScramServer) (text user message : Bytes) (creds : StoredCredentials)
      → handle_client_first C s text user creds ≡ ok (message, t)
      → (t.credentials ≡ some creds) × (t.username ≡ user) × (t.mechanism ≡ s.mechanism)
  unfolding handle_client_first
  handle_client_first-kept s t text user message creds h =
      bind_ok (guard (is_expect_client_first s.state) _) _ h λ _ _ h.
        bind_ok (strip_header text) _ h λ bare _ h. bind_ok (parse_attributes bare) _ h λ attrs _ h.
          bind_ok (guard (not (any_mandatory attrs)) _) _ h λ _ _ h.
            bind_ok (expect_attribute b'n' _ attrs) _ h λ p _ h.
              bind_ok (expect_attribute b'r' _ p.1) _ h
                λ q _ h. bind_ok (guard (not (is_empty q.0)) _) _ h λ _ _ h. ((cc), (cc), (cc))

  some_failed :
      {A : Type 0} (o : Option A) (message : Bytes) {a : A}
      → ok_or_failed C o message ≡ ok a
      → o ≡ some a
  some_failed none message h = cc
  some_failed (some a) message h = cc

  begin-IsHeld :
      (ctx : ConnectionInfo) (body : RawDocument) (generated message : Bytes) (m : ScramMechanism)
      (s : ScramServer)
      → begin C source ctx body generated ≡ ok (m, message, s)
      → IsHeld m s
  unfolding begin failed_as with_nonce
  begin-IsHeld ctx body generated message m s h =
      bind_ok (guard (is_none ctx.auth.scram) _) _ h λ _ _ h.
        bind_ok (parse_mechanism body) _ h λ n _ h. bind_ok (payload_str body) _ h λ text _ h.
          bind_ok (ok_or_failed C (parse_client_first_username text) _) _ h λ user _ h.
            bind_ok (ok_or_failed C (source n user) _) _ h λ creds ce h.
              bind_ok (failed_as C (handle_client_first C (with_nonce n generated) text user creds))
                _ h
                λ p pe h.
                  let (kept, named, same) =
                    handle_client_first-kept (with_nonce n generated) p.1 text user p.0 creds
                      (map_err-eq-ok _ _ pe) in
                  subst {A = ScramMechanism × ScramServer} (λ t. IsHeld t.0 t.1) {x = (n, p.1)}
                    {y = (m, s)} (cc)
                    (record {
                      creds = creds;
                      kept = kept;
                      known = ap (λ u. source n u) named ∙ some_failed (source n user) _ ce;
                      same = same;
                    })

  sasl_start-IsTrusted :
      (ctx : ConnectionInfo) (body : RawDocument) (generated : Bytes)
      → IsTrusted ctx.auth
      → IsTrusted (sasl_start C source ctx body generated).1.auth
  unfolding sasl_start
  sasl_start-IsTrusted ctx body generated i =
      elim (Result-cases (begin C source ctx body generated)) [
        | inl (p, e) ↦
            rw (e, sasl_start)
              (record {
                held = λ m s q.
                    subst {A = ScramMechanism × ScramServer} (λ t. IsHeld t.0 t.1) {x = (p.0, p.2)}
                      {y = (m, s)} (cc) (begin-IsHeld ctx body generated p.1 p.0 p.2 e);
                proved = i.proved;
              })
        | inr (inl (x, e)) ↦ rw (e, sasl_start) i
        | inr (inr e) ↦ rw (e, sasl_start) i
      ]

  finish-IsTrusted :
      (ctx : ConnectionInfo) (body : RawDocument) (text : Bytes) (m : ScramMechanism)
      (s : ScramServer)
      → IsTrusted ctx.auth
      → IsHeld m s
      → IsTrusted (finish C ctx body text s).1.auth
  unfolding finish
  finish-IsTrusted ctx body text m s i h = elim (Result-cases (handle_client_final C s text)) [
    | inl (p, e) ↦
        let (creds, _, ce, accepted, re) = (handle_client_final_iff C s text p).0 e in
        rw (e, finish)
          (record {
            held = λ m s q. absurd (cc q);
            proved = λ user q. record {
              mechanism = m;
              server = s;
              creds = creds;
              text = text;
              same = h.same;
              known = cc (q, ap (λ t. t.1.username) re, h.known, h.kept, ce);
              accepted = accepted;
            };
          })
    | inr (inl (x, e)) ↦
        rw (e, finish) (record { held = λ m s q. absurd (cc q); proved = i.proved })
    | inr (inr e) ↦ rw (e, finish) (record { held = λ m s q. absurd (cc q); proved = i.proved })
  ]

  sasl_continue-IsTrusted :
      (ctx : ConnectionInfo) (body : RawDocument)
      → IsTrusted ctx.auth
      → IsTrusted (sasl_continue C ctx body).1.auth
  unfolding sasl_continue
  sasl_continue-IsTrusted ctx body i = elim (Result-cases (payload_str body)) [
    | inl (text, e) ↦ elim (Option-cases ctx.auth.scram) [
      | inl f ↦ rw (e, f, sasl_continue) i
      | inr (p, f) ↦
          rw (e, f, sasl_continue) (finish-IsTrusted ctx body text p.0 p.1 i (i.held p.0 p.1 f))
    ]
    | inr (inl (x, e)) ↦ rw (e, sasl_continue) i
    | inr (inr e) ↦ rw (e, sasl_continue) i
  ]

  -- The contexts that commands lead to from a new connection. The inner handler, the nonces and
  -- the commands are arbitrary.
  pub data Reach (inner : CommandHandler) : ConnectionInfo → Type 0 where
    fresh : Reach inner Server.new
    after :
        {ctx : ConnectionInfo} (generated : Bytes) (request : Command)
        → Reach inner ctx
        → Reach inner (handle_command C source inner generated ctx request).1

  handle_command-IsTrusted :
      (inner : CommandHandler) (ctx : ConnectionInfo) (generated : Bytes) (request : Command)
      → ((d : ConnectionInfo) (r : Command) → (inner d r).1.auth ≡ d.auth)
      → IsTrusted ctx.auth
      → IsTrusted (handle_command C source inner generated ctx request).1.auth
  unfolding handle_command
  handle_command-IsTrusted inner ctx generated request keeps i =
      elim (Bool-cases (bytes_eq request.name (codes "saslStart"))) [
        | inl t ↦ rw t (sasl_start-IsTrusted ctx request.body generated i)
        | inr f ↦ elim (Bool-cases (bytes_eq request.name (codes "saslContinue"))) [
          | inl t ↦ rw (f, t) (sasl_continue-IsTrusted ctx request.body i)
          | inr g ↦ rw (f, g) (subst IsTrusted (sym (keeps ctx request)) i)
        ]
      ]

  -- On a connection whose inner handler leaves the authentication state alone, whatever commands
  -- arrive, an identity is authenticated only if the credential source has credentials for it and
  -- a SCRAM server under its mechanism has accepted a client-final message for these credentials;
  -- an exchange in flight is always for credentials that the source gave for its user.
  pub Reach-IsTrusted :
      (inner : CommandHandler) {ctx : ConnectionInfo}
      → ((d : ConnectionInfo) (r : Command) → (inner d r).1.auth ≡ d.auth)
      → Reach inner ctx
      → IsTrusted ctx.auth
  unfolding Server.new
  Reach-IsTrusted inner keeps fresh = record {
    held = λ m s q. absurd (cc q);
    proved = λ user q. absurd (cc q);
  }
  Reach-IsTrusted inner keeps (after {ctx = d} generated request r) =
      handle_command-IsTrusted inner d generated request keeps (Reach-IsTrusted inner keeps r)
