-- ===== src/Auth/Scram/Client.antt =====
-- mongo_common/src/auth/scram.rs: the client's side of the exchange. A method that takes `&mut self`
-- returns the client that it leaves; no error path of the source assigns a field, so an error
-- carries no client.
use mongowire.Base.{
  ◌≡◌, ℕ, Bool, true, false, not, Option, none, some, List, [], ◌∷◌, ◌++◌, Bytes, ltb, ◌==◌, ◌&&◌,
  ◌||◌, if◌then◌else◌, Result, ok, err, ◌>>=◌, ◌>>◌, guard, bytes_eq, strip_prefix, xor_bytes,
  length, parse_u32,
}
use mongowire.Auth.{AuthError, invalid_message, failure, nonce_mismatch, server_signature_mismatch}
use mongowire.Auth.Scram.{
  Crypto, ScramMechanism, Attribute, has_key, parse_attributes, escape_username,
  max_scram_iterations, gs2_no_binding_header, no_channel_binding_flag, client_key_label,
  server_key_label, salted_password_of, hmac_bytes, hash_bytes, effective_password,
}

pub record ServerFirst : Type 0 where
  pub nonce : Bytes
  pub salt : Bytes
  pub iterations : ℕ

-- The local variables of `ServerFirst::parse`.
pub record Slots : Type 0 where
  pub nonce : Option Bytes
  pub salt : Option Bytes
  pub iterations : Option ℕ

abbrev pub ok_or {ℓ} : {A : Type ℓ} → Option A → AuthError → Result AuthError A
ok_or none e = err e
ok_or (some a) e = ok a

abbrev pub is_none {ℓ} : {A : Type ℓ} → Option A → Bool
is_none none = true
is_none (some a) = false

pub ok_or-some {ℓ} :
    {A : Type ℓ} (o : Option A) (e : AuthError) {a : A} → ok_or o e ≡ ok a → o ≡ some a
ok_or-some none e h = cc
ok_or-some (some a) e h = cc

-- `Some(value)` unless it is empty.
abbrev pub non_empty : Option Bytes → Option Bytes
non_empty none = none
non_empty (some []) = none
non_empty (some (b ∷ bs)) = some (b ∷ bs)

pub data ClientState : Type 0 where
  init first_sent final_sent done : ClientState

abbrev pub is_init : ClientState → Bool
is_init init = true
is_init _ = false

abbrev pub is_first_sent : ClientState → Bool
is_first_sent first_sent = true
is_first_sent _ = false

abbrev pub is_final_sent : ClientState → Bool
is_final_sent final_sent = true
is_final_sent _ = false

pub record ScramClient : Type 0 where
  pub mechanism : ScramMechanism
  pub username : Bytes
  pub password : Bytes
  pub client_nonce : Bytes
  pub server_first : Option ServerFirst
  pub salted_password : Option Bytes
  pub auth_message : Bytes
  pub state : ClientState

unfoldable pub with_nonce : ScramMechanism → Bytes → Bytes → Bytes → ScramClient
with_nonce mechanism username password client_nonce = record {
  mechanism = mechanism;
  username = username;
  password = password;
  client_nonce = client_nonce;
  server_first = none;
  salted_password = none;
  auth_message = [];
  state = init;
}

-- `n=<user>,r=<nonce>`
unfoldable pub first_bare : Bytes → Bytes → Bytes
unfolding escape_username
first_bare username client_nonce =
    b'n' ∷ b'=' ∷ (escape_username username ++ b',' ∷ b'r' ∷ b'=' ∷ client_nonce)

unfoldable pub client_first_message : ScramClient → Result AuthError (Bytes × ScramClient)
unfolding first_bare
client_first_message c = do
  guard (is_init c.state) AuthError.state
  let bare = first_bare c.username c.client_nonce
  ok (gs2_no_binding_header ++ bare, record c { auth_message = bare; state = first_sent })

-- `c=biws,r=<nonce>`
unfoldable pub without_proof : Bytes → Bytes
without_proof full_nonce =
    b'c' ∷ b'=' ∷ (no_channel_binding_flag ++ b',' ∷ b'r' ∷ b'=' ∷ full_nonce)

module _ (C : Crypto) where
  -- `ScramClient::new`, given the nonce that it generates.
  unfoldable pub new : ScramMechanism → Bytes → Bytes → Bytes → ScramClient
  unfolding with_nonce effective_password
  new mechanism username password generated =
      with_nonce mechanism username (effective_password C mechanism username password) generated

  unfoldable pub in_range : ℕ → Result AuthError ℕ
  in_range parsed =
      if parsed == 0 || ltb max_scram_iterations parsed
      then err (invalid_message "iteration count out of range")
      else ok parsed

  -- One turn of the loop of `ServerFirst::parse`.
  unfoldable pub take_attribute : Slots → Attribute → Result AuthError Slots
  unfolding in_range
  take_attribute s a =
      if has_key a b'r' && is_none s.nonce
      then ok (record s { nonce = some a.value })
      else if has_key a b's' && is_none s.salt
      then (do
        salt ← ok_or (C.base64_decode a.value) (invalid_message "invalid base64 salt")
        ok (record s { salt = some salt }))
      else if has_key a b'i' && is_none s.iterations
      then (do
        parsed ← ok_or (parse_u32 a.value) (invalid_message "invalid iteration count")
        iterations ← in_range parsed
        ok (record s { iterations = some iterations }))
      else ok s

  unfoldable pub take_attributes : Slots → List Attribute → Result AuthError Slots
  unfolding take_attribute
  take_attributes s [] = ok s
  take_attributes s (a ∷ attrs) = do s' ← take_attribute s a; take_attributes s' attrs

  unfoldable pub parse : Bytes → Result AuthError ServerFirst
  unfolding take_attributes
  parse text = do
    attrs ← parse_attributes text
    slots ← take_attributes (record { nonce = none; salt = none; iterations = none }) attrs
    nonce ← ok_or (non_empty slots.nonce) (invalid_message "missing server nonce")
    salt ← ok_or slots.salt (invalid_message "missing salt")
    iterations ← ok_or slots.iterations (invalid_message "missing iteration count")
    ok (record { nonce = nonce; salt = salt; iterations = iterations })

  unfoldable pub receive_server_first : ScramClient → Bytes → Result AuthError ScramClient
  receive_server_first c text = do
    guard (is_first_sent c.state && is_none c.server_first) AuthError.state
    server_first ← parse text
    guard (not (is_none (strip_prefix c.client_nonce server_first.nonce))) nonce_mismatch
    let salted =
        salted_password_of C c.mechanism c.password server_first.salt server_first.iterations
    ok (record c {
      auth_message = c.auth_message ++ b',' ∷ (text ++ b',' ∷ []);
      salted_password = some salted;
      server_first = some server_first;
    })

  unfoldable pub client_final_message : ScramClient → Result AuthError (Bytes × ScramClient)
  client_final_message c = do
    guard (is_first_sent c.state) AuthError.state
    server_first ← ok_or c.server_first AuthError.state
    let full_nonce = server_first.nonce
    salted ← ok_or c.salted_password AuthError.state
    let client_key = hmac_bytes C c.mechanism salted client_key_label
    let stored_key = hash_bytes C c.mechanism client_key
    let auth_message = c.auth_message ++ without_proof full_nonce
    let client_signature = hmac_bytes C c.mechanism stored_key auth_message
    let proof = xor_bytes client_key client_signature
    ok (
      without_proof full_nonce ++ b',' ∷ b'p' ∷ b'=' ∷ C.base64_encode proof,
      record c { auth_message = auth_message; state = final_sent },
    )

  -- The only attribute of a server-final message.
  abbrev pub only_attribute : List Attribute → Result AuthError Attribute
  only_attribute (a ∷ []) = ok a
  only_attribute _ = err (invalid_message "malformed server-final message")

  unfoldable pub verify_signature : ScramClient → Bytes → Result AuthError ScramClient
  verify_signature c value = do
    received ← ok_or (C.base64_decode value) (invalid_message "invalid base64 server signature")
    salted ← ok_or c.salted_password AuthError.state
    let server_key = hmac_bytes C c.mechanism salted server_key_label
    let expected = hmac_bytes C c.mechanism server_key c.auth_message
    (if length expected == length received && bytes_eq expected received
        then ok (record c { state = done })
        else err server_signature_mismatch)

  unfoldable pub receive_server_final : ScramClient → Bytes → Result AuthError ScramClient
  unfolding verify_signature
  receive_server_final c text = do
    guard (is_final_sent c.state) AuthError.state
    attrs ← parse_attributes text
    a ← only_attribute attrs
    (if has_key a b'e'
        then err (failure a.value)
        else if has_key a b'v'
        then verify_signature c a.value
        else err (invalid_message "expected v= or e= in server-final message"))
