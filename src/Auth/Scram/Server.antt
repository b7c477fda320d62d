-- ===== src/Auth/Scram/Server.antt =====
-- mongo_common/src/auth/scram.rs: the server's side of the exchange. As on the client's side, no
-- error path of the source assigns a field, so an error carries no server.
use mongowire.Base.{
  ℕ, Bool, true, false, not, Option, none, some, List, [], ◌∷◌, ◌++◌, Bytes, ◌==◌, ◌&&◌, ◌||◌,
  if◌then◌else◌, Result, ok, err, ◌>>=◌, ◌>>◌, guard, bytes_eq, strip_prefix, xor_bytes, length,
  to_string,
}
use mongowire.Auth.{AuthError, invalid_message, nonce_mismatch, client_proof_mismatch}
use mongowire.Auth.Scram.{
  Crypto, ScramMechanism, StoredCredentials, Attribute, has_key, parse_attributes,
  gs2_no_binding_header, no_channel_binding_flag, hmac_bytes, hash_bytes,
}
use mongowire.Auth.Scram.Client.{ok_or, is_none, without_proof}

pub data ServerState : Type 0 where
  expect_client_first expect_client_final done : ServerState

abbrev pub is_expect_client_first : ServerState → Bool
is_expect_client_first expect_client_first = true
is_expect_client_first _ = false

abbrev pub is_expect_client_final : ServerState → Bool
is_expect_client_final expect_client_final = true
is_expect_client_final _ = false

pub record ScramServer : Type 0 where
  pub mechanism : ScramMechanism
  pub server_nonce : Bytes
  pub client_first_bare : Bytes
  pub server_first_message : Bytes
  pub state : ServerState
  pub username : Bytes
  pub client_nonce : Bytes
  pub credentials : Option StoredCredentials

unfoldable pub with_nonce : ScramMechanism → Bytes → ScramServer
with_nonce mechanism server_nonce = record {
  mechanism = mechanism;
  server_nonce = server_nonce;
  client_first_bare = [];
  server_first_message = [];
  state = expect_client_first;
  username = [];
  client_nonce = [];
  credentials = none;
}

abbrev starts_with : Bytes → Bytes → Bool
starts_with text prefix = not (is_none (strip_prefix prefix text))

-- The message without its GS2 header.
unfoldable pub strip_header : Bytes → Result AuthError Bytes
strip_header text = elim (strip_prefix gs2_no_binding_header text) [
  | some bare ↦ ok bare
  | none ↦
      if starts_with text (b'y' ∷ b',' ∷ b',' ∷ []) || starts_with text (b'p' ∷ b'=' ∷ [])
      then err (invalid_message "channel binding is not supported")
      else err (invalid_message "invalid GS2 header")
]

-- `attrs.any(|(key, _)| key == 'm')`
unfoldable pub any_mandatory : List Attribute → Bool
any_mandatory [] = false
any_mandatory (a ∷ attrs) = has_key a b'm' || any_mandatory attrs

-- The next attribute, which has to have the key.
abbrev pub expect_attribute :
    ℕ → AuthError → List Attribute → Result AuthError (Bytes × List Attribute)
expect_attribute key e [] = err e
expect_attribute key e (a ∷ attrs) = if has_key a key then ok (a.value, attrs) else err e

abbrev pub is_empty : Bytes → Bool
is_empty [] = true
is_empty (b ∷ bs) = false

-- The local variables of `handle_client_final`.
pub record FinalSlots : Type 0 where
  pub channel_binding : Option Bytes
  pub nonce : Option Bytes
  pub proof : Option Bytes

-- One turn of its loop.
unfoldable pub take_final_attribute : FinalSlots → Attribute → Result AuthError FinalSlots
take_final_attribute s a =
    if has_key a b'c' && is_none s.channel_binding
    then ok (record s { channel_binding = some a.value })
    else if has_key a b'r' && is_none s.nonce
    then ok (record s { nonce = some a.value })
    else if has_key a b'p' && is_none s.proof
    then ok (record s { proof = some a.value })
    else err (invalid_message "unexpected attribute in client-final message")

unfoldable pub take_final_attributes : FinalSlots → List Attribute → Result AuthError FinalSlots
unfolding take_final_attribute
take_final_attributes s [] = ok s
take_final_attributes s (a ∷ attrs) = do
  s' ← take_final_attribute s a
  take_final_attributes s' attrs

-- `slot == Some(value)`
abbrev pub is_some_of : Option Bytes → Bytes → Bool
is_some_of none value = false
is_some_of (some bytes) value = bytes_eq bytes value

-- `client-first-bare,server-first,client-final-without-proof`
unfoldable pub auth_message_of : ScramServer → Bytes → Bytes
auth_message_of s full_nonce =
    s.client_first_bare ++ b',' ∷ (s.server_first_message ++ b',' ∷ without_proof full_nonce)

module _ (C : Crypto) where
  -- `r=<nonce>,s=<salt>,i=<iterations>`
  unfoldable pub server_first_of : Bytes → StoredCredentials → Bytes
  server_first_of full_nonce credentials =
      b'r'
      ∷ b'='
      ∷ (full_nonce
          ++ b','
            ∷ b's'
            ∷ b'='
            ∷ (C.base64_encode credentials.salt
                ++ b',' ∷ b'i' ∷ b'=' ∷ to_string credentials.iterations))

  unfoldable pub handle_client_first :
      ScramServer → Bytes → Bytes → StoredCredentials → Result AuthError (Bytes × ScramServer)
  unfolding strip_header any_mandatory server_first_of
  handle_client_first s text username credentials = do
    guard (is_expect_client_first s.state) AuthError.state
    bare ← strip_header text
    attrs ← parse_attributes bare
    guard (not (any_mandatory attrs)) (invalid_message "mandatory extension not supported")
    (claimed, rest) ←
        expect_attribute b'n' (invalid_message "expected n=<username> attribute") attrs
    (client_nonce, rest') ←
        expect_attribute b'r' (invalid_message "expected r=<nonce> attribute") rest
    guard (not (is_empty client_nonce)) (invalid_message "missing client nonce")
    let message = server_first_of (client_nonce ++ s.server_nonce) credentials
    ok (
      message,
      record s {
        client_first_bare = bare;
        client_nonce = client_nonce;
        username = username;
        credentials = some credentials;
        server_first_message = message;
        state = expect_client_final;
      },
    )

  -- The check of a proof against the stored key, and the server's signature.
  unfoldable pub check_proof :
      ScramServer → StoredCredentials → Bytes → Bytes → Result AuthError (Bytes × ScramServer)
  check_proof s credentials auth_message proof = do
    let client_signature = hmac_bytes C s.mechanism credentials.stored_key auth_message
    guard (length proof == length client_signature)
        (invalid_message "client proof has the wrong length")
    let client_key = xor_bytes proof client_signature
    let hashed_client_key = hash_bytes C s.mechanism client_key
    guard (bytes_eq hashed_client_key credentials.stored_key) client_proof_mismatch
    let server_signature = hmac_bytes C s.mechanism credentials.server_key auth_message
    ok (b'v' ∷ b'=' ∷ C.base64_encode server_signature, record s { state = done })

  unfoldable pub handle_client_final : ScramServer → Bytes → Result AuthError (Bytes × ScramServer)
  unfolding take_final_attributes auth_message_of check_proof
  handle_client_final s text = do
    guard (is_expect_client_final s.state) AuthError.state
    credentials ← ok_or s.credentials AuthError.state
    attrs ← parse_attributes text
    slots ←
        take_final_attributes (record { channel_binding = none; nonce = none; proof = none }) attrs
    guard (is_some_of slots.channel_binding no_channel_binding_flag)
        (invalid_message "expected c=biws channel binding")
    let full_nonce = s.client_nonce ++ s.server_nonce
    guard (is_some_of slots.nonce full_nonce) nonce_mismatch
    proof_b64 ← ok_or slots.proof (invalid_message "missing p=<proof> attribute")
    proof ← ok_or (C.base64_decode proof_b64) (invalid_message "invalid base64 client proof")
    check_proof s credentials (auth_message_of s full_nonce) proof
