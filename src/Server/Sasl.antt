-- ===== src/Server/Sasl.antt =====
-- mongowire/src/api/auth.rs: the `saslStart` and `saslContinue` commands on the SCRAM server of
-- Auth/Scram, and the credential store in memory.
pub mod Username
pub mod Bridge
pub mod Authenticated
use mongowire.Base.{
  ℕ, ◌%◌, ◌^◌, Bool, true, false, not, ◌||◌, ◌&&◌, Option, none, some, List, [], ◌∷◌, ◌++◌, Bytes,
  ℤ, pos, signed, pattern_of, i32_half, i64_half, codes, Result, ok, err, stuck, ◌>>=◌, ◌>>◌, guard,
  map_ok, map_err, bytes_eq, if◌then◌else◌, is_utf8, split_on, strip_prefix, replace_three,
}
use mathlib.Core.Option
use mongowire.Bson.{Bson, RawDocument, RawBsonRef}
use mongowire.Bson.Names.{get}
use mongowire.Bson.Document.{add}
use mongowire.Bson.Document
use mongowire.Scalar.{BinarySubtype}
use mongowire.Auth.{AuthError}
use mongowire.Auth
use mongowire.Auth.Scram.{
  Crypto, ScramMechanism, sha1, sha256, StoredCredentials, from_name, derive, mongo_sha1_password,
  default_iterations,
}
use mongowire.Auth.Scram.Server.{ScramServer, handle_client_first, handle_client_final, with_nonce}
use mongowire.Auth.Scram.Client.{is_none}
use mongowire.Wire.Msg.{OpMsg}
use mongowire.Server.{
  ConnectionInfo, AuthState, Command, Reply, CommandHandler, Error, command, bson_error, reply_with,
  one_bits,
}

-- The texts of the errors, as `to_string` gives them.
unfoldable pub display : AuthError → Bytes
display (Auth.invalid_message reason) = codes "invalid authentication message: " ++ codes reason
display (Auth.failure text) = codes "authentication failed: " ++ text
display Auth.nonce_mismatch = codes "nonce mismatch"
display Auth.server_signature_mismatch = codes "server signature mismatch"
display Auth.client_proof_mismatch = codes "client proof mismatch"
display AuthError.state = codes "authentication step out of order"

unfoldable pub auth_failed : Bytes → Error
auth_failed message = command (pos 18) (codes "AuthenticationFailed") message

mechanism_named : Bytes → Result Error ScramMechanism
unfolding from_name auth_failed
mechanism_named text = elim (from_name text) [
  | some m ↦ ok m
  | none ↦ err (auth_failed (codes "unsupported authentication mechanism " ++ text))
]

mechanism_field : Option RawBsonRef → Result Error ScramMechanism
unfolding mechanism_named
mechanism_field (some (RawBsonRef.string text)) = mechanism_named text
mechanism_field _ = err (auth_failed (codes "saslStart requires a string mechanism"))

unfoldable pub parse_mechanism : RawDocument → Result Error ScramMechanism
unfolding mechanism_field
parse_mechanism body = do
  found ← map_err bson_error (get body (codes "mechanism"))
  mechanism_field found

payload_field : Option RawBsonRef → Result Error Bytes
unfolding auth_failed
payload_field none = err (auth_failed (codes "missing payload"))
payload_field (some (RawBsonRef.binary b)) = ok b.bytes
payload_field (some (RawBsonRef.string text)) = ok text
payload_field (some _) = err (auth_failed (codes "payload must be a string or binary"))

unfoldable pub payload_bytes : RawDocument → Result Error Bytes
unfolding payload_field
payload_bytes body = do found ← map_err bson_error (get body (codes "payload")); payload_field found

unfoldable pub payload_str : RawDocument → Result Error Bytes
unfolding payload_bytes
payload_str body = do
  bytes ← payload_bytes body
  guard (is_utf8 bytes) (auth_failed (codes "payload is not valid UTF-8"))
  ok bytes

unfoldable pub conversation_id_of : RawDocument → ℤ
conversation_id_of body = elim (get body (codes "conversationId")) [
  | ok (some (RawBsonRef.int32 id)) ↦ id
  | ok (some (RawBsonRef.int64 id)) ↦ signed i32_half (pattern_of i64_half id % 2 ^ 32)
  | _ ↦ pos 1
]

unfoldable pub payload_bson : Bytes → Bson
payload_bson message = Bson.binary (record { subtype = BinarySubtype.generic; bytes = message })

unfoldable pub sasl_reply : ℤ → Bool → Bytes → Result Error OpMsg
unfolding add Document.new payload_bson
sasl_reply conversation_id done payload =
    let doc = add Document.new (codes "conversationId") (Bson.int32 conversation_id) in
    let doc = add doc (codes "done") (Bson.bool done) in
    let doc = add doc (codes "payload") (payload_bson payload) in
    reply_with (add doc (codes "ok") (Bson.double one_bits))

abbrev first_part : List Bytes → Option Bytes
first_part [] = none
first_part (part ∷ parts) = some part

abbrev or_all : Option Bytes → Bytes → Bytes
or_all none text = text
or_all (some rest) text = rest

-- `=2C` becomes `,` before `=3D` becomes `=`.
unfoldable pub unescape_username : Bytes → Bytes
unescape_username text = replace_three b'=' b'3' b'D' b'=' (replace_three b'=' b'2' b'C' b',' text)

claimed_in : Option Bytes → Option Bytes
unfolding unescape_username
claimed_in none = none
claimed_in (some part) =
    Option.map (λ claimed. unescape_username claimed) (strip_prefix (codes "n=") part)

unfoldable pub parse_client_first_username : Bytes → Option Bytes
unfolding claimed_in
parse_client_first_username client_first =
    let bare = or_all (strip_prefix (codes "n,,") client_first) client_first in
    claimed_in (first_part (split_on b',' bare))

-- Where the bridge looks up credentials.
abbrev pub CredentialSource : Type 0
CredentialSource = ScramMechanism → Bytes → Option StoredCredentials

abbrev same_mechanism : ScramMechanism → ScramMechanism → Bool
same_mechanism sha1 sha1 = true
same_mechanism sha256 sha256 = true
same_mechanism _ _ = false

abbrev pub same_user : ScramMechanism × Bytes → ScramMechanism × Bytes → Bool
same_user a b = same_mechanism a.0 b.0 && bytes_eq a.1 b.1

-- The hash map of `MemoryCredentialSource` as a list with one entry for a key.
abbrev pub Users : Type 0
Users = List ((ScramMechanism × Bytes) × StoredCredentials)

unfoldable pub lookup : Users → CredentialSource
lookup [] m user = none
lookup (entry ∷ users) m user =
    let rest = lookup users m user in if same_user entry.0 (m, user) then some entry.1 else rest

put : Users → ScramMechanism × Bytes → StoredCredentials → Users
put [] key creds = (key, creds) ∷ []
put (entry ∷ users) key creds =
    let rest = put users key creds in
    if same_user entry.0 key then (key, creds) ∷ users else entry ∷ rest

-- `Vec::from_iter(0..16u8)`
abbrev fixed_salt : Bytes
fixed_salt = 0 ∷ 1 ∷ 2 ∷ 3 ∷ 4 ∷ 5 ∷ 6 ∷ 7 ∷ 8 ∷ 9 ∷ 10 ∷ 11 ∷ 12 ∷ 13 ∷ 14 ∷ 15 ∷ []

module _ (C : Crypto) where
  effective : ScramMechanism → Bytes → Bytes → Bytes
  unfolding mongo_sha1_password
  effective sha1 username password = mongo_sha1_password C username password
  effective sha256 username password = password

  unfoldable pub insert : Users → ScramMechanism → Bytes → Bytes → Users
  unfolding put derive effective default_iterations
  insert users m username password =
      put users (m, username)
        (derive C m (effective m username password) fixed_salt (default_iterations m))
