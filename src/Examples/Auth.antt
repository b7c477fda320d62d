-- ===== src/Examples/Auth.antt =====
-- Tests and examples for Auth.
use mongowire.Base.{
  ◌≡◌, refl, ◌↔◌, some, [], ◌∷◌, ◌++◌, Bytes, ok, contains, arith, is_utf8, Lacks, codes, bytes_eq,
  strip_prefix, split_on, parse_u32,
}
use mongowire.Examples.{all_bytes-AreBytes}
use mongowire.Examples.Digests.{small, small-CryptoLaws}
use mongowire.Auth.Plain.{
  PlainMessage, parse_client_payload, build_client_payload, parse_client_payload_iff,
  IsPlainMessage,
}
use mongowire.Auth.Scram.{
  sha1, StoredCredentials, derive, effective_password, parse_attributes, salted_password_of,
}
use mongowire.Auth.Scram.Client.{
  ScramClient, client_first_message, receive_server_first, client_final_message,
  receive_server_final, first_bare, without_proof, parse,
}
use mongowire.Auth.Scram.Client
use mongowire.Auth.Scram.Server.{
  ScramServer, handle_client_first, handle_client_final, check_proof, server_first_of,
  auth_message_of, expect_client_final,
}
use mongowire.Auth.Scram.Server
use mongowire.Auth.Scram.Steps.{transcript, challenging, proving, proof_of}
use mongowire.Auth.Scram.Exchange.{exchange}
use mongowire.Auth.Scram.Keys.{Verdict, exchange-Verdict}
use mongowire.Auth.Scram.Honest.{exchange-derive}
use mongowire.Auth.Scram.Verified.{IsAccepted, server_final, handle_client_final_iff}
use mongowire.Auth.Scram.Signed.{IsSigned, receive_server_final_iff}
use mongowire.Auth.Scram.Order.{
  Reach, here, next, sends_first, receives_first, perform, IsOrderly, Reach-IsOrderly, first_out,
  first_in,
}

abbrev user : Bytes
user = codes "us,er"

abbrev password : Bytes
password = codes "pencil"

abbrev salt : Bytes
salt = 1 ∷ 2 ∷ 250 ∷ []

abbrev message : PlainMessage
message = record { authz_id = []; authc_id = codes "user"; password = password }

message-IsPlainMessage : IsPlainMessage message
unfolding IsPlainMessage contains is_utf8
message-IsPlainMessage = ((refl, refl), (refl, refl), (refl, refl))

parse_client_payload_iff_example :
    (parse_client_payload (build_client_payload [] (codes "user") password) ≡ ok message) ↔ (
      (build_client_payload [] (codes "user") password
        ≡ build_client_payload [] (codes "user") password)
      × IsPlainMessage message)
parse_client_payload_iff_example =
    parse_client_payload_iff (build_client_payload [] (codes "user") password) message

abbrev client_nonce : Bytes
client_nonce = codes "cn"

abbrev server_nonce : Bytes
server_nonce = codes "sn"

abbrev effective : Bytes
effective = effective_password small sha1 user password

abbrev creds : StoredCredentials
creds = derive small sha1 effective salt 5

lacks_comma : Lacks b',' client_nonce × Lacks b',' server_nonce
unfolding contains
lacks_comma = (refl, refl)

exchange-derive_example :
    exchange small
      (Client.new small sha1 user password client_nonce)
      (Server.with_nonce sha1 server_nonce)
      user
      creds
    ≡ ok (
      record (proving small sha1 user effective client_nonce server_nonce creds) {
        state = Client.done;
      },
      record (challenging small sha1 user client_nonce server_nonce creds) { state = Server.done },
    )
exchange-derive_example =
    exchange-derive small small-CryptoLaws sha1 user password client_nonce server_nonce salt 5
      lacks_comma.0 lacks_comma.1 (omega arith) (all_bytes-AreBytes salt refl) (omega arith)
      (omega arith)

-- Credentials of another password.
abbrev other_creds : StoredCredentials
other_creds = record creds { stored_key = 1 ∷ []; server_key = 2 ∷ [] }

exchange-Verdict_example : Verdict small sha1 user effective client_nonce server_nonce other_creds (
    exchange small
      (Client.new small sha1 user password client_nonce)
      (Server.with_nonce sha1 server_nonce)
      user
      other_creds)
unfolding derive
exchange-Verdict_example =
    exchange-Verdict small small-CryptoLaws sha1 user password client_nonce server_nonce other_creds
      lacks_comma.0 lacks_comma.1 (omega arith) (all_bytes-AreBytes salt refl) (omega arith)
      (omega arith)

abbrev waiting_server : ScramServer
waiting_server = challenging small sha1 user client_nonce server_nonce creds

abbrev final_message : Bytes
final_message =
    without_proof (client_nonce ++ server_nonce)
    ++ b','
      ∷ b'p'
      ∷ b'='
      ∷ small.base64_encode (
          proof_of small sha1 effective (transcript small user client_nonce server_nonce creds)
            creds)

handle_client_final_iff_example :
    (handle_client_final small waiting_server final_message
      ≡ ok (server_final small waiting_server creds))
    ↔ ((found : StoredCredentials) × (waiting_server.state ≡ expect_client_final)
        × (waiting_server.credentials ≡ some found)
        × IsAccepted small waiting_server found final_message
        × (server_final small waiting_server creds ≡ server_final small waiting_server found))
handle_client_final_iff_example =
    handle_client_final_iff small waiting_server final_message
      (server_final small waiting_server creds)

abbrev proving_client : ScramClient
proving_client = proving small sha1 user effective client_nonce server_nonce creds

abbrev done_client : ScramClient
done_client = record proving_client { state = Client.done }

receive_server_final_iff_example :
    (receive_server_final small proving_client (server_final small waiting_server creds).0
      ≡ ok done_client)
    ↔ ((proving_client.state ≡ Client.final_sent)
        × IsSigned small proving_client (server_final small waiting_server creds).0
        × (done_client ≡ record proving_client { state = Client.done }))
receive_server_final_iff_example =
    receive_server_final_iff small proving_client done_client
      (server_final small waiting_server creds).0

abbrev server_message : Bytes
server_message = codes "r=cnsn,s=AB,i=7"

-- The client after it has written its first message and read the server's.
abbrev challenged_client : ScramClient
challenged_client = record {
  mechanism = sha1;
  username = user;
  password = password;
  client_nonce = client_nonce;
  server_first = some (record { nonce = codes "cnsn"; salt = 1 ∷ []; iterations = 7 });
  salted_password = some (salted_password_of small sha1 password (1 ∷ []) 7);
  auth_message = first_bare user client_nonce ++ b',' ∷ (server_message ++ b',' ∷ []);
  state = Client.first_sent;
}

challenged_client_reached :
    Reach small
      (Client.with_nonce sha1 user password client_nonce)
      (first_in ∷ first_out ∷ [])
      challenged_client
unfolding perform client_first_message receive_server_first Client.with_nonce parse parse_attributes
    split_on bytes_eq parse_u32 small strip_prefix
challenged_client_reached = next (receives_first server_message) (next sends_first here refl) refl

Reach-IsOrderly_example : IsOrderly small (first_in ∷ first_out ∷ []) challenged_client
Reach-IsOrderly_example =
    Reach-IsOrderly small sha1 user password client_nonce challenged_client_reached
