-- ===== src/Examples/Server.antt =====
-- Tests and examples for Server and for the operations on documents.
use mongowire.Base.{
  ◌≡◌, refl, List, Option, false, true, some, [], ◌∷◌, ◌++◌, Bytes, ok, if◌then◌else◌, codes,
  bytes_eq,
}
use mongowire.Examples.Digests.{small}
use mongowire.Bson.{Bson, Fields, field, no_fields}
use mongowire.Bson.Document.{add, get, remove, replace}
use mongowire.Bson.Document.Laws.{values_of, tail, document_table}
use mongowire.Wire.{CompressorId, zlib, zstd}
use mongowire.Auth.Scram.{
  sha1, StoredCredentials, derive, effective_password, gs2_no_binding_header,
}
use mongowire.Auth.Scram.Client.{first_bare}
use mongowire.Server.{ConnectionInfo, Command, CommandHandler, no_reply, name, empty_flags}
use mongowire.Server
use mongowire.Server.Handshake.{negotiate}
use mongowire.Server.Handshake.Laws.{IsSublist, count, only_if, asked_for, negotiate_preference}
use mongowire.Server.Sasl.{CredentialSource, lookup, parse_client_first_username}
use mongowire.Server.Sasl.Username.{parse_client_first_username-first_bare}
use mongowire.Server.Sasl.Bridge.{handle_command}
use mongowire.Server.Sasl.Authenticated.{fresh, after, IsTrusted, Reach-IsTrusted}

-- {"a": null, "b": true, "a": false}
abbrev three_fields : Fields
three_fields =
    field (codes "a") Bson.null
      (field (codes "b") (Bson.bool true) (field (codes "a") (Bson.bool false) no_fields))

document_table_example :
    ((key : Bytes)
      → values_of (add three_fields (codes "a") Bson.undefined) key
        ≡ values_of three_fields key
          ++ (if bytes_eq (codes "a") key then Bson.undefined ∷ [] else []))
    × (get three_fields (codes "a") ≡ some Bson.null)
    × ((remove three_fields (codes "a")).0 ≡ some Bson.null)
    × ((key : Bytes)
        → values_of (remove three_fields (codes "a")).1 key
          ≡ (if bytes_eq (codes "a") key then [] else values_of three_fields key))
    × ((key : Bytes)
        → values_of (replace three_fields (codes "a") Bson.undefined) key ≡ (
            if bytes_eq (codes "a") key
            then Bson.undefined ∷ tail (values_of three_fields key)
            else values_of three_fields key))
unfolding values_of bytes_eq
document_table_example = document_table three_fields (codes "a") Bson.undefined

-- A server that lists zlib twice.
abbrev server_list : List CompressorId
server_list = zstd ∷ zlib ∷ zlib ∷ []

abbrev client_list : Option (List Bytes)
client_list = some (codes "zlib" ∷ codes "lz4" ∷ [])

negotiate_preference_example :
    IsSublist (negotiate server_list client_list) server_list
    × ((c : CompressorId)
        → count c (negotiate server_list client_list)
          ≡ only_if (asked_for c client_list) (count c server_list))
negotiate_preference_example = negotiate_preference server_list client_list

parse_client_first_username-first_bare_example :
    parse_client_first_username (gs2_no_binding_header ++ first_bare (codes "a=,2C=2C") (codes "n"))
    ≡ some (codes "a=,2C=2C")
parse_client_first_username-first_bare_example =
    parse_client_first_username-first_bare (codes "a=,2C=2C") (codes "n")

abbrev user : Bytes
user = codes "us,er"

abbrev creds : StoredCredentials
creds = derive small sha1 (effective_password small sha1 user (codes "pencil")) (1 ∷ 2 ∷ 250 ∷ []) 5

abbrev source : CredentialSource
source m u = lookup (((sha1, user), creds) ∷ []) m u

-- A handler that answers nothing.
abbrev quiet : CommandHandler
quiet ctx request = (ok no_reply, ctx)

abbrev request_of : Bytes → Bytes → Command
request_of text body = record {
  name = text;
  body = record { bytes = body };
  sequences = [];
  flags = empty_flags;
}

-- {"mechanism": "SCRAM-SHA-1", "payload": "n,,n=us=2Cer,r=cn"}
abbrev sasl_start : Command
sasl_start = request_of (codes "saslStart") (
    63 ∷ 0 ∷ 0 ∷ 0 ∷ 2 ∷ 109 ∷ 101 ∷ 99 ∷ 104 ∷ 97 ∷ 110 ∷ 105 ∷ 115 ∷ 109 ∷ 0 ∷ 12 ∷ 0 ∷ 0 ∷ 0 ∷ 83
    ∷ 67 ∷ 82 ∷ 65 ∷ 77 ∷ 45 ∷ 83 ∷ 72 ∷ 65 ∷ 45 ∷ 49 ∷ 0 ∷ 2 ∷ 112 ∷ 97 ∷ 121 ∷ 108 ∷ 111 ∷ 97
    ∷ 100 ∷ 0 ∷ 18 ∷ 0 ∷ 0 ∷ 0 ∷ 110 ∷ 44 ∷ 44 ∷ 110 ∷ 61 ∷ 117 ∷ 115 ∷ 61 ∷ 50 ∷ 67 ∷ 101 ∷ 114
    ∷ 44 ∷ 114 ∷ 61 ∷ 99 ∷ 110 ∷ 0 ∷ 0 ∷ [])

-- The payload is the client-final message, with the proof of the password.
abbrev sasl_continue : Command
sasl_continue = request_of (codes "saslContinue") (
    75 ∷ 0 ∷ 0 ∷ 0 ∷ 2 ∷ 112 ∷ 97 ∷ 121 ∷ 108 ∷ 111 ∷ 97 ∷ 100 ∷ 0 ∷ 57 ∷ 0 ∷ 0 ∷ 0 ∷ 99 ∷ 61 ∷ 98
    ∷ 105 ∷ 119 ∷ 115 ∷ 44 ∷ 114 ∷ 61 ∷ 99 ∷ 110 ∷ 115 ∷ 110 ∷ 44 ∷ 112 ∷ 61 ∷ 79 ∷ 77 ∷ 79 ∷ 77
    ∷ 79 ∷ 77 ∷ 79 ∷ 77 ∷ 79 ∷ 77 ∷ 79 ∷ 77 ∷ 79 ∷ 77 ∷ 79 ∷ 77 ∷ 79 ∷ 77 ∷ 79 ∷ 77 ∷ 79 ∷ 77 ∷ 79
    ∷ 77 ∷ 79 ∷ 77 ∷ 79 ∷ 77 ∷ 79 ∷ 77 ∷ 79 ∷ 77 ∷ 79 ∷ 77 ∷ 79 ∷ 77 ∷ 79 ∷ 77 ∷ 79 ∷ 77 ∷ 0 ∷ 0
    ∷ [])

abbrev started : ConnectionInfo
started = (handle_command small source quiet (codes "sn") Server.new sasl_start).1

abbrev finished : ConnectionInfo
finished = (handle_command small source quiet [] started sasl_continue).1

Reach-IsTrusted_example : IsTrusted small source finished.auth
Reach-IsTrusted_example =
    Reach-IsTrusted small source quiet (λ d r. refl)
      (after [] sasl_continue (after (codes "sn") sasl_start fresh))
