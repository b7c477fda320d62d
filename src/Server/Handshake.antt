-- ===== src/Server/Handshake.antt =====
-- mongowire/src/api/mod.rs: the choice of compressors and the handler of the built-in commands.
pub mod Laws
use mongowire.Base.{
  ℕ, Bool, true, false, not, ◌||◌, Option, none, some, List, [], ◌∷◌, Bytes, ℤ, codes, Result, ok,
  err, stuck, map_ok, bytes_eq, mem, if◌then◌else◌,
}
use mongowire.Bson.{Bson, RawDocument, RawBsonRef, Values, no_values, value}
use mongowire.Bson.Names.{get}
use mongowire.Bson.Decode.{shallow_array}
use mongowire.Wire.{CompressorId}
use mongowire.Server.{
  ConnectionInfo, Command, Reply, CommandHandler, Error, name, handshake_reply, ping_reply,
}

strings_of : Values → List Bytes
strings_of no_values = []
strings_of (value (Bson.string s) vs) = s ∷ strings_of vs
strings_of (value _ vs) = strings_of vs

unfoldable pub requested_compressors : RawDocument → Option (List Bytes)
unfolding strings_of
requested_compressors body = elim (get body (codes "compression")) [
  | ok (some (RawBsonRef.array names)) ↦ elim (shallow_array names) [
    | ok values ↦ some (strings_of values)
    | err e ↦ none
    | stuck ↦ none
  ]
  | _ ↦ none
]

unfoldable pub filter_requested : List Bytes → List CompressorId → List CompressorId
filter_requested requested [] = []
filter_requested requested (c ∷ configured) =
    let rest = filter_requested requested configured in
    if mem (name c) requested then c ∷ rest else rest

unfoldable pub negotiate : List CompressorId → Option (List Bytes) → List CompressorId
unfolding filter_requested
negotiate configured none = []
negotiate configured (some requested) = filter_requested requested configured

-- `"hello" | "isMaster" | "ismaster"`
unfoldable pub is_hello : Bytes → Bool
is_hello text =
    bytes_eq text (codes "hello")
    || bytes_eq text (codes "isMaster")
    || bytes_eq text (codes "ismaster")

pub record BuiltinHandler : Type 0 where
  pub inner : CommandHandler
  pub compressors : List CompressorId
  pub max_msg_len : ℤ

unfoldable pub handle_command : BuiltinHandler → ℤ → CommandHandler
unfolding requested_compressors negotiate is_hello
handle_command h now ctx command =
    if is_hello command.name
    then (let negotiated = negotiate h.compressors (requested_compressors command.body) in
        (
          map_ok Reply.msg (
              handshake_reply negotiated h.max_msg_len (not (bytes_eq command.name (codes "hello")))
                now),
          record ctx { negotiated_compressors = negotiated },
        ))
    else if bytes_eq command.name (codes "ping")
    then (map_ok Reply.msg ping_reply, ctx)
    else h.inner ctx command
