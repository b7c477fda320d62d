-- ===== src/Auth/Scram.antt =====
-- mongo_common/src/auth/scram.rs: the mechanisms, the digests, the attribute lists and the stored
-- credentials of SCRAM. Text is its UTF-8 bytes. The digests, PBKDF2 and base64 are other crates:
-- a `Crypto` holds them, and `CryptoLaws` what the code relies on.
pub mod Client
pub mod Server
pub mod Attributes
pub mod Steps
pub mod Exchange
pub mod Keys
pub mod Honest
pub mod Verified
pub mod Signed
pub mod Bounds
pub mod Order
use mongowire.Base.{
  ℕ, ◌+◌, ◌-◌, ◌*◌, ◌/◌, ◌%◌, ◌^◌, ◌≡◌, Bool, true, false, Option, none, some, List, [], ◌∷◌, ◌++◌,
  Bytes, AreBytes, length, take, drop, get_or, ltb, leb, ◌==◌, ◌&&◌, ◌||◌, if◌then◌else◌, Result,
  ok, err, ◌>>=◌, ◌>>◌, guard, bytes_eq, contains, split_on, replace_byte,
}
use mongowire.Auth.{AuthError, invalid_message}

pub data ScramMechanism : Type 0 where
  sha1 sha256 : ScramMechanism

-- The functions of the crates md5, sha1, sha2, hmac, pbkdf2 and base64 that the code calls.
pub record Crypto : Type 0 where
  pub md5_digest : Bytes → Bytes
  pub sha1_digest : Bytes → Bytes
  pub sha256_digest : Bytes → Bytes
  pub hmac_sha1 : Bytes → Bytes → Bytes
  pub hmac_sha256 : Bytes → Bytes → Bytes
  pub pbkdf2_sha1 : Bytes → Bytes → ℕ → Bytes
  pub pbkdf2_sha256 : Bytes → Bytes → ℕ → Bytes
  pub base64_encode : Bytes → Bytes
  pub base64_decode : Bytes → Option Bytes

-- The outputs of HMAC are byte strings of the digest's size; base64 is undone by its decoder, and
-- its alphabet has no comma.
pub record CryptoLaws (C : Crypto) : Type 0 where
  pub hmac_sha1_sized : (key input : Bytes) → length (C.hmac_sha1 key input) ≡ 20
  pub hmac_sha256_sized : (key input : Bytes) → length (C.hmac_sha256 key input) ≡ 32
  pub hmac_sha1_bytes : (key input : Bytes) → AreBytes (C.hmac_sha1 key input)
  pub hmac_sha256_bytes : (key input : Bytes) → AreBytes (C.hmac_sha256 key input)
  pub decode_encode : (b : Bytes) → AreBytes b → C.base64_decode (C.base64_encode b) ≡ some b
  pub encode_plain : (b : Bytes) → contains b',' (C.base64_encode b) ≡ false

-- `SCRAM-SHA-1` and `SCRAM-SHA-256`
unfoldable pub name : ScramMechanism → Bytes
name sha1 = b'S' ∷ b'C' ∷ b'R' ∷ b'A' ∷ b'M' ∷ b'-' ∷ b'S' ∷ b'H' ∷ b'A' ∷ b'-' ∷ b'1' ∷ []
name sha256 =
    b'S' ∷ b'C' ∷ b'R' ∷ b'A' ∷ b'M' ∷ b'-' ∷ b'S' ∷ b'H' ∷ b'A' ∷ b'-' ∷ b'2' ∷ b'5' ∷ b'6' ∷ []

unfoldable pub from_name : Bytes → Option ScramMechanism
unfolding name
from_name text =
    if bytes_eq text (name sha1)
    then some sha1
    else if bytes_eq text (name sha256)
    then some sha256
    else none

unfoldable pub default_iterations : ScramMechanism → ℕ
default_iterations sha1 = 10000
default_iterations sha256 = 15000

abbrev pub max_scram_iterations : ℕ
max_scram_iterations = 1000000

-- `n,,`
abbrev pub gs2_no_binding_header : Bytes
gs2_no_binding_header = b'n' ∷ b',' ∷ b',' ∷ []

-- `biws`
abbrev pub no_channel_binding_flag : Bytes
no_channel_binding_flag = b'b' ∷ b'i' ∷ b'w' ∷ b's' ∷ []

-- `Client Key` and `Server Key`
abbrev pub client_key_label : Bytes
client_key_label = b'C' ∷ b'l' ∷ b'i' ∷ b'e' ∷ b'n' ∷ b't' ∷ b' ' ∷ b'K' ∷ b'e' ∷ b'y' ∷ []

abbrev pub server_key_label : Bytes
server_key_label = b'S' ∷ b'e' ∷ b'r' ∷ b'v' ∷ b'e' ∷ b'r' ∷ b' ' ∷ b'K' ∷ b'e' ∷ b'y' ∷ []

-- `:mongo:`
abbrev mongo_label : Bytes
mongo_label = b':' ∷ b'm' ∷ b'o' ∷ b'n' ∷ b'g' ∷ b'o' ∷ b':' ∷ []

abbrev hex_char : ℕ → ℕ
hex_char d = if ltb d 10 then b'0' + d else b'a' + (d - 10)

unfoldable pub to_lower_hex : Bytes → Bytes
to_lower_hex [] = []
to_lower_hex (b ∷ bytes) = hex_char (b / 16) ∷ hex_char (b % 16) ∷ to_lower_hex bytes

-- `X=value`, where the key is one character.
pub record Attribute : Type 0 where
  pub key : Bytes
  pub value : Bytes

-- The number of bytes of the UTF-8 character that a byte leads.
unfoldable pub char_width : ℕ → ℕ
char_width b = if ltb b 0x80 then 1 else if ltb b 0xe0 then 2 else if ltb b 0xf0 then 3 else 4

equals_sign : Bytes → Bytes → Result AuthError Attribute
equals_sign key [] = err (invalid_message "malformed SCRAM attribute")
equals_sign key (c ∷ value) =
    if c == b'='
    then ok (record { key = key; value = value })
    else err (invalid_message "malformed SCRAM attribute")

-- One part of the list: a character, an equals sign and the value.
unfoldable pub parse_attribute : Bytes → Result AuthError Attribute
unfolding char_width equals_sign
parse_attribute [] = err (invalid_message "malformed SCRAM attribute")
parse_attribute (b ∷ attr) =
    equals_sign (take (char_width b) (b ∷ attr)) (drop (char_width b) (b ∷ attr))

unfoldable pub collect_attributes : List Bytes → Result AuthError (List Attribute)
unfolding parse_attribute
collect_attributes [] = ok []
collect_attributes (attr ∷ attrs) = do
  first ← parse_attribute attr
  rest ← collect_attributes attrs
  ok (first ∷ rest)

unfoldable pub parse_attributes : Bytes → Result AuthError (List Attribute)
unfolding collect_attributes
parse_attributes text = collect_attributes (split_on b',' text)

-- Whether the key is the given single-byte character.
abbrev pub has_key : Attribute → ℕ → Bool
has_key a c = bytes_eq a.key (c ∷ [])

-- `=` becomes `=3D` first, then `,` becomes `=2C`.
unfoldable pub escape_username : Bytes → Bytes
escape_username username =
    replace_byte b',' (b'=' ∷ b'2' ∷ b'C' ∷ [])
      (replace_byte b'=' (b'=' ∷ b'3' ∷ b'D' ∷ []) username)

pub record StoredCredentials : Type 0 where
  pub salt : Bytes
  pub iterations : ℕ
  pub stored_key : Bytes
  pub server_key : Bytes

module _ (C : Crypto) where
  unfoldable pub mongo_sha1_password : Bytes → Bytes → Bytes
  unfolding to_lower_hex
  mongo_sha1_password username password =
      to_lower_hex (C.md5_digest ((username ++ mongo_label) ++ password))

  unfoldable pub salted_password_of : ScramMechanism → Bytes → Bytes → ℕ → Bytes
  salted_password_of sha1 password salt iterations = C.pbkdf2_sha1 password salt iterations
  salted_password_of sha256 password salt iterations = C.pbkdf2_sha256 password salt iterations

  unfoldable pub hmac_bytes : ScramMechanism → Bytes → Bytes → Bytes
  hmac_bytes sha1 key input = C.hmac_sha1 key input
  hmac_bytes sha256 key input = C.hmac_sha256 key input

  unfoldable pub hash_bytes : ScramMechanism → Bytes → Bytes
  hash_bytes sha1 input = C.sha1_digest input
  hash_bytes sha256 input = C.sha256_digest input

  unfoldable pub effective_password : ScramMechanism → Bytes → Bytes → Bytes
  unfolding mongo_sha1_password
  effective_password sha1 username password = mongo_sha1_password username password
  effective_password sha256 username password = password

  unfoldable pub derive : ScramMechanism → Bytes → Bytes → ℕ → StoredCredentials
  unfolding salted_password_of hmac_bytes hash_bytes
  derive mechanism password salt iterations =
      let salted = salted_password_of mechanism password salt iterations in
      let client_key = hmac_bytes mechanism salted client_key_label in
      record {
        salt = salt;
        iterations = iterations;
        stored_key = hash_bytes mechanism client_key;
        server_key = hmac_bytes mechanism salted server_key_label;
      }
