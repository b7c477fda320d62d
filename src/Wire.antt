-- ===== src/Wire.antt =====
-- mongowire/src: the wire protocol. This file has the errors (error.rs), the constants of
-- mongo_common/src/consts.rs, and the two enums that the wire numbers: opcodes (messages/header.rs)
-- and compressors (compression/mod.rs).
pub mod Header
pub mod Sections
pub mod Msg
pub mod Query
pub mod Reply
pub mod Compressed
pub mod Body
pub mod Framing
use mongowire.Base.{
  ℕ, Bool, true, false, Option, none, some, ℤ, pos, negsuc, String, Bytes, ◌==◌, if◌then◌else◌,
  Result, map_err, ◌≡◌, refl, arith,
}
use mongowire.Io.{ReadError}
use mongowire.Bson.{Error}
use mongowire.Scalar.{ScalarError}

abbrev pub msg_header_len : ℕ
msg_header_len = 16

abbrev pub max_msg_len : ℤ
max_msg_len = pos 48000000

pub data ProtocolError : Type 0 where
  invalid_header : String → ProtocolError
  message_too_large : ℤ → ℤ → ProtocolError
  unsupported_opcode : ℤ → ProtocolError
  invalid_op_msg : String → ProtocolError
  invalid_body : String → ProtocolError
  checksum_mismatch : ℕ → ℕ → ProtocolError
  unsupported_compressor : ℕ → ProtocolError
  compression : String → ProtocolError
  decompressed_size_mismatch : ℕ → ℕ → ProtocolError
  bson : Error → ProtocolError
  scalar : ScalarError → ProtocolError
  io : ReadError → ProtocolError

-- `From<ReadError> for ProtocolError`
unfoldable pub of_read : ReadError → ProtocolError
of_read e = io e

abbrev pub lift_read : {A : Type 0} → Result ReadError A → Result ProtocolError A
lift_read = map_err of_read

pub data Opcode : Type 0 where
  reply : Opcode
  update : Opcode
  insert : Opcode
  reserved : Opcode
  query : Opcode
  get_more : Opcode
  delete : Opcode
  kill_cursors : Opcode
  compressed : Opcode
  msg : Opcode

unfoldable pub to_i32 : Opcode → ℤ
to_i32 Opcode.reply = pos 1
to_i32 Opcode.update = pos 2001
to_i32 Opcode.insert = pos 2002
to_i32 Opcode.reserved = pos 2003
to_i32 Opcode.query = pos 2004
to_i32 Opcode.get_more = pos 2005
to_i32 Opcode.delete = pos 2006
to_i32 Opcode.kill_cursors = pos 2007
to_i32 Opcode.compressed = pos 2012
to_i32 Opcode.msg = pos 2013

unfoldable pub from_i32 : ℤ → Option Opcode
from_i32 (negsuc n) = none
from_i32 (pos v) =
    if v == 1
    then some Opcode.reply
    else if v == 2001
    then some Opcode.update
    else if v == 2002
    then some Opcode.insert
    else if v == 2003
    then some Opcode.reserved
    else if v == 2004
    then some Opcode.query
    else if v == 2005
    then some Opcode.get_more
    else if v == 2006
    then some Opcode.delete
    else if v == 2007
    then some Opcode.kill_cursors
    else if v == 2012
    then some Opcode.compressed
    else if v == 2013
    then some Opcode.msg
    else none

pub data CompressorId : Type 0 where
  noop : CompressorId
  snappy : CompressorId
  zlib : CompressorId
  zstd : CompressorId

unfoldable pub to_u8 : CompressorId → ℕ
to_u8 noop = 0
to_u8 snappy = 1
to_u8 zlib = 2
to_u8 zstd = 3

unfoldable pub from_u8 : ℕ → Option CompressorId
from_u8 v =
    if v == 0
    then some noop
    else if v == 1
    then some snappy
    else if v == 2
    then some zlib
    else if v == 3
    then some zstd
    else none

pub from_i32-to_i32 : (o : Opcode) → from_i32 (to_i32 o) ≡ some o
unfolding from_i32 to_i32
from_i32-to_i32 Opcode.reply = refl
from_i32-to_i32 Opcode.update = refl
from_i32-to_i32 Opcode.insert = refl
from_i32-to_i32 Opcode.reserved = refl
from_i32-to_i32 Opcode.query = refl
from_i32-to_i32 Opcode.get_more = refl
from_i32-to_i32 Opcode.delete = refl
from_i32-to_i32 Opcode.kill_cursors = refl
from_i32-to_i32 Opcode.compressed = refl
from_i32-to_i32 Opcode.msg = refl

pub to_i32-from_i32 : (v : ℤ) (o : Opcode) → from_i32 v ≡ some o → to_i32 o ≡ v
unfolding from_i32 to_i32
to_i32-from_i32 (pos v) o h = ground arith
to_i32-from_i32 (negsuc v) o h = cc

pub from_u8-to_u8 : (id : CompressorId) → from_u8 (to_u8 id) ≡ some id
unfolding from_u8 to_u8
from_u8-to_u8 noop = refl
from_u8-to_u8 snappy = refl
from_u8-to_u8 zlib = refl
from_u8-to_u8 zstd = refl

pub to_u8-from_u8 : (v : ℕ) (id : CompressorId) → from_u8 v ≡ some id → to_u8 id ≡ v
unfolding from_u8 to_u8
to_u8-from_u8 v id h = ground arith
