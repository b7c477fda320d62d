-- ===== src/Lib.antt =====
-- mongowire: the MongoDB wire protocol, from bytes to messages and back.
--
-- The program has three layers. mongo_common reads and writes little-endian bytes and the scalar
-- values of BSON; wirebson holds raw and decoded documents; mongowire frames messages and parses
-- their bodies. A receive buffer goes through framing::parse_message, which validates the header,
-- waits for a whole frame, checks an OP_MSG's checksum, consumes the frame and hands the bytes
-- behind the header to the body's parser; encode_message goes the other way. The connection loop
-- api::process_socket takes such messages, unwraps compressed ones, answers the legacy handshake,
-- hands commands to a chain of handlers and frames their replies; one handler answers hello and
-- ping, another bridges saslStart and saslContinue to the SCRAM server of mongo_common.
--
-- Files, with the source that they model:
--   Base and below        no source: tests, lists by native numbers, results, words, UTF-8
--   Io, Io/Laws           mongo_common/src/io.rs
--   Scalar and below      mongo_common/src/bson/scalar.rs; Scalar/Convert: bson/convert.rs
--   Bson                  wirebson/src/value.rs, raw_value.rs, error.rs, lib.rs
--   Bson/Raw, Bson/Names  wirebson/src/raw.rs
--   Bson/Scan             wirebson/src/decode.rs, the scanner and the parser of one value
--   Bson/Decode           wirebson/src/decode.rs, the recursive decoder
--   Bson/Encode           wirebson/src/encode.rs, the encoder
--   Wire                  mongowire/src/error.rs, the enums of messages/header.rs and compression/mod.rs
--   Wire/Header           mongowire/src/messages/header.rs
--   Wire/Sections         mongowire/src/messages/op_msg.rs, flags, sections, one document
--   Wire/Msg              mongowire/src/messages/op_msg.rs, the body
--   Wire/Query, Reply     mongowire/src/messages/op_query.rs, op_reply.rs
--   Wire/Compressed       mongowire/src/messages/op_compressed.rs, compression/mod.rs
--   Wire/Body             mongowire/src/messages/mod.rs, unwrap_body of op_compressed.rs
--   Wire/Framing          mongowire/src/framing.rs
--   Bson/Document         wirebson/src/document.rs, array.rs, the operations
--   Auth, Auth/Plain      mongo_common/src/auth/mod.rs, plain.rs
--   Auth/Scram            mongo_common/src/auth/scram.rs: attributes and credentials, with the client
--                         in Scram/Client and the server in Scram/Server
--   Server                mongowire/src/error.rs, api/handler.rs, client_info.rs, response.rs
--   Server/Handshake      mongowire/src/api/mod.rs: negotiation and BuiltinHandler
--   Server/Sasl           mongowire/src/api/auth.rs, the bridge itself in Sasl/Bridge
--   Server/Socket         mongowire/src/api/mod.rs: process_socket; codec.rs
--   Examples              runs on concrete data
--
-- Bytes are lists of natural numbers; a theorem that needs each below 256 says so by AreBytes. A
-- slice cursor is passed and returned; a buffer that a writer fills is the longer list it returns;
-- an offset is a number, as in the source. Signed integers are pos n and negsuc n (which is
-- -(n + 1)), read from and written as two's complement patterns. usize has 64 bits. Floats are kept
-- as their 64-bit patterns.
--
-- A Result has a third outcome, stuck: a loop of the model that ran out of fuel. The decoder of
-- documents runs on fuel taken from the length of its input, the loops of OP_MSG on the length of
-- the body, the walk over field names on the length of the document.
--
-- The crc32c package is the parameter crc; the snappy, zlib and zstd packages are the record
-- Compressors, each absent where the build has its feature off. AreInverse says that a back end
-- undoes its compression, AllEnd that it returns bytes or an error, and IsTotal the latter of the
-- back ends and the user's handler; a theorem that relies on one of these names it.
--
-- The digests, PBKDF2 and base64 are the record Crypto; CryptoLaws says what a theorem relies on:
-- the sizes of the codes, and that base64 is undone by its decoder and has no comma. Nonces, the
-- clock and the user's handler are arguments. A method on `&mut self` returns the state it leaves.
-- The connection loop runs on the bytes that have arrived, with fuel for one turn more than there
-- are bytes; every turn takes a whole frame.
--
-- Not modelled: accepting connections (api::serve), writes that the network refuses, log rendering
-- and Display, conversions to floats, clocks and other packages' types, the macros and conversions
-- of wirebson, the test client.
pub mod Base
pub mod Io
pub mod Scalar
pub mod Bson
pub mod Wire
pub mod Auth
pub mod Server
pub mod Examples
