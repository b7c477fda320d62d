-- ===== src/Wire/Compressed.antt =====
-- mongowire/src/compression/mod.rs and mongowire/src/messages/op_compressed.rs: the choice of the
-- compressor and the wrapper of another opcode's body. The compressors snappy, zlib and zstd belong
-- to other packages, each behind a feature of the build: `Compressors` stands for them.
pub mod Laws
pub mod Ends
use mongowire.Base.{
  ℕ, ◌+◌, ◌-◌, Bool, not, true, false, Option, none, some, [], ◌∷◌, ◌++◌, Bytes, ℤ, pos, ltb_ℤ,
  as_usize, fits_i32, length, drop, ◌==◌, if◌then◌else◌, Result, ok, err, stuck, ◌>>=◌, ◌>>◌, guard,
}
use mongowire.Io.{put_u8, put_bytes, put_i32_le, read_i32_le, read_u8, remaining}
use mongowire.Wire.{
  ProtocolError, Opcode, CompressorId, noop, snappy, zlib, zstd, to_i32, from_i32, to_u8, from_u8,
  lift_read, compression, unsupported_opcode, unsupported_compressor, decompressed_size_mismatch,
  invalid_op_msg,
}

-- A back end that the build may have: its compression and its decompression to an expected length.
pub record Backend : Type 0 where
  pub pack : Bytes → Result ProtocolError Bytes
  pub unpack : Bytes → ℕ → Result ProtocolError Bytes

-- The back ends of this build: `none` where the feature is off.
pub record Compressors : Type 0 where
  pub for_snappy : Option Backend
  pub for_zlib : Option Backend
  pub for_zstd : Option Backend

-- `noop::compress`
unfoldable pub noop_compress : Bytes → Bytes
noop_compress input = input

unfoldable pub is_enabled : Compressors → CompressorId → Bool
is_enabled c noop = true
is_enabled c snappy = elim c.for_snappy [ none ↦ false | some b ↦ true ]
is_enabled c zlib = elim c.for_zlib [ none ↦ false | some b ↦ true ]
is_enabled c zstd = elim c.for_zstd [ none ↦ false | some b ↦ true ]

-- An arm of `compress`, and of `decompress`, for an id whose feature may be off.
abbrev pub pack_with : Option Backend → CompressorId → Bytes → Result ProtocolError Bytes
pack_with none id input = err (unsupported_compressor (to_u8 id))
pack_with (some b) id input = b.pack input

abbrev pub unpack_with : Option Backend → CompressorId → Bytes → ℕ → Result ProtocolError Bytes
unpack_with none id input n = err (unsupported_compressor (to_u8 id))
unpack_with (some b) id input n = b.unpack input n

unfoldable pub compress : Compressors → CompressorId → Bytes → Result ProtocolError Bytes
unfolding noop_compress
compress c noop input = ok (noop_compress input)
compress c snappy input = pack_with c.for_snappy snappy input
compress c zlib input = pack_with c.for_zlib zlib input
compress c zstd input = pack_with c.for_zstd zstd input

-- The match of `decompress`, before the check of the length.
unfoldable pub decompress_arm : Compressors → CompressorId → Bytes → ℕ → Result ProtocolError Bytes
unfolding noop_compress
decompress_arm c noop input n = ok (noop_compress input)
decompress_arm c snappy input n = unpack_with c.for_snappy snappy input n
decompress_arm c zlib input n = unpack_with c.for_zlib zlib input n
decompress_arm c zstd input n = unpack_with c.for_zstd zstd input n

unfoldable pub decompress : Compressors → CompressorId → Bytes → ℕ → Result ProtocolError Bytes
unfolding decompress_arm
decompress c id input expected_len = do
  out ← decompress_arm c id input expected_len
  guard (length out == expected_len) (decompressed_size_mismatch expected_len (length out))
  ok out

pub record OpCompressed : Type 0 where
  pub original_opcode : Opcode
  pub uncompressed_size : ℤ
  pub compressor_id : CompressorId
  pub compressed_message : Bytes

unfoldable pub wrap :
    Compressors → Opcode → Bytes → CompressorId → Result ProtocolError OpCompressed
unfolding compress
wrap c opcode body id = do
  guard (fits_i32 (length body)) (compression "body larger than i32::MAX")
  message ← compress c id body
  ok (record {
    original_opcode = opcode;
    uncompressed_size = pos (length body);
    compressor_id = id;
    compressed_message = message;
  })

unfoldable pub body_len : OpCompressed → ℕ
body_len m = 4 + 4 + 1 + length m.compressed_message

unfoldable pub encode_body : OpCompressed → Bytes → Bytes
unfolding put_bytes put_u8 put_i32_le
encode_body m out =
    put_bytes
      (put_u8 (put_i32_le (put_i32_le out (to_i32 m.original_opcode)) m.uncompressed_size)
        (to_u8 m.compressor_id))
      m.compressed_message

abbrev pub opcode_of : ℤ → Result ProtocolError Opcode
opcode_of raw = elim (from_i32 raw) [ none ↦ err (unsupported_opcode raw) | some o ↦ ok o ]

abbrev pub compressor_of : ℕ → Result ProtocolError CompressorId
compressor_of raw = elim (from_u8 raw) [ none ↦ err (unsupported_compressor raw) | some id ↦ ok id ]

unfoldable pub parse_body : Bytes → Result ProtocolError OpCompressed
unfolding remaining
parse_body body = do
  (raw_opcode, r) ← lift_read (read_i32_le body)
  original_opcode ← opcode_of raw_opcode
  (uncompressed_size, r) ← lift_read (read_i32_le r)
  guard (not (ltb_ℤ uncompressed_size (pos 0))) (invalid_op_msg "negative uncompressedSize")
  (raw_id, r) ← lift_read (read_u8 r)
  compressor_id ← compressor_of raw_id
  let start = length body - remaining r
  ok (record {
    original_opcode = original_opcode;
    uncompressed_size = uncompressed_size;
    compressor_id = compressor_id;
    compressed_message = drop start body;
  })
