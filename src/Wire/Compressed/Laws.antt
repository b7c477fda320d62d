-- ===== src/Wire/Compressed/Laws.antt =====
-- mongowire/src/messages/op_compressed.rs: the wrapper written and parsed, and what a decompression
-- returns.
use mongowire.Base.{
  ℕ, ◌-◌, ◌≡◌, refl, ==_refl, Option, none, some, ap, ◌∙◌, false, [], ◌∷◌, ◌++◌, append_assoc,
  Bytes, pos, Fits, ltb_ℤ, i32_half, pattern_of, length, drop, ◌==◌, ok, guard, bind_ok, ==→eq,
  guard-eq-ok, length-append, length-to_le, drop-append, arith,
}
use mongowire.Io.{put_u8, put_bytes, put_i32_le, i32_to_le, read_i32_le, read_u8}
use mongowire.Io.Laws.{read_i32_le-append, read_u8-cons}
use mongowire.Wire.{
  CompressorId, noop, snappy, zlib, zstd, to_i32, to_u8, decompressed_size_mismatch,
  from_i32-to_i32, from_u8-to_u8,
}
use mongowire.Wire.Header.{opcode-Fits}
use mongowire.Wire.Compressed.{
  OpCompressed, Compressors, body_len, encode_body, parse_body, decompress, decompress_arm, Backend,
  compress, noop_compress, pack_with, unpack_with,
}

abbrev pub compressed_bytes : OpCompressed → Bytes
compressed_bytes m =
    i32_to_le (to_i32 m.original_opcode)
    ++ (i32_to_le m.uncompressed_size ++ to_u8 m.compressor_id ∷ m.compressed_message)

pub encode_body-bytes :
    (m : OpCompressed) (out : Bytes) → encode_body m out ≡ out ++ compressed_bytes m
unfolding encode_body put_i32_le put_bytes put_u8
encode_body-bytes m out = simp append_assoc

pub length-compressed_bytes : (m : OpCompressed) → length (compressed_bytes m) ≡ body_len m
unfolding body_len
length-compressed_bytes m = omega (
  arith,
  length-append (i32_to_le (to_i32 m.original_opcode))
      (i32_to_le m.uncompressed_size ++ to_u8 m.compressor_id ∷ m.compressed_message),
  length-append (i32_to_le m.uncompressed_size) (to_u8 m.compressor_id ∷ m.compressed_message),
  length-to_le 4 (pattern_of i32_half (to_i32 m.original_opcode)),
  length-to_le 4 (pattern_of i32_half m.uncompressed_size),
)

-- The declared size is a non-negative i32.
abbrev pub IsCompressed : OpCompressed → Type 0
IsCompressed m = Fits i32_half m.uncompressed_size × (ltb_ℤ m.uncompressed_size (pos 0) ≡ false)

parse_body_steps :
    (m : OpCompressed) (body r1 r2 : Bytes)
    → read_i32_le body ≡ ok (to_i32 m.original_opcode, r1)
    → read_i32_le r1 ≡ ok (m.uncompressed_size, r2)
    → ltb_ℤ m.uncompressed_size (pos 0) ≡ false
    → read_u8 r2 ≡ ok (to_u8 m.compressor_id, m.compressed_message)
    → drop (length body - length m.compressed_message) body ≡ m.compressed_message
    → parse_body body ≡ ok m
unfolding parse_body
parse_body_steps m body r1 r2 h1 h2 h3 h4 h5 =
    ground
      (arith, h1, from_i32-to_i32 m.original_opcode, h2, h3, h4, from_u8-to_u8 m.compressor_id, h5)

-- A wrapper with a non-negative declared size is parsed back from the bytes that `encode_body`
-- writes, whatever its payload.
pub parse_body-encode_body_compressed :
    (m : OpCompressed) → IsCompressed m → parse_body (encode_body m []) ≡ ok m
parse_body-encode_body_compressed m (fits, sign) =
    let r2 = to_u8 m.compressor_id ∷ m.compressed_message in
    let r1 = i32_to_le m.uncompressed_size ++ r2 in
    let head =
      i32_to_le (to_i32 m.original_opcode)
      ++ (i32_to_le m.uncompressed_size ++ to_u8 m.compressor_id ∷ []) in
    let split : compressed_bytes m ≡ head ++ m.compressed_message = simp append_assoc in
    let len : length head ≡ length (compressed_bytes m) - length m.compressed_message =
      omega (arith, ap length split, length-append head m.compressed_message) in
    rw (encode_body-bytes m []) (
      parse_body_steps m (compressed_bytes m) r1 r2
        (read_i32_le-append (to_i32 m.original_opcode) r1 (opcode-Fits m.original_opcode))
        (read_i32_le-append m.uncompressed_size r2 fits) sign
        (read_u8-cons (to_u8 m.compressor_id) m.compressed_message)
        (rw (← len) (ap (drop (length head)) split ∙ drop-append head m.compressed_message)))

-- Whatever the back end returns, a decompression that succeeds has the expected length.
pub length-decompress :
    (c : Compressors) (id : CompressorId) (input out : Bytes) (n : ℕ)
    → decompress c id input n ≡ ok out
    → length out ≡ n
unfolding decompress
length-decompress c id input out n h = bind_ok (decompress_arm c id input n) _ h λ o e f.
    bind_ok (guard (length o == n) (decompressed_size_mismatch n (length o))) _ f λ u e2 f2.
      let same : o ≡ out = ground (arith, f2) in
      rw same at (==→eq (length o) n (guard-eq-ok _ _ e2))

-- What the back end of an id makes of a payload; noop leaves it as it is.
abbrev UnpacksBy : Option Backend → Bytes → ℕ → Bytes → Type 0
UnpacksBy o packed n plain = (b : Backend) × (o ≡ some b) × (b.unpack packed n ≡ ok plain)

abbrev pub Unpacks : Compressors → CompressorId → Bytes → ℕ → Bytes → Type 0
Unpacks c noop packed n plain = packed ≡ plain
Unpacks c snappy packed n plain = UnpacksBy c.for_snappy packed n plain
Unpacks c zlib packed n plain = UnpacksBy c.for_zlib packed n plain
Unpacks c zstd packed n plain = UnpacksBy c.for_zstd packed n plain

unpack_with-UnpacksBy :
    (o : Option Backend) (id : CompressorId) (packed plain : Bytes) (n : ℕ)
    → unpack_with o id packed n ≡ ok plain
    → UnpacksBy o packed n plain
unpack_with-UnpacksBy none id packed plain n h = cc
unpack_with-UnpacksBy (some b) id packed plain n h = (b, refl, h)

decompress_arm-Unpacks :
    (c : Compressors) (id : CompressorId) (packed plain : Bytes) (n : ℕ)
    → decompress_arm c id packed n ≡ ok plain
    → Unpacks c id packed n plain
unfolding decompress_arm noop_compress
decompress_arm-Unpacks c noop packed plain n h = cc
decompress_arm-Unpacks c snappy packed plain n h =
    unpack_with-UnpacksBy c.for_snappy snappy packed plain n h
decompress_arm-Unpacks c zlib packed plain n h =
    unpack_with-UnpacksBy c.for_zlib zlib packed plain n h
decompress_arm-Unpacks c zstd packed plain n h =
    unpack_with-UnpacksBy c.for_zstd zstd packed plain n h

pub decompress-Unpacks :
    (c : Compressors) (id : CompressorId) (packed plain : Bytes) (n : ℕ)
    → decompress c id packed n ≡ ok plain
    → Unpacks c id packed n plain
unfolding decompress
decompress-Unpacks c id packed plain n h = bind_ok (decompress_arm c id packed n) _ h λ out e1 f1.
    bind_ok (guard (length out == n) (decompressed_size_mismatch n (length out))) _ f1
      λ u e2 f2. decompress_arm-Unpacks c id packed plain n (cc (e1, f2))

-- A back end gives back what it packed, when asked for as many bytes.
abbrev pub IsInverse : Option Backend → Type 0
IsInverse none = Unit {0}
IsInverse (some b) =
    (plain packed : Bytes) → b.pack plain ≡ ok packed → b.unpack packed (length plain) ≡ ok plain

pub record AreInverse (c : Compressors) : Type 0 where
  pub snappy_back : IsInverse c.for_snappy
  pub zlib_back : IsInverse c.for_zlib
  pub zstd_back : IsInverse c.for_zstd

unpack_with-pack_with :
    (o : Option Backend) (id : CompressorId) (plain packed : Bytes)
    → IsInverse o
    → pack_with o id plain ≡ ok packed
    → unpack_with o id packed (length plain) ≡ ok plain
unpack_with-pack_with none id plain packed back h = cc
unpack_with-pack_with (some b) id plain packed back h = back plain packed h

decompress_arm-compress :
    (c : Compressors) (id : CompressorId) (plain packed : Bytes)
    → AreInverse c
    → compress c id plain ≡ ok packed
    → decompress_arm c id packed (length plain) ≡ ok plain
unfolding decompress_arm compress noop_compress
decompress_arm-compress c noop plain packed back h = cc
decompress_arm-compress c snappy plain packed back h =
    unpack_with-pack_with c.for_snappy snappy plain packed back.snappy_back h
decompress_arm-compress c zlib plain packed back h =
    unpack_with-pack_with c.for_zlib zlib plain packed back.zlib_back h
decompress_arm-compress c zstd plain packed back h =
    unpack_with-pack_with c.for_zstd zstd plain packed back.zstd_back h

pub decompress-compress :
    (c : Compressors) (id : CompressorId) (plain packed : Bytes)
    → AreInverse c
    → compress c id plain ≡ ok packed
    → decompress c id packed (length plain) ≡ ok plain
unfolding decompress
decompress-compress c id plain packed back h =
    rw (decompress_arm-compress c id plain packed back h, ==_refl (length plain)) refl
