-- ===== src/Wire/Compressed/Ends.antt =====
-- mongowire/src/compression/mod.rs: a decompression ends over back ends that end, with bytes or an
-- error.
use mongowire.Base.{
  ℕ, ◌≡◌, ◌≢◌, none, some, Bool, true, false, Bytes, AreBytes, Result, ok, stuck, Option, length,
  guard, bind_ok, >>=-ne-stuck, ◌==◌, subst,
}
use mongowire.Wire.{
  ProtocolError, CompressorId, noop, snappy, zlib, zstd, decompressed_size_mismatch,
}
use mongowire.Wire.Compressed.{
  Compressors, Backend, decompress, decompress_arm, noop_compress, unpack_with,
}

pub ok-ne-stuck : {A : Type 0} (a : A) → ◌≢◌ {A = Result ProtocolError A} (ok a) stuck
ok-ne-stuck a = λ p. cc

pub guard-ne-stuck : (b : Bool) (e : ProtocolError) → guard b e ≢ stuck
guard-ne-stuck true e = λ p. cc
guard-ne-stuck false e = λ p. cc

-- A back end ends, with bytes or with an error.
abbrev pub Ends : Option Backend → Type 0
Ends none = Unit {0}
Ends (some b) =
    (packed : Bytes) (n : ℕ)
    → (b.unpack packed n ≢ stuck)
      × ((plain : Bytes) → b.unpack packed n ≡ ok plain → AreBytes plain)

pub record AllEnd (c : Compressors) : Type 0 where
  pub snappy_ends : Ends c.for_snappy
  pub zlib_ends : Ends c.for_zlib
  pub zstd_ends : Ends c.for_zstd

abbrev pub IsPlain : Result ProtocolError Bytes → Type 0
IsPlain r = (r ≢ stuck) × ((plain : Bytes) → r ≡ ok plain → AreBytes plain)

unpack_with-IsPlain :
    (o : Option Backend) (id : CompressorId) (packed : Bytes) (n : ℕ)
    → Ends o
    → IsPlain (unpack_with o id packed n)
unpack_with-IsPlain none id packed n h = ((λ p. cc), λ plain e. cc)
unpack_with-IsPlain (some b) id packed n h = h packed n

decompress_arm-IsPlain :
    (c : Compressors) (id : CompressorId) (packed : Bytes) (n : ℕ)
    → AllEnd c
    → AreBytes packed
    → IsPlain (decompress_arm c id packed n)
unfolding decompress_arm noop_compress
decompress_arm-IsPlain c noop packed n h hb =
    ((λ p. cc), λ plain e. let same : packed ≡ plain = cc e in subst AreBytes same hb)
decompress_arm-IsPlain c snappy packed n h hb =
    unpack_with-IsPlain c.for_snappy snappy packed n h.snappy_ends
decompress_arm-IsPlain c zlib packed n h hb =
    unpack_with-IsPlain c.for_zlib zlib packed n h.zlib_ends
decompress_arm-IsPlain c zstd packed n h hb =
    unpack_with-IsPlain c.for_zstd zstd packed n h.zstd_ends

pub decompress-IsPlain :
    (c : Compressors) (id : CompressorId) (packed : Bytes) (n : ℕ)
    → AllEnd c
    → AreBytes packed
    → IsPlain (decompress c id packed n)
unfolding decompress
decompress-IsPlain c id packed n h hb =
    let (ends, plain_bytes) = decompress_arm-IsPlain c id packed n h hb in
    (
      >>=-ne-stuck _ _ ends (λ out e.
          >>=-ne-stuck _ _
            (guard-ne-stuck (length out == n) (decompressed_size_mismatch n (length out)))
            λ u e2. ok-ne-stuck _),
      λ plain e. bind_ok (decompress_arm c id packed n) _ e λ out e1 f1.
          bind_ok (guard (length out == n) (decompressed_size_mismatch n (length out))) _ f1
            λ u e2 f2. plain_bytes plain (cc (e1, f2)),
    )
