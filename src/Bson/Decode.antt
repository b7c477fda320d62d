-- ===== src/Bson/Decode.antt =====
-- wirebson/src/decode.rs and raw_value.rs: decoding a document into its fields. The loop over the
-- fields and the recursion into composites share one fuel; `decode_fuel` is enough of it
-- (Decode/Ends).
pub mod Ends
pub mod Shape
use mongowire.Base.{
  ℕ, zero, suc, ◌+◌, Bool, not, Option, none, some, Bytes, length, ltb, Result, ok, err, stuck,
  ◌>>=◌, ◌>>◌, guard, leb,
}
use mongowire.Bson.{
  Bson, Fields, Values, RawBsonRef, RawDocument, RawArray, Error, no_fields, field, no_values,
  value, nested_too_deep, max_nesting_depth,
}
use mongowire.Bson.Scan.{Scanner, scanner_new, next}

pub data Mode : Type 0 where
  shallow deep : Mode

-- `to_bson` on what is not a document or an array; those two are decoded by `to_bson` itself.
unfoldable pub plain_to_bson : RawBsonRef → Result Error Bson
plain_to_bson (RawBsonRef.double v) = ok (Bson.double v)
plain_to_bson (RawBsonRef.string v) = ok (Bson.string v)
plain_to_bson (RawBsonRef.binary v) = ok (Bson.binary v)
plain_to_bson RawBsonRef.undefined = ok Bson.undefined
plain_to_bson (RawBsonRef.object_id v) = ok (Bson.object_id v)
plain_to_bson (RawBsonRef.bool v) = ok (Bson.bool v)
plain_to_bson (RawBsonRef.date_time v) = ok (Bson.date_time v)
plain_to_bson RawBsonRef.null = ok Bson.null
plain_to_bson (RawBsonRef.regex v) = ok (Bson.regex v)
plain_to_bson (RawBsonRef.db_pointer v) = ok (Bson.db_pointer v)
plain_to_bson (RawBsonRef.javascript v) = ok (Bson.javascript v)
plain_to_bson (RawBsonRef.symbol v) = ok (Bson.symbol v)
plain_to_bson (RawBsonRef.javascript_scope code scope) = ok (Bson.javascript_scope code scope)
plain_to_bson (RawBsonRef.int32 v) = ok (Bson.int32 v)
plain_to_bson (RawBsonRef.timestamp v) = ok (Bson.timestamp v)
plain_to_bson (RawBsonRef.int64 v) = ok (Bson.int64 v)
plain_to_bson (RawBsonRef.decimal128 v) = ok (Bson.decimal128 v)
plain_to_bson RawBsonRef.min_key = ok Bson.min_key
plain_to_bson RawBsonRef.max_key = ok Bson.max_key
plain_to_bson (RawBsonRef.document d) = stuck
plain_to_bson (RawBsonRef.array a) = stuck

-- `deep` on what is not a document or an array.
unfoldable pub plain_deep : RawBsonRef → Result Error Bson
unfolding plain_to_bson
plain_deep (RawBsonRef.javascript_scope code scope) = ok (Bson.javascript_scope code scope)
plain_deep other = plain_to_bson other

unfoldable pub materialize_plain : Mode → RawBsonRef → Result Error Bson
unfolding plain_to_bson plain_deep
materialize_plain shallow other = plain_to_bson other
materialize_plain deep other = plain_deep other

-- The guard at the head of `decode_fields` and of `decode_array`.
abbrev pub depth_guard : ℕ → Result Error (Unit {0})
depth_guard depth = guard (not (ltb max_nesting_depth depth)) (nested_too_deep max_nesting_depth)

unfoldable mutual
  -- The loop of `decode_fields`.
  pub scan_fields : ℕ → Mode → ℕ → Scanner → Result Error Fields
  scan_fields zero mode depth sc = stuck
  scan_fields (suc fuel) mode depth sc = do
    p ← next sc
    elim p.0 [
      | none ↦ ok no_fields
      | some (name, raw) ↦ do
        v ← materialize fuel raw mode depth
        fs ← scan_fields fuel mode depth p.1
        ok (field name v fs)
    ]

  -- The loop of `decode_array`.
  pub scan_values : ℕ → Mode → ℕ → Scanner → Result Error Values
  scan_values zero mode depth sc = stuck
  scan_values (suc fuel) mode depth sc = do
    p ← next sc
    elim p.0 [
      | none ↦ ok no_values
      | some (name, raw) ↦ do
        v ← materialize fuel raw mode depth
        vs ← scan_values fuel mode depth p.1
        ok (value v vs)
    ]

  pub materialize : ℕ → RawBsonRef → Mode → ℕ → Result Error Bson
  materialize zero raw mode depth = stuck
  materialize (suc fuel) (RawBsonRef.document d) mode depth = do
    depth_guard (suc depth)
    fs ← scan_fields fuel mode (suc depth) (scanner_new d.bytes)
    ok (Bson.document fs)
  materialize (suc fuel) (RawBsonRef.array a) mode depth = do
    depth_guard (suc depth)
    vs ← scan_values fuel mode (suc depth) (scanner_new a.bytes)
    ok (Bson.array vs)
  materialize (suc fuel) (RawBsonRef.javascript_scope code scope) mode depth =
      ok (Bson.javascript_scope code scope)
  materialize (suc fuel) other mode depth = materialize_plain mode other

abbrev pub decode_fuel : Bytes → ℕ
decode_fuel bytes = suc (length bytes)

unfoldable pub decode_document : Bytes → Mode → ℕ → Result Error Fields
unfolding scan_fields
decode_document bytes mode depth = do
  depth_guard depth
  scan_fields (decode_fuel bytes) mode depth (scanner_new bytes)

unfoldable pub decode_array : Bytes → Mode → ℕ → Result Error Values
unfolding scan_values
decode_array bytes mode depth = do
  depth_guard depth
  scan_values (decode_fuel bytes) mode depth (scanner_new bytes)

-- `RawDocument::shallow`, `RawDocument::deep`, and the same of arrays.
unfoldable pub shallow_document : RawDocument → Result Error Fields
shallow_document d = decode_document d.bytes shallow 1

unfoldable pub deep_document : RawDocument → Result Error Fields
deep_document d = decode_document d.bytes deep 1

unfoldable pub shallow_array : RawArray → Result Error Values
shallow_array a = decode_array a.bytes shallow 1

unfoldable pub deep_array : RawArray → Result Error Values
deep_array a = decode_array a.bytes deep 1

unfoldable pub to_bson : RawBsonRef → Result Error Bson
to_bson (RawBsonRef.document d) = do fs ← shallow_document d; ok (Bson.document fs)
to_bson (RawBsonRef.array a) = do vs ← shallow_array a; ok (Bson.array vs)
to_bson other = plain_to_bson other

unfoldable pub to_bson_deep : RawBsonRef → Result Error Bson
to_bson_deep (RawBsonRef.document d) = do fs ← deep_document d; ok (Bson.document fs)
to_bson_deep (RawBsonRef.array a) = do vs ← deep_array a; ok (Bson.array vs)
to_bson_deep other = plain_deep other
