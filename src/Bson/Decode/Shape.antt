-- ===== src/Bson/Decode/Shape.antt =====
-- wirebson/src/decode.rs: the two modes decode alike.
use mongowire.Base.{
  ℕ, zero, suc, ◌≡◌, refl, Option, none, some, Bytes, Result, ok, ◌>>=◌, bind_cong,
}
use mongowire.Bson.{
  Fields, Values, RawBsonRef, RawDocument, Error, no_fields, no_values, field, value,
}
use mongowire.Bson.Scan.{Scanner, scanner_new, next}
use mongowire.Bson.Decode.{
  shallow, deep, scan_fields, scan_values, materialize, materialize_plain, plain_to_bson,
  plain_deep, decode_document, shallow_document, deep_document, decode_fuel,
}

plain_deep-plain_to_bson : (raw : RawBsonRef) → plain_to_bson raw ≡ plain_deep raw
unfolding plain_deep plain_to_bson
plain_deep-plain_to_bson (RawBsonRef.javascript_scope code scope) = refl
plain_deep-plain_to_bson _ = refl

-- At this much fuel the mode does not matter.
record Alike (fuel : ℕ) : Type 0 where
  fields :
      (depth : ℕ) (sc : Scanner)
      → scan_fields fuel shallow depth sc ≡ scan_fields fuel deep depth sc
  values :
      (depth : ℕ) (sc : Scanner)
      → scan_values fuel shallow depth sc ≡ scan_values fuel deep depth sc
  one :
      (depth : ℕ) (raw : RawBsonRef)
      → materialize fuel raw shallow depth ≡ materialize fuel raw deep depth

module _ (fuel : ℕ) (ih : Alike fuel) where
  fields_step :
      (depth : ℕ) (sc : Scanner)
      → scan_fields (suc fuel) shallow depth sc ≡ scan_fields (suc fuel) deep depth sc
  unfolding scan_fields
  fields_step depth sc = bind_cong (next sc) _ _ λ p e. after p.0 p.1
    where
      after :
          (o : Option (Bytes × RawBsonRef)) (sc' : Scanner)
          → ◌≡◌ {A = Result Error Fields}
              (elim o [
                | none ↦ ok no_fields
                | some (name, raw) ↦ materialize fuel raw shallow depth >>= λ v.
                    scan_fields fuel shallow depth sc' >>= λ fs. ok (field name v fs)
              ])
              (elim o [
                | none ↦ ok no_fields
                | some (name, raw) ↦ materialize fuel raw deep depth >>= λ v.
                    scan_fields fuel deep depth sc' >>= λ fs. ok (field name v fs)
              ])
      after none sc' = refl
      after (some (name, raw)) sc' = rw (ih.one depth raw, ih.fields depth sc')

  values_step :
      (depth : ℕ) (sc : Scanner)
      → scan_values (suc fuel) shallow depth sc ≡ scan_values (suc fuel) deep depth sc
  unfolding scan_values
  values_step depth sc = bind_cong (next sc) _ _ λ p e. after p.0 p.1
    where
      after :
          (o : Option (Bytes × RawBsonRef)) (sc' : Scanner)
          → ◌≡◌ {A = Result Error Values}
              (elim o [
                | none ↦ ok no_values
                | some (name, raw) ↦ materialize fuel raw shallow depth >>= λ v.
                    scan_values fuel shallow depth sc' >>= λ vs. ok (value v vs)
              ])
              (elim o [
                | none ↦ ok no_values
                | some (name, raw) ↦ materialize fuel raw deep depth >>= λ v.
                    scan_values fuel deep depth sc' >>= λ vs. ok (value v vs)
              ])
      after none sc' = refl
      after (some (name, raw)) sc' = rw (ih.one depth raw, ih.values depth sc')

  one_step :
      (depth : ℕ) (raw : RawBsonRef)
      → materialize (suc fuel) raw shallow depth ≡ materialize (suc fuel) raw deep depth
  unfolding materialize materialize_plain
  one_step depth (RawBsonRef.document d) = rw (ih.fields (suc depth) (scanner_new d.bytes))
  one_step depth (RawBsonRef.array a) = rw (ih.values (suc depth) (scanner_new a.bytes))
  one_step depth (RawBsonRef.javascript_scope code scope) = refl
  one_step depth raw = plain_deep-plain_to_bson raw

alike : (fuel : ℕ) → Alike fuel
unfolding scan_fields scan_values materialize
alike zero = record {
  fields = λ depth sc. refl;
  values = λ depth sc. refl;
  one = λ depth raw. refl;
}
alike (suc fuel) = record {
  fields = fields_step fuel (alike fuel);
  values = values_step fuel (alike fuel);
  one = one_step fuel (alike fuel);
}

-- For every document, decoding shallowly and decoding deeply have the same result, errors included:
-- nested documents and arrays are decoded in both.
pub shallow_document-deep_document : (d : RawDocument) → shallow_document d ≡ deep_document d
unfolding shallow_document deep_document decode_document
shallow_document-deep_document d = (alike (decode_fuel d.bytes)).fields 1 (scanner_new d.bytes)
