-- ===== src/Bson/Decode/Ends.antt =====
-- wirebson/src/decode.rs: the decoder ends on every input. Each field takes at least two bytes of the
-- body, and a nested document is shorter than what is left of its parent.
use mongowire.Base.{
  ℕ, zero, suc, ◌+◌, ◌-◌, ◌<◌, ◌≤◌, ◌≡◌, ◌≢◌, ◌⊎◌, inl, inr, refl, Bool, true, false, Option, none,
  some, Bytes, length, take, drop, length-take, length-drop, get_elem?, guard, Result, ok, stuck,
  ◌>>=◌, >>=-ne-stuck, bind_ok, arith, position_nul, is_utf8, Option-cases, [], ◌∷◌,
}
use mongowire.Io.{read_bytes, read_u8, read_u32_le, read_i32_le, read_i64_le, read_cstring}
use mongowire.Scalar.{Tag, subtype_from_u8, tag_from_u8}
use mongowire.Bson.{
  Fields, Values, RawBsonRef, RawArray, Error, no_fields, field, no_values, value, lift_read, utf8,
}
use mongowire.Bson.Raw.{from_bytes, array_from_bytes, from_bytes_iff}
use mongowire.Bson.Scan.{
  Scanner, scanner_new, next, next_field, field_at, parse_value, value_arm, doc_len, read_str,
  read_cstr, read_binary, binary_payload, read_bool, parse_scope, slice,
}
use mongowire.Bson.Decode.{
  Mode, scan_fields, scan_values, materialize, materialize_plain, plain_to_bson, plain_deep,
  decode_document, decode_array, decode_fuel, shallow, deep, depth_guard,
}

-- Two more than the bytes that a composite brings along.
abbrev weight : RawBsonRef → ℕ
weight (RawBsonRef.document d) = length d.bytes + 2
weight (RawBsonRef.array a) = length a.bytes + 2
weight _ = 1

abbrev WithinRest : RawBsonRef → ℕ → Type 0
WithinRest v n = (weight v ≡ 1) ⊎ ((weight v ≤ n + 2) × (5 ≤ n))

doc_len-ok : (rest : Bytes) (abs l : ℕ) → doc_len rest abs ≡ ok l → (5 ≤ l) × (l ≤ length rest)
unfolding doc_len
doc_len-ok rest abs l h = ground arith

length-slice : (from l : ℕ) (b : Bytes) → length (slice from (from + l) b) ≤ l
length-slice from l b = omega (arith, length-take (from + l - from) (drop from b))

array_bytes : (b : Bytes) (a : RawArray) → array_from_bytes b ≡ ok a → a.bytes ≡ b
unfolding array_from_bytes
array_bytes b a h = bind_ok (from_bytes b) _ h λ d e f. ground (arith, f, (from_bytes_iff b d).0 e)

value_arm-WithinRest :
    (t : Tag) (rest parent : Bytes) (abs : ℕ) (v : RawBsonRef) (r : Bytes)
    → value_arm t rest parent abs ≡ ok (v, r)
    → WithinRest v (length rest)
unfolding value_arm
value_arm-WithinRest Tag.document rest parent abs v r h = bind_ok (doc_len rest abs) _ h λ l e f.
    bind_ok (lift_read (read_bytes l rest)) _ f λ p e2 f2.
      bind_ok (from_bytes (slice abs (abs + l) parent)) _ f2 λ d e3 f3.
        ground
          (arith, f3, doc_len-ok rest abs l e, length-slice abs l parent, (from_bytes_iff _ d).0 e3)
value_arm-WithinRest Tag.array rest parent abs v r h = bind_ok (doc_len rest abs) _ h λ l e f.
    bind_ok (lift_read (read_bytes l rest)) _ f λ p e2 f2.
      bind_ok (array_from_bytes (slice abs (abs + l) parent)) _ f2 λ d e3 f3. ground (
        arith,
        f3,
        doc_len-ok rest abs l e,
        length-slice abs l parent,
        array_bytes (slice abs (abs + l) parent) d e3,
      )
value_arm-WithinRest _ rest parent abs v r h = ground arith

value_arm-ne-stuck : (t : Tag) (rest parent : Bytes) (abs : ℕ) → value_arm t rest parent abs ≢ stuck
unfolding value_arm read_bytes read_u8 read_u32_le read_i32_le read_i64_le read_cstring read_str
    read_cstr read_binary read_bool binary_payload subtype_from_u8 doc_len parse_scope from_bytes
    array_from_bytes
value_arm-ne-stuck Tag.double rest parent abs e = ground arith
value_arm-ne-stuck _ rest parent abs e = ground arith

parse_value-ne-stuck :
    (tag : ℕ) (rest parent : Bytes) (abs : ℕ) → parse_value tag rest parent abs ≢ stuck
unfolding parse_value
parse_value-ne-stuck tag rest parent abs =
    >>=-ne-stuck _ _ (value_arm-ne-stuck (tag_from_u8 tag) rest parent abs) λ p e. λ q. cc

parse_value-WithinRest :
    (tag : ℕ) (rest parent : Bytes) (abs : ℕ) (v : RawBsonRef) (n : ℕ)
    → parse_value tag rest parent abs ≡ ok (v, n)
    → WithinRest v (length rest)
unfolding parse_value
parse_value-WithinRest tag rest parent abs v n h =
    bind_ok (value_arm (tag_from_u8 tag) rest parent abs) _ h
      λ p e f. ground (arith, f, value_arm-WithinRest (tag_from_u8 tag) rest parent abs p.0 p.1 e)

-- What is left of the body at the cursor.
abbrev pub left : Scanner → ℕ
left sc = length sc.body - sc.offset

field_at-ne-stuck : (sc : Scanner) (tag rel : ℕ) → field_at sc tag rel ≢ stuck
unfolding field_at
field_at-ne-stuck sc tag rel e = ground (
  arith,
  parse_value-ne-stuck tag (drop (sc.offset + (rel + 1)) sc.body) sc.parent
      (4 + (sc.offset + (rel + 1))),
)

next_field-ne-stuck : (sc : Scanner) (tag : ℕ) → next_field sc tag ≢ stuck
unfolding next_field
next_field-ne-stuck sc tag e = elim (Option-cases (position_nul (drop sc.offset sc.body))) [
  | inl n ↦ ground arith
  | inr (rel, n) ↦ ground (arith, field_at-ne-stuck sc tag rel)
]

pub next-ne-stuck : (sc : Scanner) → next sc ≢ stuck
unfolding next
next-ne-stuck sc e = elim (Option-cases (get_elem? sc.body sc.offset)) [
  | inl n ↦ ground arith
  | inr (tag, n) ↦ ground (arith, next_field-ne-stuck (record sc { offset = sc.offset + 1 }) tag)
]

-- What a field brings, in terms of the offset behind its tag.
field_at_progress :
    (sc sc' : Scanner) (tag rel : ℕ) (name : Bytes) (raw : RawBsonRef)
    → field_at sc tag rel ≡ ok (some (name, raw), sc')
    → (sc'.body ≡ sc.body)
      × (sc.offset + 1 ≤ sc'.offset)
      × (weight raw ≤ length sc.body - sc.offset + 1)
unfolding field_at
field_at_progress sc sc' tag rel name raw h =
    bind_ok (guard (is_utf8 (take rel (drop sc.offset sc.body))) utf8) _ h λ u e1 f1.
      bind_ok (parse_value tag (drop (sc.offset + (rel + 1)) sc.body) sc.parent _) _ f1 λ p e f.
        ground (
          arith,
          f,
          parse_value-WithinRest tag (drop (sc.offset + (rel + 1)) sc.body) sc.parent _ p.0 p.1 e,
          length-drop (sc.offset + (rel + 1)) sc.body,
        )

next_field_progress :
    (sc sc' : Scanner) (tag : ℕ) (name : Bytes) (raw : RawBsonRef)
    → next_field sc tag ≡ ok (some (name, raw), sc')
    → (sc'.body ≡ sc.body)
      × (sc.offset + 1 ≤ sc'.offset)
      × (weight raw ≤ length sc.body - sc.offset + 1)
unfolding next_field
next_field_progress sc sc' tag name raw h =
    elim (Option-cases (position_nul (drop sc.offset sc.body))) [
      | inl n ↦ ground arith
      | inr (rel, n) ↦ field_at_progress sc sc' tag rel name raw (ground arith)
    ]

get_elem?_bound : (b : Bytes) (i x : ℕ) → get_elem? b i ≡ some x → i < length b
get_elem?_bound [] i x h = cc
get_elem?_bound (y ∷ b) zero x h = omega arith
get_elem?_bound (y ∷ b) (suc i) x h = omega (arith, get_elem?_bound b i x h)

-- A field takes at least two bytes, and its value lies in what is left after them.
pub next_progress :
    (sc sc' : Scanner) (name : Bytes) (raw : RawBsonRef)
    → next sc ≡ ok (some (name, raw), sc')
    → (left sc' < left sc) × (weight raw ≤ left sc)
unfolding next
next_progress sc sc' name raw h = elim (Option-cases (get_elem? sc.body sc.offset)) [
  | inl n ↦ ground arith
  | inr (tag, n) ↦ ground (
    arith,
    get_elem?_bound sc.body sc.offset tag n,
    next_field_progress (record sc { offset = sc.offset + 1 }) sc' tag name raw,
  )
]

plain_ne_stuck :
    (mode : Mode) (raw : RawBsonRef) → weight raw ≡ 1 → materialize_plain mode raw ≢ stuck
unfolding materialize_plain plain_to_bson plain_deep
plain_ne_stuck shallow (RawBsonRef.document d) h e = absurd (omega arith)
plain_ne_stuck shallow (RawBsonRef.array a) h e = absurd (omega arith)
plain_ne_stuck shallow _ h e = cc
plain_ne_stuck deep (RawBsonRef.document d) h e = absurd (omega arith)
plain_ne_stuck deep (RawBsonRef.array a) h e = absurd (omega arith)
plain_ne_stuck deep _ h e = cc

nested_left : (b : Bytes) (fuel : ℕ) → length b + 2 ≤ suc fuel → left (scanner_new b) < fuel
unfolding scanner_new
nested_left b fuel h = omega (arith, length-drop 4 b)

-- This much fuel is enough for what is left of a body, and for a value.
record Enough (mode : Mode) (fuel : ℕ) : Type 0 where
  fields : (depth : ℕ) (sc : Scanner) → left sc < fuel → scan_fields fuel mode depth sc ≢ stuck
  values : (depth : ℕ) (sc : Scanner) → left sc < fuel → scan_values fuel mode depth sc ≢ stuck
  one : (depth : ℕ) (raw : RawBsonRef) → weight raw ≤ fuel → materialize fuel raw mode depth ≢ stuck

module _ (mode : Mode) (fuel : ℕ) (ih : Enough mode fuel) where
  fields_step :
      (depth : ℕ) (sc : Scanner) → left sc < suc fuel → scan_fields (suc fuel) mode depth sc ≢ stuck
  unfolding scan_fields
  fields_step depth sc h = >>=-ne-stuck (next sc) _ (next-ne-stuck sc) λ p e. after p.0 p.1 e
    where
      after :
          (o : Option (Bytes × RawBsonRef)) (sc' : Scanner)
          → next sc ≡ ok (o, sc')
          → ◌≢◌ {A = Result Error Fields}
              (elim o [
                | none ↦ ok no_fields
                | some (name, raw) ↦ materialize fuel raw mode depth >>= λ v.
                    scan_fields fuel mode depth sc' >>= λ rest. ok (field name v rest)
              ])
              stuck
      after none sc' e = λ q. cc
      after (some (name, raw)) sc' e =
          let (shorter, fits) = next_progress sc sc' name raw e in
          >>=-ne-stuck (materialize fuel raw mode depth) _ (ih.one depth raw (omega arith)) λ v e1.
            >>=-ne-stuck (scan_fields fuel mode depth sc') _ (ih.fields depth sc' (omega arith))
              λ rest e2 q. cc

  values_step :
      (depth : ℕ) (sc : Scanner) → left sc < suc fuel → scan_values (suc fuel) mode depth sc ≢ stuck
  unfolding scan_values
  values_step depth sc h = >>=-ne-stuck (next sc) _ (next-ne-stuck sc) λ p e. after p.0 p.1 e
    where
      after :
          (o : Option (Bytes × RawBsonRef)) (sc' : Scanner)
          → next sc ≡ ok (o, sc')
          → ◌≢◌ {A = Result Error Values}
              (elim o [
                | none ↦ ok no_values
                | some (name, raw) ↦ materialize fuel raw mode depth >>= λ v.
                    scan_values fuel mode depth sc' >>= λ rest. ok (value v rest)
              ])
              stuck
      after none sc' e = λ q. cc
      after (some (name, raw)) sc' e =
          let (shorter, fits) = next_progress sc sc' name raw e in
          >>=-ne-stuck (materialize fuel raw mode depth) _ (ih.one depth raw (omega arith)) λ v e1.
            >>=-ne-stuck (scan_values fuel mode depth sc') _ (ih.values depth sc' (omega arith))
              λ rest e2 q. cc

  one_step :
      (depth : ℕ) (raw : RawBsonRef)
      → weight raw ≤ suc fuel
      → materialize (suc fuel) raw mode depth ≢ stuck
  unfolding materialize
  one_step depth (RawBsonRef.document d) h e =
      ground (arith, ih.fields (suc depth) (scanner_new d.bytes) (nested_left d.bytes fuel h))
  one_step depth (RawBsonRef.array a) h e =
      ground (arith, ih.values (suc depth) (scanner_new a.bytes) (nested_left a.bytes fuel h))
  one_step depth (RawBsonRef.javascript_scope code scope) h e = cc
  one_step depth raw h e = plain_ne_stuck mode raw refl e

enough : (mode : Mode) (fuel : ℕ) → Enough mode fuel
enough mode zero = record {
  fields = λ depth sc h. absurd (omega arith);
  values = λ depth sc h. absurd (omega arith);
  one = λ depth raw h. absurd (no_weight raw h);
}
  where
    no_weight : (raw : RawBsonRef) → weight raw ≤ 0 → ⊥
    no_weight (RawBsonRef.document d) h = omega arith
    no_weight (RawBsonRef.array a) h = omega arith
    no_weight _ h = omega arith
enough mode (suc fuel) = record {
  fields = fields_step mode fuel (enough mode fuel);
  values = values_step mode fuel (enough mode fuel);
  one = one_step mode fuel (enough mode fuel);
}

-- Decoding a document or an array ends on every byte string, in both modes and at every depth: the
-- fuel of the model does not run out.
pub decode_document-ne-stuck :
    (bytes : Bytes) (mode : Mode) (depth : ℕ)
    → (decode_document bytes mode depth ≢ stuck) × (decode_array bytes mode depth ≢ stuck)
unfolding decode_document decode_array
decode_document-ne-stuck bytes mode depth = (
  >>=-ne-stuck (depth_guard depth) _ (guard_ends _ _)
      λ u e. (enough mode (decode_fuel bytes)).fields depth (scanner_new bytes) (start bytes),
  >>=-ne-stuck (depth_guard depth) _ (guard_ends _ _)
      λ u e. (enough mode (decode_fuel bytes)).values depth (scanner_new bytes) (start bytes),
)
  where
    guard_ends : (x : Error) (b : Bool) → guard b x ≢ stuck
    guard_ends x true = λ q. cc
    guard_ends x false = λ q. cc

    start : (b : Bytes) → left (scanner_new b) < decode_fuel b
    start b = unfold scanner_new in omega (arith, length-drop 4 b)
