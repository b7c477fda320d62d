-- ===== src/Bson/Encode/Written.antt =====
-- wirebson/src/encode.rs: what the encoder writes, in plain terms, and what a success says of the
-- lengths and names in the document.
use mongowire.Base.{
  Option-cases, inl, inr, map_err-eq-ok, ℕ, suc, ◌+◌, ◌-◌, ◌<◌, ◌≡◌, ◌∙◌, false, not, none, some,
  [], ◌∷◌, ◌++◌, append_assoc, append-nil, Bytes, pos, length, length-append, ltb, to_le, i32_half,
  Result, ok, ◌>>=◌, guard, map_err, bind_ok, arith, to_string, contains_nul,
}
use mongowire.Io.{put_u8, put_bytes, put_i32_le, put_cstring, placeholder_i32}
use mongowire.Io.Laws.{put_i32_le_at-append}
use mongowire.Scalar.Written.{scalar_bytes, string_bytes, StringFits, encode_scalar-ok}
use mongowire.Scalar.Encode.{encode_scalar}
use mongowire.Bson.{
  Bson, Fields, Values, RawDocument, Error, document, array, javascript_scope, no_fields, field,
  no_values, value, as_scalar, tag, scalar, invalid,
}
use mongowire.Bson.Raw.{IsRaw, from_bytes_iff}
use mongowire.Bson.Encode.{
  patch_len, encode_composite, encode_string, encode_scope, encode_plain, field_head, encode_value,
  encode_fields, encode_values, encode_document, encode,
}

-- A body between its length and its NUL.
abbrev pub framed : Bytes → Bytes
framed body = to_le 4 (length body + 5) ++ (body ++ 0 ∷ [])

abbrev pub plain_bytes : Bson → Bytes
plain_bytes v = elim (as_scalar v) [ none ↦ [] | some s ↦ scalar_bytes s ]

abbrev pub scope_bytes : Bytes → Bytes → Bytes
scope_bytes code scope =
    to_le 4 (length (string_bytes code) + length scope + 4) ++ (string_bytes code ++ scope)

unfoldable mutual
  pub value_bytes : Bson → Bytes
  value_bytes (document fs) = framed (fields_bytes fs)
  value_bytes (array vs) = framed (values_bytes 0 vs)
  value_bytes (javascript_scope code scope) = scope_bytes code scope.bytes
  value_bytes v = plain_bytes v

  pub fields_bytes : Fields → Bytes
  fields_bytes no_fields = []
  fields_bytes (field name v fs) = tag v ∷ (name ++ 0 ∷ (value_bytes v ++ fields_bytes fs))

  pub values_bytes : ℕ → Values → Bytes
  values_bytes i no_values = []
  values_bytes i (value v vs) =
      tag v ∷ (to_string i ++ 0 ∷ (value_bytes v ++ values_bytes (suc i) vs))

-- What was written behind a placeholder, with the length patched in.
patch_len-ok :
    (out body out' : Bytes)
    → patch_len (out ++ (0 ∷ 0 ∷ 0 ∷ 0 ∷ body)) (length out) ≡ ok out'
    → (length body + 4 < i32_half) × (out' ≡ out ++ (to_le 4 (length body + 4) ++ body))
unfolding patch_len
patch_len-ok out body out' h =
    ground (arith, size, put_i32_le_at-append out body (pos (length body + 4)))
  where
    size : length (out ++ (0 ∷ 0 ∷ 0 ∷ 0 ∷ body)) - length out ≡ length body + 4
    size = omega (arith, length-append out (0 ∷ 0 ∷ 0 ∷ 0 ∷ body))

encode_composite-ok :
    (elements : Bytes → Result Error Bytes) (body : Bytes) (P : Type 0) (out out' : Bytes)
    → ((o o' : Bytes) → elements o ≡ ok o' → (o' ≡ o ++ body) × P)
    → encode_composite elements out ≡ ok out'
    → (out' ≡ out ++ framed body) × (length body + 5 < i32_half) × P
unfolding encode_composite placeholder_i32 put_u8
encode_composite-ok elements body P out out' writes h =
    bind_ok (elements (out ++ (0 ∷ 0 ∷ 0 ∷ 0 ∷ []))) _ h λ o e f.
      let (eo, p) = writes _ o e in
      let at : o ++ 0 ∷ [] ≡ out ++ (0 ∷ 0 ∷ 0 ∷ 0 ∷ (body ++ 0 ∷ [])) =
        rw eo (simp append_assoc) in
      let n : length (body ++ 0 ∷ []) + 4 ≡ length body + 5 =
        omega (arith, length-append body (0 ∷ [])) in
      let (small, same) = patch_len-ok out (body ++ 0 ∷ []) out' (rw at at f) in
      (rw n at same, rw n at small, p)

encode_string-ok :
    (out v out' : Bytes)
    → encode_string out v ≡ ok out'
    → (out' ≡ out ++ string_bytes v) × StringFits v
unfolding encode_string put_u8 put_bytes put_i32_le
encode_string-ok out v out' h =
    let join : ((out ++ to_le 4 (length v + 1)) ++ v) ++ 0 ∷ [] ≡ out ++ string_bytes v =
      simp append_assoc in
    ground (arith, join)

encode_scope-ok :
    (code : Bytes) (scope : RawDocument) (out out' : Bytes)
    → encode_scope code scope out ≡ ok out'
    → out' ≡ out ++ scope_bytes code scope.bytes
unfolding encode_scope placeholder_i32 put_bytes
encode_scope-ok code scope out out' h =
    bind_ok
      (guard (not (ltb (length scope.bytes) 5))
        (invalid (length out) "empty JavaScript scope document"))
      _ h
      λ u e f. bind_ok (encode_string (out ++ (0 ∷ 0 ∷ 0 ∷ 0 ∷ [])) code) _ f λ o e2 f2.
        let (eo, fits) = encode_string-ok _ code o e2 in
        let at : o ++ scope.bytes ≡ out ++ (0 ∷ 0 ∷ 0 ∷ 0 ∷ (string_bytes code ++ scope.bytes)) =
          rw eo (simp append_assoc) in
        let n : length (string_bytes code ++ scope.bytes) + 4
            ≡ length (string_bytes code) + length scope.bytes + 4 =
          omega (arith, length-append (string_bytes code) scope.bytes) in
        let (small, same) =
          patch_len-ok out (string_bytes code ++ scope.bytes) out' (rw at at f2) in
        rw n at same

encode_plain-ok :
    (v : Bson) (out out' : Bytes) → encode_plain v out ≡ ok out' → out' ≡ out ++ plain_bytes v
unfolding encode_plain
encode_plain-ok v out out' h = elim (Option-cases (as_scalar v)) [
  | inl e ↦ ground (arith, h, e)
  | inr (s, e) ↦
      let h' : (◌>>=◌ {B = Bytes} (map_err scalar (encode_scalar s out)) λ p. ok p.1) ≡ ok out' =
        ground (arith, h, e) in
      bind_ok (map_err scalar (encode_scalar s out)) _ h' λ p e2 f.
        let (fits, same, n) =
          encode_scalar-ok s out p.1 p.0 (map_err-eq-ok scalar (encode_scalar s out) e2) in
        rw (e, plain_bytes) (ground (arith, f, same))
]

field_head-ok :
    (out name out' : Bytes) (v : Bson)
    → field_head out name v ≡ ok out'
    → (out' ≡ out ++ tag v ∷ (name ++ 0 ∷ [])) × (contains_nul name ≡ false)
unfolding field_head put_cstring put_u8 put_bytes
field_head-ok out name out' v h =
    let join : ((out ++ tag v ∷ []) ++ name) ++ 0 ∷ [] ≡ out ++ tag v ∷ (name ++ 0 ∷ []) =
      simp append_assoc in
    ground (arith, join)

-- A field behind what was written before it.
joined :
    (out : Bytes) (t : ℕ) (name v rest o1 o2 out' : Bytes)
    → o1 ≡ out ++ t ∷ (name ++ 0 ∷ [])
    → o2 ≡ o1 ++ v
    → out' ≡ o2 ++ rest
    → out' ≡ out ++ t ∷ (name ++ 0 ∷ (v ++ rest))
joined out t name v rest o1 o2 out' a b c = c ∙ rw (b, a) (simp append_assoc)

mutual
  unfolding encode_value encode_fields encode_values value_bytes fields_bytes values_bytes

  encode_value-ok :
      (v : Bson) (out out' : Bytes) → encode_value v out ≡ ok out' → out' ≡ out ++ value_bytes v
  encode_value-ok (document fs) out out' h =
      (encode_composite-ok (λ o. encode_fields fs o) (fields_bytes fs) Unit out out'
        (λ o o' e. (encode_fields-ok fs o o' e, tt)) h).0
  encode_value-ok (array vs) out out' h =
      (encode_composite-ok (λ o. encode_values 0 vs o) (values_bytes 0 vs) Unit out out'
        (λ o o' e. (encode_values-ok 0 vs o o' e, tt)) h).0
  encode_value-ok (javascript_scope code scope) out out' h = encode_scope-ok code scope out out' h
  encode_value-ok v out out' h = encode_plain-ok v out out' h

  encode_fields-ok :
      (fs : Fields) (out out' : Bytes)
      → encode_fields fs out ≡ ok out'
      → out' ≡ out ++ fields_bytes fs
  encode_fields-ok no_fields out out' h = ground (arith, h, append-nil out)
  encode_fields-ok (field name v fs) out out' h = bind_ok (field_head out name v) _ h λ o1 e1 f1.
      bind_ok (encode_value v o1) _ f1 λ o2 e2 f2.
        let a = (field_head-ok out name o1 v e1).0 in
        let b = encode_value-ok v o1 o2 e2 in
        let c = encode_fields-ok fs o2 out' f2 in
        joined out (tag v) name (value_bytes v) (fields_bytes fs) o1 o2 out' a b c

  encode_values-ok :
      (i : ℕ) (vs : Values) (out out' : Bytes)
      → encode_values i vs out ≡ ok out'
      → out' ≡ out ++ values_bytes i vs
  encode_values-ok i no_values out out' h = ground (arith, h, append-nil out)
  encode_values-ok i (value v vs) out out' h =
      bind_ok (field_head out (to_string i) v) _ h λ o1 e1 f1.
        bind_ok (encode_value v o1) _ f1 λ o2 e2 f2.
          let a = (field_head-ok out (to_string i) o1 v e1).0 in
          let b = encode_value-ok v o1 o2 e2 in
          let c = encode_values-ok (suc i) vs o2 out' f2 in
          joined out (tag v) (to_string i) (value_bytes v) (values_bytes (suc i) vs) o1 o2 out' a b
            c

-- Encoding a document gives its length, the fields in order as tag, name, NUL and value, and a NUL,
-- with every nested length patched in; the bytes pass the validation of a raw document, and are
-- fewer than 2^31.
pub encode-framed :
    (doc : Fields) (raw : RawDocument)
    → encode doc ≡ ok raw
    → (raw.bytes ≡ framed (fields_bytes doc))
      × IsRaw raw.bytes
      × (length (fields_bytes doc) + 5 < i32_half)
unfolding encode encode_document
encode-framed doc raw h = bind_ok (encode_document doc []) _ h λ out e f.
    let (same, small, u) =
      encode_composite-ok (encode_fields doc) (fields_bytes doc) Unit [] out
        (λ o o' p. (encode_fields-ok doc o o' p, tt)) e in
    let (bytes, good) = (from_bytes_iff out raw).0 f in (bytes ∙ same, rw bytes good, small)
