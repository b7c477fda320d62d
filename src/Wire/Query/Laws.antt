-- ===== src/Wire/Query/Laws.antt =====
-- mongowire/src/messages/op_query.rs: what the writer appends, and that the parser reads it back.
use mongowire.Base.{
  ◌-◌, ◌%◌, ◌<◌, ◌≤◌, ◌≡◌, ◌≢◌, refl, sym, ap, ◌∙◌, true, false, Option, none, some, [], ◌∷◌, ◌++◌,
  append_assoc, append-nil, Bytes, pos, Fits, pattern_of, i32_half, length, take, ◌==◌, ok, is_utf8,
  contains_nul, length-append, length-to_le, drop-append, take-append_front, arith, from_le,
}
use mongowire.Io.{
  put_u8, put_bytes, put_i32_le, i32_to_le, i32_from_le, read_i32_le, read_cstring, peek_i32_le,
  remaining,
}
use mongowire.Io.Laws.{read_i32_le-append, read_cstring-append, read_bytes-append}
use mongowire.Bson.{RawDocument}
use mongowire.Bson.Raw.{from_bytes, from_bytes_iff, IsRaw}
use mongowire.Wire.Sections.Slices.{slice-at}
use mongowire.Wire.Query.{
  OpQuery, query_flags, take_document, parse_selector, parse_body, encode_body, body_len,
  put_selector, selector_len,
}

abbrev pub selector_bytes : Option RawDocument → Bytes
selector_bytes none = []
selector_bytes (some d) = d.bytes

abbrev pub query_bytes : OpQuery → Bytes
query_bytes q =
    i32_to_le (pos q.flags.bits)
    ++ (q.full_collection_name
        ++ 0
          ∷ (i32_to_le q.number_to_skip
              ++ (i32_to_le q.number_to_return
                  ++ (q.query.bytes ++ selector_bytes q.return_fields_selector))))

put_selector-bytes :
    (s : Option RawDocument) (out : Bytes) → put_selector s out ≡ out ++ selector_bytes s
unfolding put_bytes
put_selector-bytes none out = sym (append-nil out)
put_selector-bytes (some d) out = refl

pub encode_body-bytes : (q : OpQuery) (out : Bytes) → encode_body q out ≡ out ++ query_bytes q
unfolding encode_body put_i32_le put_bytes put_u8
encode_body-bytes q out = put_selector-bytes q.return_fields_selector _ ∙ simp append_assoc

length-selector_bytes : (s : Option RawDocument) → length (selector_bytes s) ≡ selector_len s
length-selector_bytes none = refl
length-selector_bytes (some d) = refl

pub length-query_bytes : (q : OpQuery) → length (query_bytes q) ≡ body_len q
unfolding body_len
length-query_bytes q =
    let s = selector_bytes q.return_fields_selector in
    let e = i32_to_le q.number_to_return ++ (q.query.bytes ++ s) in
    omega (
      arith,
      length-append (i32_to_le (pos q.flags.bits))
          (q.full_collection_name ++ 0 ∷ (i32_to_le q.number_to_skip ++ e)),
      length-append q.full_collection_name (0 ∷ (i32_to_le q.number_to_skip ++ e)),
      length-append (i32_to_le q.number_to_skip) e,
      length-append (i32_to_le q.number_to_return) (q.query.bytes ++ s),
      length-append q.query.bytes s,
      length-to_le 4 q.flags.bits,
      length-to_le 4 (pattern_of i32_half q.number_to_skip),
      length-to_le 4 (pattern_of i32_half q.number_to_return),
      length-selector_bytes q.return_fields_selector,
    )

-- A document at the cursor is taken, and the cursor moves behind it.
pub take_document-at :
    (pre rest : Bytes) (d : RawDocument)
    → IsRaw d.bytes
    → length d.bytes < i32_half
    → take_document (pre ++ (d.bytes ++ rest)) (d.bytes ++ rest) ≡ ok (d, rest)
unfolding take_document peek_i32_le i32_from_le remaining
take_document-at pre rest d (low, declared, last) small =
    let r = d.bytes ++ rest in
    let start : length (pre ++ r) - length r ≡ length pre = omega (arith, length-append pre r) in
    let whole = slice-at (length pre) (pre ++ r) d.bytes rest (drop-append pre r) in
    let word : from_le (take 4 r) ≡ length d.bytes =
      ap from_le (take-append_front 4 d.bytes rest (omega arith)) ∙ declared in
    let valid : from_bytes d.bytes ≡ ok d =
      (from_bytes_iff d.bytes d).1 (refl, (low, declared, last)) in
    let taken = read_bytes-append d.bytes rest in
    ground (arith, start, whole, word, valid, taken, length-append d.bytes rest)

abbrev pub IsSelector : Option RawDocument → Type 0
IsSelector none = Unit {0}
IsSelector (some d) = IsRaw d.bytes × (length d.bytes < i32_half)

-- A query as the parser accepts it, with documents below 2^31 bytes.
abbrev pub IsQuery : OpQuery → Type 0
IsQuery q =
    (q.flags.bits ≡ q.flags.bits % 256 - q.flags.bits % 2)
    × (q.full_collection_name ≢ [])
    × (contains_nul q.full_collection_name ≡ false)
    × (is_utf8 q.full_collection_name ≡ true)
    × Fits i32_half q.number_to_skip
    × Fits i32_half q.number_to_return
    × IsRaw q.query.bytes
    × (length q.query.bytes < i32_half)
    × IsSelector q.return_fields_selector

some_selector :
    (body r : Bytes) (d : RawDocument)
    → 5 ≤ length r
    → take_document body r ≡ ok (d, [])
    → parse_selector body r ≡ ok (some d, [])
unfolding parse_selector
some_selector body [] d h e = absurd (omega (arith, h))
some_selector body (b ∷ r) d h e = rw e refl

parse_selector-at :
    (pre : Bytes) (s : Option RawDocument)
    → IsSelector s
    → parse_selector (pre ++ selector_bytes s) (selector_bytes s) ≡ ok (s, [])
unfolding parse_selector
parse_selector-at pre none h = refl
parse_selector-at pre (some d) (raw, small) =
    let one = rw (append-nil d.bytes) at (take_document-at pre [] d raw small) in
    some_selector (pre ++ d.bytes) d.bytes d (raw.0) one

-- The steps of the parser, each with its result.
parse_body_steps :
    (q : OpQuery) (body r1 r2 r3 r4 r5 : Bytes)
    → read_i32_le body ≡ ok (pos q.flags.bits, r1)
    → read_cstring r1 ≡ ok (q.full_collection_name, r2)
    → (length q.full_collection_name == 0) ≡ false
    → is_utf8 q.full_collection_name ≡ true
    → read_i32_le r2 ≡ ok (q.number_to_skip, r3)
    → read_i32_le r3 ≡ ok (q.number_to_return, r4)
    → take_document body r4 ≡ ok (q.query, r5)
    → parse_selector body r5 ≡ ok (q.return_fields_selector, [])
    → q.flags.bits ≡ q.flags.bits % 256 - q.flags.bits % 2
    → parse_body body ≡ ok q
unfolding parse_body query_flags
parse_body_steps q body r1 r2 r3 r4 r5 h1 h2 h3 h4 h5 h6 h7 h8 h9 =
    rw (h1, h2, h3, h4, h5, h6, h7, h8) (rw (← h9) refl)

nonempty : (b : Bytes) → b ≢ [] → (length b == 0) ≡ false
nonempty [] h = absurd (h refl)
nonempty (x ∷ b) h = ground arith

-- A query that follows the parser's rules is parsed back from the bytes that `encode_body` writes.
pub parse_body-encode_body_query : (q : OpQuery) → IsQuery q → parse_body (encode_body q []) ≡ ok q
parse_body-encode_body_query q (known, named, clean, utf, skip, back, raw, small, sel) =
    let s = selector_bytes q.return_fields_selector in
    let r4 = q.query.bytes ++ s in
    let r3 = i32_to_le q.number_to_return ++ r4 in
    let r2 = i32_to_le q.number_to_skip ++ r3 in
    let r1 = q.full_collection_name ++ 0 ∷ r2 in
    let head =
      i32_to_le (pos q.flags.bits)
      ++ (q.full_collection_name
          ++ 0 ∷ (i32_to_le q.number_to_skip ++ i32_to_le q.number_to_return)) in
    let split : query_bytes q ≡ head ++ r4 = simp append_assoc in
    let split2 : query_bytes q ≡ (head ++ q.query.bytes) ++ s = simp append_assoc in
    rw (encode_body-bytes q []) (
      parse_body_steps q (query_bytes q) r1 r2 r3 r4 s
        (read_i32_le-append (pos q.flags.bits) r1 (omega (arith, known)))
        (read_cstring-append q.full_collection_name r2 clean)
        (nonempty q.full_collection_name named) utf (read_i32_le-append q.number_to_skip r3 skip)
        (read_i32_le-append q.number_to_return r4 back)
        (rw (← split) at (take_document-at head s q.query raw small))
        (rw (← split2) at (parse_selector-at (head ++ q.query.bytes) q.return_fields_selector sel))
        known)
